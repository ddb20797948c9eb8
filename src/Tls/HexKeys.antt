-- ===== src/Tls/HexKeys.antt =====
-- A key or certificate that is given as hexadecimal text is provisioned as the bytes it stands for.
use mbed_ce_st87m.Common.{
  ℕ, suc, ◌+◌, ◌*◌, ◌/◌, ◌≤◌, ◌≡◌, refl, sym, ◌∙◌, Bool, true, false, not, ◌&&◌, ◌||◌, some, List,
  [], ◌∷◌, arith, ltb, ◌==◌, if◌then◌else◌, length, All, ℤ, all_below, all_below_sound,
}
use mbed_ce_st87m.At.{parameter, Action, Trace, pure, ◌>>=◌}
use mbed_ce_st87m.Codec.Hex.{high_char, encode, starts_with, is_hex_string}
use mbed_ce_st87m.Codec.Hex.Digits.{count_digits-eq}
use mbed_ce_st87m.Codec.Hex.RoundTrip.{IsByte, encode_reads, convert_hex_to_bin-encode}
use mbed_ce_st87m.Tls.{Library, KeyStorage, CertType, malloc, upload, out_of_range, op_max_pem_size}
use mbed_ce_st87m.Tls.Input.{looks_like_pem, from_hex, key_contents, cert_contents}
use mbed_ce_st87m.Tls.Keys.{add_key, replace_key}
use mbed_ce_st87m.Tls.Certificates.{add_certificate_impl, provision}
use mbed_ce_st87m.Tls.Refusals.{cert_contents-der}

pub length-encode : (bs : List ℕ) → length (encode bs) ≡ length bs * 2
unfolding encode
length-encode [] = refl
length-encode (b ∷ bs) = omega (arith, length-encode bs)

-- The first character is neither '0' nor '-'.
first_table :
    all_below 256 (λ b. ltb b 16 || not (high_char b == 0x30) && not (b'-' == high_char b)) ≡ true
unfolding all_below high_char
first_table = refl

-- The text of bytes is taken for hexadecimal, unless it begins with '0'.
pub is_hex_string-encode :
    (b : ℕ) (bs : List ℕ)
    → All IsByte (b ∷ bs)
    → 16 ≤ b
    → is_hex_string (some (encode (b ∷ bs))) ≡ true
unfolding is_hex_string encode starts_with
is_hex_string-encode b bs bytes h =
    let e = all_below_sound 256 _ b first_table (bytes.0) in
    let reads = encode_reads (b ∷ bs) bytes in
    ground (arith, e, reads, count_digits-eq (encode (b ∷ bs)) 0)

nonzero : (bs : List ℕ) → (suc (length bs) == 0) ≡ false
nonzero bs = ground arith

within : (bs : List ℕ) → length bs * 2 ≤ 4096 → ltb op_max_pem_size (length bs) ≡ false
within bs h = ground (arith, h)

within_text :
    (bs : List ℕ) → length bs * 2 ≤ 4096 → ltb op_max_pem_size (length (encode bs)) ≡ false
within_text bs h = ground (arith, h, length-encode bs)

nonzero_text : (b : ℕ) (bs : List ℕ) → (length (encode (b ∷ bs)) == 0) ≡ false
nonzero_text b bs = ground (arith, length-encode (b ∷ bs))

-- Bytes whose text is read as hexadecimal, and that are themselves neither text nor PEM.
pub record IsPlain (b : ℕ) (bs : List ℕ) : Type 0 where
  pub bytes : All IsByte (b ∷ bs)
  pub first : 16 ≤ b
  pub fits : length (b ∷ bs) * 2 ≤ 4096
  pub no_hex : is_hex_string (some (b ∷ bs)) ≡ false
  pub no_pem : looks_like_pem (b ∷ bs) ≡ false

module _ {S : Type 0} (lib : Library) where
  from_hex-encode :
      (b : ℕ) (bs : List ℕ) (s : S) (t : Trace)
      → All IsByte (b ∷ bs)
      → lib.malloc_ok (length (b ∷ bs) + 1) t ≡ true
      → from_hex lib (encode (b ∷ bs)) s t ≡ (upload (b ∷ bs), s, t)
  unfolding from_hex ◌>>=◌ malloc
  from_hex-encode b bs s t bytes room =
      let whole : length (encode (b ∷ bs)) / 2 + 1 ≡ length (b ∷ bs) + 1 =
        omega (arith, length-encode (b ∷ bs)) in
      rw (whole, room)
        (rw
          (convert_hex_to_bin-encode (b ∷ bs) (length (b ∷ bs) + 1) bytes (omega arith)
            (omega arith))
          (rw (nonzero bs) refl))

else_alike :
    {S A : Type 0} (c : Bool) (r x y : Action S A) (s : S) (t : Trace)
    → x s t ≡ y s t
    → (if c then r else x) s t ≡ (if c then r else y) s t
else_alike true r x y s t h = refl
else_alike false r x y s t h = h

module _ {S : Type 0} (lib : Library) (b : ℕ) (bs : List ℕ) (plain : IsPlain b bs) (s : S)
    (t : Trace) (room : lib.malloc_ok (length (b ∷ bs) + 1) t ≡ true) where
  add_key-text :
      (profile : ℤ) (storage : KeyStorage)
      → add_key lib profile (some (encode (b ∷ bs))) storage s t
        ≡ (if out_of_range profile
              then pure parameter
              else replace_key lib profile storage (upload (b ∷ bs)))
            s t
  unfolding add_key ◌>>=◌ key_contents
  add_key-text profile storage =
      rw
        (
          nonzero_text b bs,
          within_text (b ∷ bs) plain.fits,
          is_hex_string-encode b bs plain.bytes plain.first,
        )
        (else_alike (out_of_range profile) _ _ _ s t
          (rw (from_hex-encode lib b bs s t plain.bytes room) refl))

  add_key-bytes :
      (profile : ℤ) (storage : KeyStorage)
      → add_key lib profile (some (b ∷ bs)) storage s t
        ≡ (if out_of_range profile
              then pure parameter
              else replace_key lib profile storage (upload (b ∷ bs)))
            s t
  unfolding add_key ◌>>=◌ key_contents
  add_key-bytes profile storage =
      rw (nonzero bs, within (b ∷ bs) plain.fits, plain.no_hex, plain.no_pem)
        (else_alike (out_of_range profile) _ _ _ s t refl)

  cert_text :
      (profile : ℤ) (type : CertType) (volatile : Bool)
      → add_certificate_impl lib profile type (some (encode (b ∷ bs))) volatile s t
        ≡ (if out_of_range profile
              then pure parameter
              else provision lib profile type volatile (upload (b ∷ bs)))
            s t
  unfolding add_certificate_impl ◌>>=◌ cert_contents
  cert_text profile type volatile =
      rw
        (
          nonzero_text b bs,
          within_text (b ∷ bs) plain.fits,
          is_hex_string-encode b bs plain.bytes plain.first,
        )
        (else_alike (out_of_range profile) _ _ _ s t
          (rw (from_hex-encode lib b bs s t plain.bytes room) refl))

  cert_bytes :
      (profile : ℤ) (type : CertType) (volatile : Bool)
      → add_certificate_impl lib profile type (some (b ∷ bs)) volatile s t
        ≡ (if out_of_range profile
              then pure parameter
              else provision lib profile type volatile (upload (b ∷ bs)))
            s t
  unfolding add_certificate_impl ◌>>=◌
  cert_bytes profile type volatile =
      rw
        (
          nonzero bs,
          within (b ∷ bs) plain.fits,
          cert_contents-der lib (b ∷ bs) plain.no_hex plain.no_pem,
        )
        (else_alike (out_of_range profile) _ _ _ s t refl)

  -- A key or certificate that is given as the hexadecimal text of its bytes has the same result, the
  -- same commands to the modem and the same effect as the bytes themselves, for every profile. It is for
  -- bytes below 256 of which the first is at least 16, at most 2048 of them, neither text
  -- nor PEM themselves, and memory for the converted bytes.
  pub provision-encode :
      (profile : ℤ) (storage : KeyStorage) (type : CertType) (volatile : Bool)
      → (add_key lib profile (some (encode (b ∷ bs))) storage s t
          ≡ add_key lib profile (some (b ∷ bs)) storage s t)
        × (add_certificate_impl lib profile type (some (encode (b ∷ bs))) volatile s t
            ≡ add_certificate_impl lib profile type (some (b ∷ bs)) volatile s t)
  provision-encode profile storage type volatile = (
    add_key-text profile storage ∙ sym (add_key-bytes profile storage),
    cert_text profile type volatile ∙ sym (cert_bytes profile type volatile),
  )
