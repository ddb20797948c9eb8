-- ===== src/Tls/Refusals.antt =====
-- What src/ST87M01_TlsProvisioning.cpp refuses before anything is sent to the modem.
use mbed_ce_st87m.Common.{
  ℕ, ◌≤◌, ◌<◌, ◌≡◌, refl, Bool, true, false, ◌&&◌, Option, none, some, List, ◌∷◌, ◌++◌, arith, ltb,
  ◌==◌, if◌then◌else◌, length, ℤ, pos, negsuc, Bool-cases, inl, inr,
}
use mbed_ce_st87m.At.{NsapiError, parameter, Action, Trace, pure, ◌>>=◌}
use mbed_ce_st87m.Codec.Hex.{is_hex_string}
use mbed_ce_st87m.Tls.{Library, KeyStorage, CertType, out_of_range, op_max_pem_size, upload}
use mbed_ce_st87m.Tls.Der.Modulus.{rsa_key, IsBefore, parse_rsa_modulus_bits-rsa_key}
use mbed_ce_st87m.Tls.Input.{looks_like_pem, cert_contents}
use mbed_ce_st87m.Tls.Keys.{generate_key, add_key, delete_key}
use mbed_ce_st87m.Tls.Certificates.{
  is_too_long, provision, add_certificate_impl, delete_certificate, delete_all_certificates,
}
use mbed_ce_st87m.Tls.Profiles.{check_profile}

-- The operations on one profile that return an error.
pub data ProfileOp : Type 0 where
  generate : ℤ → KeyStorage → Bool → Option ℕ → ProfileOp
  store_key : Option (List ℕ) → KeyStorage → ProfileOp
  remove_key remove_certificates : ProfileOp
  store_certificate : CertType → Option (List ℕ) → Bool → ProfileOp
  remove_certificate : CertType → ProfileOp
  check : Bool → Bool → ProfileOp

is_too_long-rsa_key :
    (lib : Library) (prefix : List ℕ) (a b c : ℕ) (cs rest : List ℕ)
    → 3 ≤ lib.word
    → IsBefore prefix (rsa_key a b c cs rest)
    → a < 65536
    → b < 65536
    → 0 < c
    → length (c ∷ cs) < 65535
    → 256 < length (c ∷ cs)
    → is_too_long lib (prefix ++ rsa_key a b c cs rest) ≡ true
unfolding is_too_long
is_too_long-rsa_key lib prefix a b c cs rest w before ha hb h fit long =
    rw
      (
        is_too_long,
        parse_rsa_modulus_bits-rsa_key lib.word lib.beyond w prefix a b c cs rest before ha hb h
            fit,
      )
      (ground (arith, long))

if_and_false {ℓ} : {A : Type ℓ} (b : Bool) (x y : A) → (if b && false then x else y) ≡ y
if_and_false true x y = refl
if_and_false false x y = refl

pub cert_contents-der :
    {S : Type 0} (lib : Library) (cert : List ℕ)
    → is_hex_string (some cert) ≡ false
    → looks_like_pem cert ≡ false
    → cert_contents {S = S} lib cert ≡ pure (upload cert)
unfolding cert_contents
cert_contents-der lib cert no_hex no_pem = rw (no_hex, no_pem) (if_and_false lib.support_pem _ _)

-- Both branches of a test end alike.
if_both :
    {S A : Type 0} (b : Bool) (x y : Action S A) (s : S) (t : Trace) (r : A × S × Trace)
    → x s t ≡ r
    → y s t ≡ r
    → (if b then x else y) s t ≡ r
if_both true x y s t r ex ey = ex
if_both false x y s t r ex ey = ey

outside-out_of_range : (k : ℤ) → ((n : ℕ) → n < 16 → ¬ (k ≡ pos n)) → out_of_range k ≡ true
unfolding out_of_range
outside-out_of_range (negsuc n) h = refl
outside-out_of_range (pos n) h = elim (Bool-cases (ltb n 16)) [
  | inl inside ↦ absurd (h n (ground arith) refl)
  | inr above ↦ rw above refl
]

module _ {S : Type 0} (lib : Library) where
  unfoldable pub perform : ProfileOp → ℤ → Action S NsapiError
  perform (generate key_size storage has_out capacity) profile = do
    (err, _) ← generate_key lib profile key_size storage has_out capacity
    pure err
  perform (store_key key storage) profile = add_key lib profile key storage
  perform remove_key profile = delete_key lib profile
  perform remove_certificates profile = delete_all_certificates lib profile
  perform (store_certificate type cert volatile) profile =
      add_certificate_impl lib profile type cert volatile
  perform (remove_certificate type) profile = delete_certificate lib profile type
  perform (check wants_key wants_cert) profile = do
    (err, _, _) ← check_profile lib profile wants_key wants_cert
    pure err

  perform-refused :
      (op : ProfileOp) (profile : ℤ) (s : S) (t : Trace)
      → out_of_range profile ≡ true
      → perform op profile s t ≡ (parameter, s, t)
  unfolding ◌>>=◌ perform generate_key add_key delete_key add_certificate_impl delete_certificate
      delete_all_certificates check_profile
  perform-refused (generate _ _ _ _) profile s t h = rw h refl
  perform-refused (store_key none _) profile s t h = refl
  perform-refused (store_key (some _) _) profile s t h = rw h refl
  perform-refused remove_key profile s t h = rw h refl
  perform-refused remove_certificates profile s t h = rw h refl
  perform-refused (store_certificate _ none _) profile s t h = refl
  perform-refused (store_certificate _ (some _) _) profile s t h = rw h refl
  perform-refused (remove_certificate _) profile s t h = rw h refl
  perform-refused (check _ _) profile s t h = rw h refl

  -- Generating, adding, deleting and checking keys and certificates for a profile that is none of
  -- 0 to 15 are parameter errors, whatever the other arguments are, and the modem is not sent
  -- anything.
  pub perform-out_of_range :
      (op : ProfileOp) (profile : ℤ) (s : S) (t : Trace)
      → ((n : ℕ) → n < 16 → ¬ (profile ≡ pos n))
      → perform op profile s t ≡ (parameter, s, t)
  perform-out_of_range op profile s t outside =
      perform-refused op profile s t (outside-out_of_range profile outside)

  provision-too_long :
      (profile : ℤ) (type : CertType) (volatile : Bool) (cert : List ℕ) (s : S) (t : Trace)
      → is_hex_string (some cert) ≡ false
      → looks_like_pem cert ≡ false
      → is_too_long lib cert ≡ true
      → add_certificate_impl lib profile type (some cert) volatile s t ≡ (parameter, s, t)
  unfolding ◌>>=◌ add_certificate_impl provision
  provision-too_long profile type volatile cert s t no_hex no_pem long =
      if_both (out_of_range profile) _ _ s t _ refl (
        if_both (length cert == 0) _ _ s t _ refl (
          if_both (ltb op_max_pem_size (length cert)) _ _ s t _ refl
            (rw (cert_contents-der lib cert no_hex no_pem) (rw long refl))))

  -- A certificate in DER whose first RSA key has a modulus of more than 256 bytes is a parameter error
  -- for any profile, either type and either storage, and nothing is sent: no key is generated or deleted. It is
  -- for lengths below 65536, a modulus whose first byte is not zero, data that is not taken for hexadecimal
  -- text or PEM, and a size_t of at least three bytes.
  pub add_certificate_impl-rsa_key :
      (profile : ℤ) (type : CertType) (volatile : Bool) (s : S) (t : Trace) (prefix : List ℕ)
      (a b c : ℕ) (cs rest : List ℕ)
      → 3 ≤ lib.word
      → IsBefore prefix (rsa_key a b c cs rest)
      → a < 65536
      → b < 65536
      → 0 < c
      → length (c ∷ cs) < 65535
      → 256 < length (c ∷ cs)
      → is_hex_string (some (prefix ++ rsa_key a b c cs rest)) ≡ false
      → looks_like_pem (prefix ++ rsa_key a b c cs rest) ≡ false
      → add_certificate_impl lib profile type (some (prefix ++ rsa_key a b c cs rest)) volatile s t
        ≡ (parameter, s, t)
  add_certificate_impl-rsa_key profile type volatile s t prefix a b c cs rest w before ha hb h fit
        long no_hex no_pem =
      provision-too_long profile type volatile _ s t no_hex no_pem
        (is_too_long-rsa_key lib prefix a b c cs rest w before ha hb h fit long)
