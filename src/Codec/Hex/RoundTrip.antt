-- ===== src/Codec/Hex/RoundTrip.antt =====
-- The text that payloads are sent as reads back as the payload, and what is_hex_string accepts is
-- converted: the driver's `bin_len == 0` error after that test is never taken.
use mbed_ce_st87m.Common.{
  ℕ, ◌+◌, ◌*◌, ◌/◌, ◌%◌, ◌≤◌, ◌<◌, ◌≡◌, refl, Bool, true, false, ◌&&◌, some, List, [], ◌∷◌, arith,
  ◌==◌, ==_iff, if◌then◌else◌, length, all_below, all_below_sound, All,
}
use mbed_ce_st87m.Codec.Hex.{
  high_char, low_char, encode, is_separator, is_hex_digit, digit_value, convert_hex_to_bin,
  is_hex_string,
}
use mbed_ce_st87m.Codec.Hex.Digits.{
  is_hex_text, hex_digits, pairs, length-pairs, length-hex_digits, fits, count_digits-eq,
  convert_hex_to_bin_lem,
}

abbrev pub IsByte : ℕ → Type 0
IsByte b = b < 256

-- Both characters of a byte are digits, no separators, with the values of its two halves.
is_code_of : ℕ → ℕ → Bool
is_code_of c v = is_hex_digit c && (if is_separator c then false else digit_value c == v)

code_table :
    all_below 256 (λ b. is_code_of (high_char b) (b / 16) && is_code_of (low_char b) (b % 16))
    ≡ true
unfolding all_below is_code_of is_hex_digit is_separator digit_value high_char low_char
code_table = refl

record IsCodeOf (c v : ℕ) : Type 0 where
  digit : is_hex_digit c ≡ true
  plain : is_separator c ≡ false
  value : digit_value c ≡ v

is_code_of_sound : (c v : ℕ) → is_code_of c v ≡ true → IsCodeOf c v
unfolding is_code_of
is_code_of_sound c v h = record { digit = ground arith; plain = ground arith; value = ground arith }

code_of : (b : ℕ) → IsByte b → IsCodeOf (high_char b) (b / 16) × IsCodeOf (low_char b) (b % 16)
code_of b h =
    let e = all_below_sound 256 _ b code_table h in
    (is_code_of_sound _ _ (ground arith), is_code_of_sound _ _ (ground arith))

pub encode_reads :
    (bs : List ℕ)
    → All IsByte bs
    → (is_hex_text (encode bs) ≡ true)
      × (pairs (hex_digits (encode bs)) ≡ bs)
      × (length (hex_digits (encode bs)) ≡ length bs * 2)
unfolding encode is_hex_text hex_digits pairs
encode_reads [] h = (refl, refl, refl)
encode_reads (b ∷ bs) h = ground (arith, code_of b h.0, encode_reads bs h.1)

-- A list of bytes, encoded for the wire, is what convert_hex_to_bin gives back, if the output buffer,
-- not empty, has the room.
pub convert_hex_to_bin-encode :
    (bs : List ℕ) (out_max : ℕ)
    → All IsByte bs
    → 0 < out_max
    → length bs ≤ out_max
    → convert_hex_to_bin (some (encode bs)) true out_max ≡ bs
unfolding fits
convert_hex_to_bin-encode bs out_max h room long =
    rw convert_hex_to_bin_lem (ground (arith, encode_reads bs h))

record HasDigits (cs : List ℕ) : Type 0 where
  text : is_hex_text cs ≡ true
  some_digits : 2 ≤ length (hex_digits cs)
  even : (length (hex_digits cs) % 2 == 0) ≡ true

is_hex_string-HasDigits : (cs : List ℕ) → is_hex_string (some cs) ≡ true → HasDigits cs
unfolding is_hex_string
is_hex_string-HasDigits cs h =
    let e = count_digits-eq cs 0 in
    record { text = ground arith; some_digits = ground arith; even = ground arith }

is_hex_string-fits :
    (cs : List ℕ) → is_hex_string (some cs) ≡ true → fits cs (length cs / 2 + 1) ≡ true
unfolding fits
is_hex_string-fits cs h =
    let d = is_hex_string-HasDigits cs h in
    let bound : length (hex_digits cs) / 2 ≤ length cs / 2 + 1 =
      omega (arith, length-hex_digits cs) in
    ground (arith, d.text, d.even, bound)

-- Whatever is_hex_string accepts, convert_hex_to_bin converts in the buffer that add_key and
-- add_certificate_impl allocate for it: it yields at least one byte, and one for each two digits.
pub is_hex_string_converts :
    (cs : List ℕ)
    → is_hex_string (some cs) ≡ true
    → let bytes = convert_hex_to_bin (some cs) true (length cs / 2 + 1) in
      (0 < length bytes) × (length bytes * 2 ≡ length (hex_digits cs))
is_hex_string_converts cs h =
    let d = is_hex_string-HasDigits cs h in
    rw (convert_hex_to_bin_lem, is_hex_string-fits cs h)
      (
        omega (arith, length-pairs (hex_digits cs), d.some_digits),
        omega (arith, length-pairs (hex_digits cs), (==_iff _ _).0 d.even),
      )
