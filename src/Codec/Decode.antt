-- ===== src/Codec/Decode.antt =====
-- hex_decode of src/ST87M01.cpp, which leaves the digits to strtol, and that it agrees with the other
-- decoder of the driver on text that holds only digits.
use mbed_ce_st87m.Common.{
  ℕ, ◌+◌, ◌-◌, ◌*◌, ◌/◌, ◌%◌, Bool, true, not, ◌&&◌, ◌||◌, List, [], ◌∷◌, ltb, leb, ◌==◌,
  if◌then◌else◌, length,
}
use mbed_ce_st87m.Codec.Hex.{is_hex_digit, digit_value}

-- isspace(c)
unfoldable pub is_space : ℕ → Bool
is_space c = c == b' ' || leb 9 c && leb c 13

-- The digits up to the first character that is none.
unfoldable pub digits_from : List ℕ → ℕ → ℕ
digits_from [] value = value
digits_from (c ∷ cs) value =
    let rest = digits_from cs (value * 16 + digit_value c) in if is_hex_digit c then rest else value

-- A sign, and the value as a uint8_t. The prefix "0x" has no digits behind it in two characters, and
-- is read as the digit 0.
unfoldable pub signed_byte : List ℕ → ℕ
unfolding digits_from
signed_byte [] = 0
signed_byte (c ∷ cs) =
    if c == b'-'
    then (256 - digits_from cs 0 % 256) % 256
    else if c == b'+'
    then digits_from cs 0 % 256
    else digits_from (c ∷ cs) 0 % 256

-- (uint8_t)strtol(byte_str, nullptr, 16)
unfoldable pub strtol_byte : List ℕ → ℕ
unfolding signed_byte is_space
strtol_byte [] = 0
strtol_byte (c ∷ cs) =
    let rest = strtol_byte cs in if is_space c then rest else signed_byte (c ∷ cs)

unfoldable pub decode_pairs : List ℕ → List ℕ
unfolding strtol_byte
decode_pairs [] = []
decode_pairs (h ∷ []) = []
decode_pairs (h ∷ l ∷ cs) = strtol_byte (h ∷ l ∷ []) ∷ decode_pairs cs

-- hex_decode: the bytes that are written; the C++ result is their number.
unfoldable pub hex_decode : List ℕ → ℕ → List ℕ
unfolding decode_pairs
hex_decode hex out_max =
    if not (length hex % 2 == 0) || ltb out_max (length hex / 2) then [] else decode_pairs hex

-- Every character is a hex digit.
unfoldable pub all_digits : List ℕ → Bool
all_digits [] = true
all_digits (c ∷ cs) = is_hex_digit c && all_digits cs
