-- ===== src/Tls/Der.antt =====
-- read_der_len and parse_rsa_modulus_bits of src/ST87M01_TlsProvisioning.cpp. A pointer into a
-- buffer is what is left of the buffer from there on.
pub mod Encoding
pub mod Modulus
use mbed_ce_st87m.Common.{
  ℕ, zero, suc, ◌+◌, ◌-◌, ◌*◌, ◌%◌, ◌^◌, Bool, true, false, not, ◌&&◌, ◌||◌, Option, none, some,
  List, [], ◌∷◌, ltb, leb, ◌==◌, if◌then◌else◌, length, take, drop,
}
use mbed_ce_st87m.Codec.Hex.{starts_with}

-- An early `return false` ends the rest.
infixl 5 ◌>>=◌
abbrev pub ◌>>=◌ : {A B : Type 0} → Option A → (A → Option B) → Option B
none >>= f = none
some a >>= f = f a

-- The loop `*out = (*out << 8) | *p++` in a size_t of `word` bytes; the low byte is clear after
-- the shift, so the bitwise or is a sum.
unfoldable pub big_endian : ℕ → List ℕ → ℕ → ℕ
big_endian word [] out = out
big_endian word (b ∷ bs) out = big_endian word bs ((out * 256 + b) % 2 ^ (8 * word))

unfoldable pub long_len : ℕ → ℕ → List ℕ → Option (ℕ × List ℕ)
unfolding big_endian
long_len word nbytes p =
    if nbytes == 0 || ltb word nbytes || ltb (length p) nbytes
    then none
    else some (big_endian word (take nbytes p) 0, drop nbytes p)

-- read_der_len: the length, and what is behind it.
unfoldable pub read_der_len : ℕ → List ℕ → Option (ℕ × List ℕ)
unfolding long_len
read_der_len word [] = none
read_der_len word (b ∷ p) = if ltb b 128 then some (b, p) else long_len word (b % 128) p

-- oid_rsa
abbrev pub oid_rsa : List ℕ
oid_rsa = 0x06 ∷ 0x09 ∷ 0x2A ∷ 0x86 ∷ 0x48 ∷ 0x86 ∷ 0xF7 ∷ 0x0D ∷ 0x01 ∷ 0x01 ∷ 0x01 ∷ []

-- The first byte behind the buffer is `beyond`.
abbrev pub first_or : ℕ → List ℕ → ℕ
first_or beyond [] = beyond
first_or beyond (c ∷ cs) = c

-- *mod_bits = mlen * 8, after a leading zero byte is left out.
unfoldable pub modulus_bits : ℕ → ℕ → ℕ → List ℕ → ℕ
modulus_bits word beyond mlen p =
    if ltb 0 mlen && first_or beyond p == 0
    then (mlen - 1) * 8 % 2 ^ (8 * word)
    else mlen * 8 % 2 ^ (8 * word)

-- One tag and the length behind it, which is not used.
abbrev pub behind_tag : ℕ → ℕ → List ℕ → Option (ℕ × List ℕ)
behind_tag word tag [] = none
behind_tag word tag (c ∷ p) = if c == tag then read_der_len word p else none

-- while (p < end && *p != 0x03)
unfoldable pub find_bit_string : List ℕ → Option (List ℕ)
find_bit_string [] = none
find_bit_string (c ∷ p) = let rest = find_bit_string p in if c == 0x03 then some p else rest

-- The byte of unused bits behind the length of the bit string.
abbrev pub skip_byte : List ℕ → Option (List ℕ)
skip_byte [] = none
skip_byte (c ∷ p) = some p

abbrev pub skip_null : List ℕ → List ℕ
skip_null (c ∷ d ∷ p) = if c == 0x05 && d == 0x00 then p else c ∷ d ∷ p
skip_null p = p

module _ (word beyond : ℕ) where
  unfoldable pub read_modulus : List ℕ → Option ℕ
  unfolding modulus_bits
  read_modulus p = do
    (_, sequence) ← behind_tag word 0x30 p
    (mlen, modulus) ← behind_tag word 0x02 sequence
    some (modulus_bits word beyond mlen modulus)

  -- What follows the object identifier.
  unfoldable pub read_key : List ℕ → Option ℕ
  unfolding find_bit_string read_modulus
  read_key p = do
    bits ← find_bit_string (skip_null p)
    (_, contents) ← read_der_len word bits
    key ← skip_byte contents
    read_modulus key

  -- parse_rsa_modulus_bits: none for false.
  unfoldable pub parse_rsa_modulus_bits : List ℕ → Option ℕ
  unfolding starts_with
  parse_rsa_modulus_bits [] = none
  parse_rsa_modulus_bits (c ∷ p) =
      let rest = parse_rsa_modulus_bits p in
      if not (c == 0x06)
      then rest
      else if ltb (length (c ∷ p)) 11
      then none
      else if starts_with oid_rsa (c ∷ p)
      then read_key (drop 10 p)
      else rest
