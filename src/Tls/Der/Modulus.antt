-- ===== src/Tls/Der/Modulus.antt =====
-- parse_rsa_modulus_bits finds the size of an RSA key that is written as the standards ask for.
use native.Mathlib.Nat.{pow-le-pow_right, mod-eq_of_lt}
use mbed_ce_st87m.Common.{
  ℕ, suc, ◌-◌, ◌*◌, ◌%◌, ◌^◌, ◌≤◌, ◌<◌, ◌≡◌, ap, ◌∙◌, false, some, List, [], ◌∷◌, ◌++◌, arith, ltb,
  ◌==◌, if◌then◌else◌, length, drop, length-append, Bool-cases, inl, inr,
}
use mbed_ce_st87m.Codec.Hex.{starts_with}
use mbed_ce_st87m.Tls.Der.{
  oid_rsa, modulus_bits, find_bit_string, read_modulus, read_key, parse_rsa_modulus_bits,
}
use mbed_ce_st87m.Tls.Der.Encoding.{der_len, read_der_len-der_len}

-- The bytes of a number, the highest first, as a DER INTEGER's contents: a zero byte goes before a
-- byte of 128 or more.
abbrev pub integer_bytes : ℕ → List ℕ → List ℕ
integer_bytes c cs = if ltb c 128 then c ∷ cs else 0 ∷ c ∷ cs

-- An RSA public key from its object identifier on: the modulus has the bytes `c ∷ cs`, `a` and `b`
-- are the lengths of the bit string and of the sequence around it, and `rest` is what follows.
abbrev pub rsa_key : ℕ → ℕ → ℕ → List ℕ → List ℕ → List ℕ
rsa_key a b c cs rest =
    oid_rsa
    ++ (0x05
        ∷ 0x00
        ∷ 0x03
        ∷ (der_len a
            ++ (0x00
                ∷ 0x30
                ∷ (der_len b
                    ++ (0x02
                        ∷ (der_len (length (integer_bytes c cs))
                            ++ (integer_bytes c cs ++ rest)))))))

-- The identifier does not start anywhere before `tail`.
abbrev pub IsBefore : List ℕ → List ℕ → Type 0
IsBefore [] tail = Unit
IsBefore (x ∷ xs) tail = (starts_with oid_rsa (x ∷ (xs ++ tail)) ≡ false) × IsBefore xs tail

enough_left : (tail : List ℕ) → ltb (length (oid_rsa ++ tail)) 11 ≡ false
enough_left tail = ground arith

enough_behind : (x : ℕ) (xs tail : List ℕ) → ltb (length (x ∷ (xs ++ (oid_rsa ++ tail)))) 11 ≡ false
enough_behind x xs tail = ground (arith, length-append xs (oid_rsa ++ tail))

word_size : (word : ℕ) → 3 ≤ word → 2 ^ 24 ≤ 2 ^ (8 * word)
word_size word w = pow-le-pow_right {n = 2} (omega arith) {i = 24} (omega arith)

module _ (word beyond : ℕ) (w : 3 ≤ word) where
  -- The leading zero does not count, and nothing wraps.
  modulus_bits-integer :
      (c : ℕ) (cs rest : List ℕ)
      → 0 < c
      → length (c ∷ cs) < 65535
      → modulus_bits word beyond (length (integer_bytes c cs)) (integer_bytes c cs ++ rest)
        ≡ length (c ∷ cs) * 8
  unfolding modulus_bits
  modulus_bits-integer c cs rest h fit =
      let size = word_size word w in
      let whole : suc (length cs) * 8 % 2 ^ (8 * word) ≡ suc (length cs) * 8 =
        mod-eq_of_lt (omega (arith, size)) in
      let shortened : (suc (suc (length cs)) - 1) * 8 % 2 ^ (8 * word) ≡ suc (length cs) * 8 =
        mod-eq_of_lt (omega (arith, size)) ∙ omega arith in
      elim (Bool-cases (ltb c 128)) [
        | inl low ↦ rw low (ground (arith, whole))
        | inr high ↦ rw high (ground (arith, shortened))
      ]

  read_modulus-integer :
      (b c : ℕ) (cs rest : List ℕ)
      → b < 65536
      → 0 < c
      → length (c ∷ cs) < 65535
      → read_modulus word beyond (
          0x30
          ∷ (der_len b
              ++ (0x02 ∷ (der_len (length (integer_bytes c cs)) ++ (integer_bytes c cs ++ rest)))))
        ≡ some (length (c ∷ cs) * 8)
  unfolding read_modulus
  read_modulus-integer b c cs rest hb h fit =
      rw
        (
          read_der_len-der_len word b _ (omega (arith, w)) hb,
          read_der_len-der_len word (length (integer_bytes c cs)) _ (omega (arith, w))
              (long c cs fit),
        )
        (ap some (modulus_bits-integer c cs rest h fit))
    where
      long :
          (c' : ℕ) (cs' : List ℕ)
          → length (c' ∷ cs') < 65535
          → length (integer_bytes c' cs') < 65536
      long c' cs' h' = elim (Bool-cases (ltb c' 128)) [
        | inl low ↦ rw low (omega arith)
        | inr high ↦ rw high (omega arith)
      ]

  read_key-rsa_key :
      (a b c : ℕ) (cs rest : List ℕ)
      → a < 65536
      → b < 65536
      → 0 < c
      → length (c ∷ cs) < 65535
      → read_key word beyond (drop 11 (rsa_key a b c cs rest)) ≡ some (length (c ∷ cs) * 8)
  unfolding read_key find_bit_string
  read_key-rsa_key a b c cs rest ha hb h fit =
      rw (read_der_len-der_len word a _ (omega (arith, w)) ha)
        (read_modulus-integer b c cs rest hb h fit)

  -- A certificate or key that is written in DER, with an RSA key behind the first occurrence of the
  -- RSA object identifier, is found to have as many bits as its modulus has bytes, times eight: the
  -- zero byte before a high first byte is not counted, and nothing wraps. It is for lengths
  -- below 65536, a modulus with a first byte that is not zero, and a size_t of at least three bytes.
  pub parse_rsa_modulus_bits-rsa_key :
      (prefix : List ℕ) (a b c : ℕ) (cs rest : List ℕ)
      → IsBefore prefix (rsa_key a b c cs rest)
      → a < 65536
      → b < 65536
      → 0 < c
      → length (c ∷ cs) < 65535
      → parse_rsa_modulus_bits word beyond (prefix ++ rsa_key a b c cs rest)
        ≡ some (length (c ∷ cs) * 8)
  unfolding parse_rsa_modulus_bits
  parse_rsa_modulus_bits-rsa_key [] a b c cs rest before ha hb h fit =
      rw (enough_left (0x05 ∷ drop 12 (rsa_key a b c cs rest)))
        (read_key-rsa_key a b c cs rest ha hb h fit)
  parse_rsa_modulus_bits-rsa_key (x ∷ xs) a b c cs rest before ha hb h fit =
      elim (Bool-cases (x == 0x06)) [
        | inl is_tag ↦ rw is_tag (
            rw (before.0) (
              rw (enough_behind x xs (drop 11 (rsa_key a b c cs rest)))
                (parse_rsa_modulus_bits-rsa_key xs a b c cs rest before.1 ha hb h fit)))
        | inr other ↦
            rw other (parse_rsa_modulus_bits-rsa_key xs a b c cs rest before.1 ha hb h fit)
      ]
