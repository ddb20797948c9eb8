-- ===== src/Tls/Der/Encoding.antt =====
-- Lengths in DER: the encoding that the standard asks for, and that read_der_len reads it back.
use native.Mathlib.Nat.{pow-le-pow_right, mod-eq_of_lt}
use mbed_ce_st87m.Common.{
  ℕ, ◌+◌, ◌*◌, ◌/◌, ◌%◌, ◌^◌, ◌≤◌, ◌<◌, ◌≡◌, refl, ap, ◌∙◌, some, List, [], ◌∷◌, ◌++◌, arith, ltb,
  if◌then◌else◌, Bool-cases, inl, inr,
}
use mbed_ce_st87m.Tls.Der.{big_endian, long_len, read_der_len}

-- The definite form for lengths below 65536.
abbrev pub der_len : ℕ → List ℕ
der_len n =
    if ltb n 128 then n ∷ [] else if ltb n 256 then 0x81 ∷ n ∷ [] else 0x82 ∷ n / 256 ∷ n % 256 ∷ []

word_size : (word : ℕ) → 2 ≤ word → 65536 ≤ 2 ^ (8 * word)
word_size word w = pow-le-pow_right {n = 2} (omega arith) {i = 16} (omega arith)

big_endian_two :
    (word hi lo : ℕ)
    → 2 ≤ word
    → hi < 256
    → lo < 256
    → big_endian word (hi ∷ lo ∷ []) 0 ≡ hi * 256 + lo
unfolding big_endian
big_endian_two word hi lo w h l =
    let size = word_size word w in
    let first : (0 * 256 + hi) % 2 ^ (8 * word) ≡ hi =
      mod-eq_of_lt (omega (arith, size)) ∙ omega arith in
    rw first (mod-eq_of_lt (omega (arith, size)))

big_endian_one : (word b : ℕ) → 2 ≤ word → b < 256 → big_endian word (b ∷ []) 0 ≡ b
unfolding big_endian
big_endian_one word b w h = mod-eq_of_lt (omega (arith, word_size word w)) ∙ omega arith

long_len_two :
    (word hi lo : ℕ) (p : List ℕ)
    → 2 ≤ word
    → hi < 256
    → lo < 256
    → long_len word 2 (hi ∷ lo ∷ p) ≡ some (hi * 256 + lo, p)
unfolding long_len
long_len_two word hi lo p w h l = ground (arith, big_endian_two word hi lo w h l)

long_len_one :
    (word b : ℕ) (p : List ℕ) → 2 ≤ word → b < 256 → long_len word 1 (b ∷ p) ≡ some (b, p)
unfolding long_len
long_len_one word b p w h = ground (arith, big_endian_one word b w h)

-- A size_t of at least two bytes reads back every such length, and stops behind it.
pub read_der_len-der_len :
    (word n : ℕ) (p : List ℕ)
    → 2 ≤ word
    → n < 65536
    → read_der_len word (der_len n ++ p) ≡ some (n, p)
unfolding read_der_len
read_der_len-der_len word n p w h = elim (Bool-cases (ltb n 128)) [
  | inl short ↦ rw (short, short) refl
  | inr long ↦ elim (Bool-cases (ltb n 256)) [
    | inl one ↦ rw (long, one) (long_len_one word n p w (ground arith))
    | inr two ↦
        rw (long, two)
          (long_len_two word (n / 256) (n % 256) p w (omega arith) (omega arith)
            ∙ ap (λ k. some (k, p)) (omega arith))
  ]
]
