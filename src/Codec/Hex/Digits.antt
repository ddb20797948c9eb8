-- ===== src/Codec/Hex/Digits.antt =====
-- What convert_hex_to_bin computes, as the digits of the text taken in pairs.
use Prim.Native.Nat.{bit_or}
use mbed_ce_st87m.Common.{
  ℕ, ◌+◌, ◌*◌, ◌/◌, ◌%◌, ◌≤◌, ◌<◌, ◌≡◌, refl, ap, ◌∙◌, Bool, true, false, ◌&&◌, ◌||◌, none, some,
  List, [], ◌∷◌, inl, inr, arith, ltb, leb, ◌==◌, ==_iff, if◌then◌else◌, length, Bool-cases,
  all_below, all_below_sound,
}
use mbed_ce_st87m.Codec.Hex.{
  is_separator, is_hex_digit, digit_value, count_digits, convert_digits, reverse_onto,
  convert_hex_to_bin,
}

-- Every character is a hex digit or a separator.
unfoldable pub is_hex_text : List ℕ → Bool
is_hex_text [] = true
is_hex_text (c ∷ cs) = (is_separator c || is_hex_digit c) && is_hex_text cs

-- The values of the characters that are no separators.
unfoldable pub hex_digits : List ℕ → List ℕ
hex_digits [] = []
hex_digits (c ∷ cs) =
    let rest = hex_digits cs in if is_separator c then rest else digit_value c ∷ rest

-- Two digits make a byte; a digit left over is dropped.
unfoldable pub pairs : List ℕ → List ℕ
pairs [] = []
pairs (h ∷ []) = []
pairs (h ∷ l ∷ ds) = (h * 16 + l) ∷ pairs ds

pub length-pairs : (ds : List ℕ) → length (pairs ds) ≡ length ds / 2
unfolding pairs
length-pairs [] = refl
length-pairs (h ∷ []) = omega arith
length-pairs (h ∷ l ∷ ds) = omega (arith, length-pairs ds)

pub digit_value-lt : (c : ℕ) → digit_value c < 16
unfolding digit_value
digit_value-lt c = ground arith

bit_or_table : all_below 256 (λ n. bit_or (n / 16 * 16) (n % 16) == n) ≡ true
unfolding all_below
bit_or_table = refl

-- `byte_val |= val` puts a digit below a shifted digit.
bit_or-nibbles : (h l : ℕ) → h < 16 → l < 16 → bit_or (h * 16 % 256) l ≡ h * 16 + l
bit_or-nibbles h l p q =
    let e : h * 16 % 256 ≡ (h * 16 + l) / 16 * 16 = omega arith in
    let f : l ≡ (h * 16 + l) % 16 = omega arith in
    ap (bit_or (h * 16 % 256)) f
    ∙ ap (λ x. bit_or x ((h * 16 + l) % 16)) e
    ∙ (==_iff _ _).0 (all_below_sound 256 _ (h * 16 + l) bit_or_table (omega arith))

pub length-hex_digits : (cs : List ℕ) → length (hex_digits cs) ≤ length cs
unfolding hex_digits
length-hex_digits [] = omega arith
length-hex_digits (c ∷ cs) = ground (arith, length-hex_digits cs)

pub count_digits-eq :
    (cs : List ℕ) (n : ℕ)
    → count_digits cs n ≡ (if is_hex_text cs then some (n + length (hex_digits cs)) else none)
unfolding count_digits is_hex_text hex_digits
count_digits-eq [] n = ground arith
count_digits-eq (c ∷ cs) n = ground (arith, count_digits-eq cs n, count_digits-eq cs (n + 1))

convert_both :
    (cs : List ℕ) (v h : ℕ) (out : List ℕ)
    → h < 16
    → (convert_digits cs true v out ≡ reverse_onto (pairs (hex_digits cs)) out)
      × (convert_digits cs false (h * 16 % 256) out ≡ reverse_onto (pairs (h ∷ hex_digits cs)) out)
unfolding convert_digits hex_digits pairs reverse_onto
convert_both [] v h out p = (refl, refl)
convert_both (c ∷ cs) v h out p = elim (Bool-cases (is_separator c)) [
  | inl e ↦ rw e (convert_both cs v h out p)
  | inr e ↦ rw e (
    (convert_both cs v (digit_value c) out (digit_value-lt c)).1,
    rw (bit_or-nibbles h (digit_value c) p (digit_value-lt c))
        (convert_both cs (h * 16 + digit_value c) h ((h * 16 + digit_value c) ∷ out) p).0,
  )
]

reverse_onto-reverse_onto :
    (xs ys : List ℕ) → reverse_onto (reverse_onto xs ys) [] ≡ reverse_onto ys xs
unfolding reverse_onto
reverse_onto-reverse_onto [] ys = refl
reverse_onto-reverse_onto (x ∷ xs) ys = reverse_onto-reverse_onto xs (x ∷ ys)

convert_digits-eq-pairs :
    (cs : List ℕ) → reverse_onto (convert_digits cs true 0 []) [] ≡ pairs (hex_digits cs)
unfolding reverse_onto
convert_digits-eq-pairs cs =
    rw (convert_both cs 0 0 [] (omega arith)).0
      (reverse_onto-reverse_onto (pairs (hex_digits cs)) [])

-- The text is hex digits and separators, the digits come in pairs, and the buffer has the room.
unfoldable pub fits : List ℕ → ℕ → Bool
fits cs out_max =
    ltb 0 out_max
    && is_hex_text cs
    && (length (hex_digits cs) % 2 == 0)
    && leb (length (hex_digits cs) / 2) out_max

pub convert_hex_to_bin_lem :
    (cs : List ℕ) (out_max : ℕ)
    → convert_hex_to_bin (some cs) true out_max
      ≡ (if fits cs out_max then pairs (hex_digits cs) else [])
unfolding convert_hex_to_bin fits
convert_hex_to_bin_lem cs out_max = ground (arith, count_digits-eq cs 0, convert_digits-eq-pairs cs)

-- The number of bytes that convert_hex_to_bin writes is at most the size of the buffer, and at most
-- half the length of the text, whatever its arguments are.
pub convert_hex_to_bin_bounds :
    (cs : List ℕ) (has_out : Bool) (out_max : ℕ)
    → (length (convert_hex_to_bin (some cs) has_out out_max) ≤ out_max)
      × (length (convert_hex_to_bin (some cs) has_out out_max) * 2 ≤ length cs)
unfolding convert_hex_to_bin
convert_hex_to_bin_bounds cs false out_max = omega arith
convert_hex_to_bin_bounds cs true out_max = ground (
  arith,
  count_digits-eq cs 0,
  convert_digits-eq-pairs cs,
  length-pairs (hex_digits cs),
  length-hex_digits cs,
)
