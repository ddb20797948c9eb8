-- ===== src/Device/Scan.antt =====
-- sscanf(text, "%d,%d", ...) as configure of src/ST87M01.cpp uses it.
use mbed_ce_st87m.Common.{
  ℕ, zero, suc, ◌+◌, ◌-◌, ◌*◌, Bool, ◌&&◌, Option, none, some, List, [], ◌∷◌, leb, ◌==◌,
  if◌then◌else◌, ℤ, pos, negsuc, minus_one,
}
use mbed_ce_st87m.Codec.Decode.{is_space}

abbrev pub is_digit : ℕ → Bool
is_digit c = leb b'0' c && leb c b'9'

-- The digits that follow, and what is behind them.
unfoldable pub scan_digits : ℕ → List ℕ → ℕ × List ℕ
scan_digits value [] = (value, [])
scan_digits value (c ∷ cs) =
    let rest = scan_digits (value * 10 + (c - b'0')) cs in
    if is_digit c then rest else (value, c ∷ cs)

-- At least one digit.
unfoldable pub scan_natural : List ℕ → Option (ℕ × List ℕ)
unfolding scan_digits
scan_natural [] = none
scan_natural (c ∷ cs) = if is_digit c then some (scan_digits 0 (c ∷ cs)) else none

abbrev pub negated : ℕ → ℤ
negated zero = pos 0
negated (suc n) = negsuc n

unfoldable pub positive_number : Option (ℕ × List ℕ) → Option (ℤ × List ℕ)
positive_number none = none
positive_number (some (n, rest)) = some (pos n, rest)

unfoldable pub negative_number : Option (ℕ × List ℕ) → Option (ℤ × List ℕ)
negative_number none = none
negative_number (some (n, rest)) = some (negated n, rest)

-- %d: spaces, a sign, digits
unfoldable pub scan_int : List ℕ → Option (ℤ × List ℕ)
unfolding scan_natural positive_number negative_number
scan_int [] = none
scan_int (c ∷ cs) =
    let rest = scan_int cs in
    if is_space c
    then rest
    else if c == b'-'
    then negative_number (scan_natural cs)
    else if c == b'+'
    then positive_number (scan_natural cs)
    else positive_number (scan_natural (c ∷ cs))

-- A number that is not read keeps the -1 that it was set to.
unfoldable pub second_number : List ℕ → ℤ
unfolding scan_int
second_number [] = minus_one
second_number (c ∷ cs) =
    if c == b',' then (elim (scan_int cs) [ none ↦ minus_one | some n ↦ n.0 ]) else minus_one

unfoldable pub scan_two : List ℕ → ℤ × ℤ
unfolding second_number
scan_two text = elim (scan_int text) [
  | none ↦ (minus_one, minus_one)
  | some n ↦ (n.0, second_number n.1)
]
