-- ===== src/Codec/Hex.antt =====
-- Hexadecimal text: the encoding of payloads, convert_hex_to_bin and is_hex_string.
pub mod Digits
pub mod RoundTrip
use Prim.Native.Nat.{bit_or}
use mbed_ce_st87m.Common.{
  ℕ, ◌+◌, ◌-◌, ◌*◌, ◌/◌, ◌%◌, Bool, true, false, not, ◌&&◌, ◌||◌, Option, none, some, List, [], ◌∷◌,
  ltb, leb, ◌==◌, if◌then◌else◌, length, get_or,
}

-- "0123456789ABCDEF"
abbrev pub hex_chars : List ℕ
hex_chars =
    b'0' ∷ b'1' ∷ b'2' ∷ b'3' ∷ b'4' ∷ b'5' ∷ b'6' ∷ b'7' ∷ b'8' ∷ b'9' ∷ b'A' ∷ b'B' ∷ b'C' ∷ b'D'
    ∷ b'E' ∷ b'F' ∷ []

-- hex_chars[(b >> 4) & 0x0F] and hex_chars[b & 0x0F]
unfoldable pub high_char : ℕ → ℕ
high_char b = get_or hex_chars (b / 16 % 16) 0

unfoldable pub low_char : ℕ → ℕ
low_char b = get_or hex_chars (b % 16) 0

-- The text that a buffer of bytes is sent as.
unfoldable pub encode : List ℕ → List ℕ
encode [] = []
encode (b ∷ bs) = high_char b ∷ low_char b ∷ encode bs

-- c == '\r' || c == '\n' || c == '.' || c == ' '
unfoldable pub is_separator : ℕ → Bool
is_separator c = c == 13 || c == 10 || c == b'.' || c == b' '

-- isxdigit(c), and the same test spelled out in is_hex_string
unfoldable pub is_hex_digit : ℕ → Bool
is_hex_digit c = leb b'0' c && leb c b'9' || leb b'a' c && leb c b'f' || leb b'A' c && leb c b'F'

unfoldable pub digit_value : ℕ → ℕ
digit_value c =
    if leb b'0' c && leb c b'9'
    then c - b'0'
    else if leb b'a' c && leb c b'f'
    then c - b'a' + 10
    else if leb b'A' c && leb c b'F'
    then c - b'A' + 10
    else 0

-- The first loop of convert_hex_to_bin; `none` is its `return 0`.
unfoldable pub count_digits : List ℕ → ℕ → Option ℕ
unfolding is_separator is_hex_digit
count_digits [] n = some n
count_digits (c ∷ cs) n =
    let skipped = count_digits cs n in
    let counted = count_digits cs (n + 1) in
    if is_separator c then skipped else if not (is_hex_digit c) then none else counted

-- The second loop. `out` is what has been written, the last byte first.
unfoldable pub convert_digits : List ℕ → Bool → ℕ → List ℕ → List ℕ
unfolding is_separator digit_value
convert_digits [] high_nibble byte_val out = out
convert_digits (c ∷ cs) high_nibble byte_val out =
    let skipped = convert_digits cs high_nibble byte_val out in
    let val = digit_value c in
    let after_high = convert_digits cs false (val * 16 % 256) out in
    let after_low = convert_digits cs true (bit_or byte_val val) (bit_or byte_val val ∷ out) in
    if is_separator c then skipped else if high_nibble then after_high else after_low

unfoldable pub reverse_onto : List ℕ → List ℕ → List ℕ
reverse_onto [] ys = ys
reverse_onto (x ∷ xs) ys = reverse_onto xs (x ∷ ys)

-- convert_hex_to_bin: the bytes written to `out`; the C++ result is their number. `hex` is none
-- for a null pointer, and `has_out` says that `out` is not null.
unfoldable pub convert_hex_to_bin : Option (List ℕ) → Bool → ℕ → List ℕ
unfolding count_digits convert_digits reverse_onto
convert_hex_to_bin none has_out out_max = []
convert_hex_to_bin (some hex) has_out out_max =
    if not has_out || out_max == 0 then [] else elim (count_digits hex 0) [
      | none ↦ []
      | some n ↦
          if not (n % 2 == 0) || ltb out_max (n / 2)
          then []
          else reverse_onto (convert_digits hex true 0 []) []
    ]

-- data[0] == 0x30
abbrev starts_with_sequence_tag : List ℕ → Bool
starts_with_sequence_tag cs = get_or cs 0 0 == 0x30

-- memcmp(data, "-----", 5) == 0
unfoldable pub starts_with : List ℕ → List ℕ → Bool
starts_with [] cs = true
starts_with (p ∷ ps) [] = false
starts_with (p ∷ ps) (c ∷ cs) = p == c && starts_with ps cs

abbrev pub five_dashes : List ℕ
five_dashes = b'-' ∷ b'-' ∷ b'-' ∷ b'-' ∷ b'-' ∷ []

-- is_hex_string
unfoldable pub is_hex_string : Option (List ℕ) → Bool
is_hex_string none = false
is_hex_string (some cs) =
    if ltb (length cs) 2
    then false
    else if starts_with_sequence_tag cs
    then false
    else if leb 5 (length cs) && starts_with five_dashes cs
    then false
    else elim (count_digits cs 0) [ none ↦ false | some n ↦ leb 2 n && (n % 2 == 0) ]
