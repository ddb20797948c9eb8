-- ===== src/Context/Choice.antt =====
-- PDP types and the ranking of contexts in select_existing_cid.
use mbed_ce_st87m.Common.{
  ℕ, ◌+◌, Bool, true, false, ◌&&◌, ◌||◌, Option, none, some, List, [], ◌∷◌, ltb, leb, ◌==◌,
  if◌then◌else◌, ℤ, pos, minus_one, ◌==ℤ◌, below,
}

-- pdp_type_t
pub data PdpType : Type 0 where
  ipv4_pdp ipv6_pdp ipv4v6_pdp non_ip_pdp : PdpType

-- strcmp(a, b) == 0
unfoldable pub same_text : List ℕ → List ℕ → Bool
same_text [] [] = true
same_text (a ∷ xs) (b ∷ ys) = (a == b) && same_text xs ys
same_text _ _ = false

abbrev pub lower : ℕ → ℕ
lower c = if leb b'A' c && leb c b'Z' then c + 32 else c

-- strcasecmp(a, b) == 0
unfoldable pub same_text_nocase : List ℕ → List ℕ → Bool
same_text_nocase [] [] = true
same_text_nocase (a ∷ xs) (b ∷ ys) = (lower a == lower b) && same_text_nocase xs ys
same_text_nocase _ _ = false

abbrev pub text_ip : List ℕ
text_ip = b'I' ∷ b'P' ∷ []

abbrev pub text_ipv4 : List ℕ
text_ipv4 = b'I' ∷ b'P' ∷ b'V' ∷ b'4' ∷ []

abbrev pub text_ipv6 : List ℕ
text_ipv6 = b'I' ∷ b'P' ∷ b'V' ∷ b'6' ∷ []

abbrev pub text_ipv4v6 : List ℕ
text_ipv4v6 = b'I' ∷ b'P' ∷ b'V' ∷ b'4' ∷ b'V' ∷ b'6' ∷ []

abbrev pub text_non_ip : List ℕ
text_non_ip = b'N' ∷ b'o' ∷ b'n' ∷ b'-' ∷ b'I' ∷ b'P' ∷ []

abbrev pub text_nonip : List ℕ
text_nonip = b'N' ∷ b'O' ∷ b'N' ∷ b'I' ∷ b'P' ∷ []

-- configured_pdp_type, for the build's MBED_CONF_ST87M01_DEFAULT_PDP_TYPE
unfoldable pub configured_pdp_type : List ℕ → PdpType
configured_pdp_type conf =
    if same_text conf text_ipv6
    then PdpType.ipv6_pdp
    else if same_text conf text_ipv4v6
    then PdpType.ipv4v6_pdp
    else PdpType.ipv4_pdp

-- parse_pdp_type
unfoldable pub parse_pdp_type : List ℕ → PdpType
parse_pdp_type str =
    if same_text str text_ipv4v6
    then PdpType.ipv4v6_pdp
    else if same_text str text_ipv6
    then PdpType.ipv6_pdp
    else if same_text str text_ip || same_text str text_ipv4
    then PdpType.ipv4_pdp
    else if same_text str text_non_ip || same_text str text_nonip
    then PdpType.non_ip_pdp
    else PdpType.ipv4v6_pdp

-- pdp_type_to_str
unfoldable pub pdp_type_to_str : PdpType → List ℕ
pdp_type_to_str PdpType.ipv6_pdp = text_ipv6
pdp_type_to_str PdpType.ipv4v6_pdp = text_ipv4v6
pdp_type_to_str _ = text_ip

-- _apn && strlen(_apn) && strcasecmp(apn, _apn) == 0
abbrev pub is_wanted : Option (List ℕ) → List ℕ → Bool
is_wanted none apn = false
is_wanted (some []) apn = false
is_wanted (some (c ∷ cs)) apn = same_text_nocase apn (c ∷ cs)

-- prefer_rank, inside the loop over a line with the APN `apn`
unfoldable pub prefer_rank : Option (List ℕ) → List ℕ → ℤ → Bool → ℕ
prefer_rank wanted apn c active =
    if (c ==ℤ pos 5) && active
    then 0
    else if (c ==ℤ pos 6) && active
    then 1
    else if active
    then 2
    else if is_wanted wanted apn
    then 3
    else 10

-- One line of the answer to AT+CGDCONT?, and what the loop has chosen so far.
pub record Line : Type 0 where
  pub cid : ℤ
  pub pdp : List ℕ
  pub apn : List ℕ

-- chosen, chosen_pdp and apn_buf
pub record Chosen : Type 0 where
  pub chosen : ℤ
  pub pdp : List ℕ
  pub apn : List ℕ

abbrev pub nothing_chosen : Chosen
nothing_chosen = record { chosen = minus_one; pdp = []; apn = [] }

-- cid_active at an int; `table` is the array, with what lies beside it in memory.
abbrev pub line_active : (ℤ → Bool) → ℤ → Bool
line_active table c = if below c 7 then table c else false

abbrev pub chosen_active : (ℤ → Bool) → ℤ → Bool
chosen_active table c = if below c 100 then table c else false

-- chosen_rank: the APN it is ranked with is the line's.
unfoldable pub chosen_rank : Option (List ℕ) → (ℤ → Bool) → List ℕ → ℤ → ℕ
chosen_rank wanted table apn c =
    if c ==ℤ minus_one then 7 else prefer_rank wanted apn c (chosen_active table c)

-- The body of the loop over the defined contexts.
unfoldable pub consider : Option (List ℕ) → (ℤ → Bool) → Line → Chosen → Chosen
consider wanted table line best =
    if ltb (prefer_rank wanted line.apn line.cid (line_active table line.cid))
      (chosen_rank wanted table line.apn best.chosen)
    then record { chosen = line.cid; pdp = line.pdp; apn = line.apn }
    else best
