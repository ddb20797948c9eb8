-- ===== src/Http/Reply.antt =====
-- ST87M01_HTTP::Response, and how read_response takes it from what the modem sent.
use mbed_ce_st87m.Common.{
  ℕ, zero, suc, ◌+◌, ◌-◌, ◌*◌, Bool, false, ◌&&◌, ◌||◌, Option, none, some, List, [], ◌∷◌, ltb, leb,
  ◌==◌, if◌then◌else◌, ℤ, pos, negsuc, pos_part, length,
}
use mbed_ce_st87m.At.{NsapiError, is_ok}

-- sizeof(response.body)
abbrev pub body_size : ℕ
body_size = 1400

-- `body` is what was read, before the NUL that ends it.
pub record Response : Type 0 where
  pub status_code : ℤ
  pub content_length : ℕ
  pub body : List ℕ
  pub body_length : ℕ
  pub success : Bool
  pub error : NsapiError

abbrev is_positive : ℤ → Bool
is_positive k = ltb 0 (pos_part k)

-- The size is in the third field, or else the second, or else the first.
unfoldable pub data_size : ℤ → ℤ → ℤ → ℤ
data_size param1 param2 param3 =
    if is_positive param3 then param3 else if is_positive param2 then param2 else param1

-- A char array as the functions of string.h see it: up to the first NUL.
unfoldable pub c_string : List ℕ → List ℕ
c_string [] = []
c_string (c ∷ cs) = let rest = c_string cs in if c == 0 then [] else c ∷ rest

-- strncmp(body, "HTTP/", 5) == 0
abbrev pub has_http_prefix : List ℕ → Bool
has_http_prefix (c ∷ d ∷ e ∷ f ∷ g ∷ cs) =
    (c == b'H') && (d == b'T') && (e == b'T') && (f == b'P') && (g == b'/')
has_http_prefix _ = false

-- strchr(body, ' ') + 1
unfoldable pub behind_space : List ℕ → Option (List ℕ)
behind_space [] = none
behind_space (c ∷ cs) = let rest = behind_space cs in if c == b' ' then some cs else rest

-- strstr(body, "\r\n\r\n") + 4
abbrev pub starts_blank_line : List ℕ → Option (List ℕ)
starts_blank_line (c ∷ d ∷ e ∷ f ∷ cs) =
    if (c == 13) && (d == 10) && (e == 13) && (f == 10) then some cs else none
starts_blank_line _ = none

abbrev pub or_else : Option (List ℕ) → Option (List ℕ) → Option (List ℕ)
or_else none o = o
or_else (some x) o = some x

unfoldable pub behind_blank_line : List ℕ → Option (List ℕ)
behind_blank_line [] = none
behind_blank_line (c ∷ cs) = or_else (starts_blank_line (c ∷ cs)) (behind_blank_line cs)

-- atoi: white space, a sign, and digits up to the first other character. C leaves numbers that do
-- not fit in an int undefined; they are not cut here.
unfoldable pub digits_value : List ℕ → ℕ → ℕ
digits_value [] n = n
digits_value (c ∷ cs) n =
    let more = digits_value cs (n * 10 + (c - b'0')) in if leb b'0' c && leb c b'9' then more else n

abbrev negated : ℕ → ℤ
negated zero = pos 0
negated (suc n) = negsuc n

unfoldable pub atoi : List ℕ → ℤ
unfolding digits_value
atoi [] = pos 0
atoi (c ∷ cs) =
    let behind = atoi cs in
    if (c == b' ') || leb 9 c && leb c 13
    then behind
    else if c == b'-'
    then negated (digits_value cs 0)
    else if c == b'+'
    then pos (digits_value cs 0)
    else pos (digits_value (c ∷ cs) 0)

abbrev status_of : Option (List ℕ) → ℤ
status_of none = pos 0
status_of (some text) = atoi text

abbrev pub status_code_of : List ℕ → ℤ
status_code_of text = if has_http_prefix text then status_of (behind_space text) else pos 0

-- response.body_length - (body_start - response.body)
abbrev pub content_behind : ℕ → List ℕ → Option (List ℕ) → ℕ
content_behind n text none = 0
content_behind n text (some rest) = n - (length text - length rest)

-- The fields that read_response fills from the bytes that were read, over a cleared response.
unfoldable pub parsed : List ℕ → Response → Response
parsed got r =
    let text = c_string got in
    record r {
      body = got;
      body_length = length got;
      status_code = status_code_of text;
      content_length = content_behind (length got) text (behind_blank_line text);
    }

-- err == NSAPI_ERROR_OK && status_code >= 200 && status_code < 300
unfoldable pub is_success : NsapiError → ℤ → Bool
is_success err (pos n) = is_ok err && leb 200 n && ltb n 300
is_success err (negsuc n) = false
