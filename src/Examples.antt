-- ===== src/Examples.antt =====
-- The codec, the HTTP client and the context at concrete inputs.
use mbed_ce_st87m.Common.{
  ℕ, ◌*◌, ◌<◌, ◌≤◌, ◌≡◌, refl, Bool, true, false, none, some, List, [], ◌∷◌, ◌++◌, arith, ℤ, pos,
  minus_one, ◌==ℤ◌, ◌+◌, ◌/◌, length, All,
}
use mbed_ce_st87m.At.{ok, pure, each_line, ◌>>=◌}
use mbed_ce_st87m.Codec.Hex.{convert_hex_to_bin, encode, is_hex_string, starts_with, count_digits}
use mbed_ce_st87m.Codec.Hex.Digits.{hex_digits}
use mbed_ce_st87m.Codec.Hex.RoundTrip.{convert_hex_to_bin-encode, is_hex_string_converts}
use mbed_ce_st87m.Http.{Http, read_response}
use mbed_ce_st87m.Http.Bounds.{read_response_bounds}
use mbed_ce_st87m.Http.Reply.{Response, c_string, parsed}
use mbed_ce_st87m.Http.Outcome.{blank_line, parsed-content_length}
use mbed_ce_st87m.Stack.Tests.{test_read_at_most, test_modem, test_env, test_stack}
use mbed_ce_st87m.Context.{Context, Outside, http_open}
use mbed_ce_st87m.Context.Choice.{PdpType, nothing_chosen}
use mbed_ce_st87m.Context.Select.{read_line, context_line}
use mbed_ce_st87m.Context.Rank.{lines_read, IsFirstBest, IsKnown, select-IsFirstBest}
use mbed_ce_st87m.Context.Sessions.{IsSettled, http_open-IsSettled}

abbrev spaced_hex : List ℕ
spaced_hex = b'4' ∷ b'f' ∷ b' ' ∷ b'0' ∷ b'A' ∷ []

convert_hex_to_bin-encode_example :
    convert_hex_to_bin (some (encode (0 ∷ 79 ∷ 255 ∷ []))) true 8 ≡ 0 ∷ 79 ∷ 255 ∷ []
convert_hex_to_bin-encode_example =
    convert_hex_to_bin-encode (0 ∷ 79 ∷ 255 ∷ []) 8 (omega arith, (omega arith, (omega arith, tt)))
      (omega arith) (omega arith)

spaced_hex-accepted : is_hex_string (some spaced_hex) ≡ true
unfolding is_hex_string starts_with count_digits
spaced_hex-accepted = refl

is_hex_string_converts_example :
    let bytes = convert_hex_to_bin (some spaced_hex) true (length spaced_hex / 2 + 1) in
    (0 < length bytes) × (length bytes * 2 ≡ length (hex_digits spaced_hex))
is_hex_string_converts_example = is_hex_string_converts spaced_hex spaced_hex-accepted

abbrev pub empty_response : Response
empty_response = record {
  status_code = pos 0;
  content_length = 0;
  body = [];
  body_length = 0;
  success = false;
  error = ok;
}

abbrev pub host : List ℕ
host = b'a' ∷ []

abbrev running_client : Http
running_client = record { cid = pos 5; socket_id = pos 2; http_started = true }

read_response_bounds_example :
    (read_response test_modem 30000 running_client []).0.1.body_length < 1400
read_response_bounds_example =
    read_response_bounds test_modem (record { read_at_most = test_read_at_most }) 30000
      running_client []

abbrev short_reply : List ℕ
short_reply = b'H' ∷ 13 ∷ 10 ∷ 13 ∷ 10 ∷ b'o' ∷ b'k' ∷ []

short_reply_first :
    (head' rest' : List ℕ) → short_reply ≡ head' ++ (blank_line ++ rest') → 1 ≤ length head'
short_reply_first [] rest' e = absurd (ground (arith, e))
short_reply_first (c ∷ head') rest' e = omega arith

short_reply_plain : c_string short_reply ≡ short_reply
unfolding c_string
short_reply_plain = refl

parsed-content_length_example : (parsed short_reply empty_response).content_length ≡ 2
parsed-content_length_example =
    parsed-content_length (b'H' ∷ []) (b'o' ∷ b'k' ∷ []) empty_response short_reply_plain
      short_reply_first

abbrev pub test_outside : Outside ℕ
test_outside = record {
  env = test_env;
  base = record { socket_open = λ p. pure (ok, 0); socket_close = λ h. pure ok };
  base_get_context = pure false;
  base_stack = λ cid pdp. test_stack;
  is_active_context = λ cid. pure true;
  default_pdp_type = [];
  beyond = λ k. false;
}

abbrev pub test_context : Context ℕ
test_context = record {
  cid = pos 5;
  pdp_type = PdpType.ipv4_pdp;
  cp_in_use = false;
  apn = none;
  found_apn = [];
  is_context_active = false;
  is_context_activated = false;
  stack = some test_stack;
  http_client = none;
  http_socket_id = minus_one;
}

abbrev active_one : ℤ → Bool
active_one k = k ==ℤ pos 1

test_lines-IsKnown : All IsKnown (lines_read test_outside 2 test_context []).0
unfolding lines_read read_line ◌>>=◌
test_lines-IsKnown = (refl, (refl, tt))

select-IsFirstBest_example :
    IsFirstBest none active_one
      (lines_read test_outside 2 test_context []).0
      nothing_chosen
      7
      (each_line test_modem 2
        (context_line test_outside active_one)
        nothing_chosen
        test_context
        []).0
select-IsFirstBest_example =
    select-IsFirstBest test_outside 2 active_one test_context [] test_lines-IsKnown

http_open-IsSettled_example :
    IsSettled test_outside
      (http_open test_outside (some host) 80 false test_context []).0
      (http_open test_outside (some host) 80 false test_context []).1
http_open-IsSettled_example = http_open-IsSettled test_outside (some host) 80 false test_context []
