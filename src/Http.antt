-- ===== src/Http.antt =====
-- src/ST87M01_HTTP.cpp: the modem's HTTP client on a connected socket.
pub mod Reply
pub mod Session
pub mod Outcome
pub mod Bounds
pub mod Requests
pub mod Talk
use Prim.Native.Nat.{min}
use mbed_ce_st87m.Common.{
  ℕ, ◌-◌, Bool, true, false, not, ◌||◌, Option, none, some, List, [], ◌∷◌, ltb, ◌==◌, if◌then◌else◌,
  ℤ, pos, pos_part, minus_one, is_neg, below, length,
}
use mbed_ce_st87m.At.{
  NsapiError, ok, parameter, no_socket, timeout, is_ok, Modem, lock, unlock, cmd_stop, resp_stop,
  restore_at_timeout, cmd_start, resp_start, cmd_start_stop, write_int, write_string,
  set_at_timeout, skip_param_bytes, sleep_for, Action, pure, gets, modify, call, calls, ◌>>=◌, ◌>>◌,
  discard, next_line, int_of, bytes_of, unlock_return_error,
}
use mbed_ce_st87m.Http.Reply.{Response, body_size, data_size, parsed, is_success}

-- The fields of ST87M01_HTTP.
pub record Http : Type 0 where
  pub cid : ℤ
  pub socket_id : ℤ
  pub http_started : Bool

pub data Method : Type 0 where
  get_method post_method put_method head_method : Method

abbrev pub method_str : Method → List ℕ
method_str Method.get_method = b'G' ∷ b'E' ∷ b'T' ∷ []
method_str Method.post_method = b'P' ∷ b'O' ∷ b'S' ∷ b'T' ∷ []
method_str Method.put_method = b'P' ∷ b'U' ∷ b'T' ∷ []
method_str Method.head_method = b'H' ∷ b'E' ∷ b'A' ∷ b'D' ∷ []

-- "Content-Type"
abbrev content_type_field : List ℕ
content_type_field =
    b'C' ∷ b'o' ∷ b'n' ∷ b't' ∷ b'e' ∷ b'n' ∷ b't' ∷ b'-' ∷ b'T' ∷ b'y' ∷ b'p' ∷ b'e' ∷ []

-- The text that #HTTPSEND is given: the length only says whether there is one.
abbrev pub sent_text : Option (List ℕ) → ℕ → List ℕ
sent_text none len = []
sent_text (some body) len = if ltb 0 len then body else []

module _ (modem : Modem) where
  -- stop
  unfoldable pub stop : Action Http NsapiError
  stop = do
    s ← gets (λ s. s)
    if not s.http_started then pure ok else do
      call lock
      err ← discard modem "#HTTPSTOP" "" []
      call unlock
      modify (λ s'. record s' { http_started = false })
      pure err

  abbrev pub stop_if_started : Action Http (Unit {0})
  stop_if_started = do s ← gets (λ s. s); if s.http_started then (do _ ← stop; pure tt) else pure tt

  -- attach_socket
  unfoldable pub attach_socket : ℤ → Action Http NsapiError
  attach_socket k =
      if not (below k 7)
      then pure parameter
      else do stop_if_started; modify (λ s. record s { socket_id = k }); pure ok

  -- detach_socket
  unfoldable pub detach_socket : Action Http (Unit {0})
  detach_socket = do stop_if_started; modify (λ s. record s { socket_id = minus_one })

  -- start
  unfoldable pub start : Action Http NsapiError
  start = do
    s ← gets (λ s. s)
    if is_neg s.socket_id then pure no_socket else if s.http_started then pure ok else do
      call lock
      err ← discard modem "#HTTPSTART" "" []
      call unlock
      if is_ok err then modify (λ s'. record s' { http_started = true }) else pure tt
      pure err

  -- send_method
  unfoldable pub send_method : Method → List ℕ → List ℕ → Bool → Action Http NsapiError
  send_method method host path keep_alive = do
    calls (
        lock
        ∷ cmd_start "AT#HTTPMETHOD="
        ∷ write_string (method_str method) false
        ∷ write_string host false
        ∷ write_string path false
        ∷ write_int (if keep_alive then pos 1 else pos 0)
        ∷ cmd_stop
        ∷ resp_start ""
        ∷ resp_stop
        ∷ [])
    unlock_return_error modem

  -- send_header
  unfoldable pub send_header : List ℕ → List ℕ → Action Http NsapiError
  send_header field value = do
    calls (
        lock
        ∷ cmd_start "AT#HTTPHEADER="
        ∷ write_string field false
        ∷ write_string value false
        ∷ cmd_stop
        ∷ resp_start ""
        ∷ resp_stop
        ∷ [])
    unlock_return_error modem

  -- send_body; a null body is none, another one is the text up to its NUL.
  unfoldable pub send_body : Option (List ℕ) → ℕ → Action Http NsapiError
  send_body body len = do
    s ← gets (λ s. s)
    calls (
        lock
        ∷ cmd_start "AT#HTTPSEND="
        ∷ write_int s.cid
        ∷ write_int s.socket_id
        ∷ write_string (sent_text body len) true
        ∷ cmd_stop
        ∷ resp_start ""
        ∷ resp_stop
        ∷ [])
    unlock_return_error modem

  -- What follows read_bytes in read_response: whether there is a response.
  unfoldable pub accept : ℕ → Option (List ℕ) → Response → Action Http (Bool × Response)
  accept announced none r = pure (false, r)
  accept announced (some got) r = if not (ltb 0 (length got)) then pure (false, r) else do
    if ltb (length got) announced
        then call (skip_param_bytes (announced - length got) 1)
        else pure tt
    pure (true, parsed got r)

  unfoldable pub read_data : Response → Action Http (Bool × Response)
  read_data r = do
    more ← next_line modem
    if not more then pure (false, r) else do
      param1 ← int_of modem
      param2 ← int_of modem
      param3 ← int_of modem
      let announced = pos_part (data_size param1 param2 param3)
      if not (ltb 0 announced)
          then pure (false, r)
          else do read ← bytes_of modem (min announced (body_size - 1)); accept announced read r

  -- read_response; what it leaves in `response` is the second component.
  unfoldable pub read_response : ℕ → Action Http (NsapiError × Response)
  read_response timeout_ms = do
    calls (
        lock
        ∷ set_at_timeout timeout_ms false
        ∷ sleep_for 500
        ∷ cmd_start_stop "#HTTPREAD" "" []
        ∷ resp_start "#HTTPREAD:"
        ∷ [])
    (got_response, r) ← read_data (record {
      status_code = pos 0;
      content_length = 0;
      body = [];
      body_length = 0;
      success = false;
      error = ok;
    })
    calls (resp_stop ∷ restore_at_timeout ∷ [])
    err ← unlock_return_error modem
    pure (if not got_response then timeout else err, r)

  -- if (!_http_started) start()
  abbrev pub ensure_started : Action Http NsapiError
  ensure_started = do s ← gets (λ s. s); if s.http_started then pure ok else start

  -- A step of a request: what it fails with ends the request and is left in `response`.
  unfoldable pub on_success :
      Response → Action Http NsapiError → Action Http Response → Action Http Response
  on_success r m rest = do err ← m; if is_ok err then rest else pure (record r { error = err })

  abbrev pub finish : Action Http Response
  finish = do
    (err, r) ← read_response 30000
    pure (record r { error = err; success = is_success err r.status_code })

  -- get; the error that it returns is the response's.
  unfoldable pub get : List ℕ → List ℕ → Response → Action Http Response
  get host path r = on_success r ensure_started (
      on_success r (send_method Method.get_method host path false)
        (on_success r (send_body (some []) 0) finish))

  unfoldable pub send_content_type : Option (List ℕ) → Action Http NsapiError
  send_content_type none = pure ok
  send_content_type (some []) = pure ok
  send_content_type (some (c ∷ cs)) = send_header content_type_field (c ∷ cs)

  -- post
  unfoldable pub post :
      List ℕ → List ℕ → Option (List ℕ) → Option (List ℕ) → ℕ → Response → Action Http Response
  post host path content_type body body_len r = on_success r ensure_started (
      on_success r (send_method Method.post_method host path false) (
        on_success r (send_content_type content_type)
          (on_success r (send_body body body_len) finish)))
