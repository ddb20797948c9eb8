-- ===== src/Http/Talk.antt =====
-- The conversations of src/ST87M01_HTTP.cpp with the modem.
use mbed_ce_st87m.Common.{ℕ, ◌≡◌, Bool, Option, none, some, List, [], ◌∷◌, ℤ}
use mbed_ce_st87m.At.{is_ok, Modem, Trace, Action, NsapiError}
use mbed_ce_st87m.At.Talk.{
  talk, quiet, reading, Moves, Moves-if, Moves-pure, Moves-back_then, talk_rules,
}
use mbed_ce_st87m.Http.{
  Http, Method, stop, stop_if_started, attach_socket, detach_socket, start, send_method,
  send_header, send_body, accept, read_data, read_response, ensure_started, on_success, finish, get,
  send_content_type, post,
}
use mbed_ce_st87m.Http.Reply.{Response}
use mbed_ce_st87m.Http.Session.{
  Use, attach, detach, begin, finish_up, fetch, submit, perform, perform_all,
}

module _ (modem : Modem) {n : ℕ} where
  accept-reads :
      (k : ℕ) (got : Option (List ℕ)) (r : Response)
      → Moves (reading n) (reading n) (accept modem k got r)
  unfolding accept
  accept-reads k none r = search talk_rules
  accept-reads k (some got) r = search talk_rules depth 20

  read_data-reads : (r : Response) → Moves (reading n) (reading n) (read_data modem r)
  unfolding read_data
  read_data-reads r = search (talk_rules, accept-reads) depth 30

module _ (modem : Modem) (n : ℕ) where
  abbrev Tidy : {A : Type 0} → Action Http A → Type 0
  Tidy = Moves (quiet n) (quiet n)

  pub stop-Tidy : Tidy (stop modem)
  unfolding stop
  stop-Tidy = search talk_rules depth 20

  pub stop_if_started-Tidy : Tidy (stop_if_started modem)
  stop_if_started-Tidy = search (talk_rules, stop-Tidy) depth 20

  pub attach_socket-Tidy : (k : ℤ) → Tidy (attach_socket modem k)
  unfolding attach_socket
  attach_socket-Tidy k = search (talk_rules, stop_if_started-Tidy) depth 20

  pub detach_socket-Tidy : Tidy (detach_socket modem)
  unfolding detach_socket
  detach_socket-Tidy = search (talk_rules, stop_if_started-Tidy) depth 20

  pub start-Tidy : Tidy (start modem)
  unfolding start
  start-Tidy = search talk_rules depth 20

  send_method-Tidy :
      (method : Method) (host path : List ℕ) (keep_alive : Bool)
      → Tidy (send_method modem method host path keep_alive)
  unfolding send_method
  send_method-Tidy method host path keep_alive = search talk_rules depth 20

  send_content_type-Tidy : (value : Option (List ℕ)) → Tidy (send_content_type modem value)
  unfolding send_content_type send_header
  send_content_type-Tidy none = search talk_rules
  send_content_type-Tidy (some []) = search talk_rules
  send_content_type-Tidy (some (c ∷ cs)) = search talk_rules depth 20

  send_body-Tidy : (body : Option (List ℕ)) (len : ℕ) → Tidy (send_body modem body len)
  unfolding send_body
  send_body-Tidy body len = search talk_rules depth 20

  read_response-Tidy : (timeout_ms : ℕ) → Tidy (read_response modem timeout_ms)
  unfolding read_response
  read_response-Tidy timeout_ms = search (talk_rules, read_data-reads) depth 30

  finish-Tidy : Tidy (finish modem)
  finish-Tidy = search (talk_rules, read_response-Tidy) depth 20

  ensure_started-Tidy : Tidy (ensure_started modem)
  ensure_started-Tidy = search (talk_rules, start-Tidy) depth 20

  on_success-Tidy :
      (r : Response) (m : Action Http NsapiError) (rest : Action Http Response)
      → Tidy m
      → Tidy rest
      → Tidy (on_success modem r m rest)
  unfolding on_success
  on_success-Tidy r m rest tm te =
      Moves-back_then _ _ tm (λ err. Moves-if (is_ok err) _ _ te (Moves-pure _))

  ruleset request_rules = (
    on_success-Tidy, ensure_started-Tidy, send_method-Tidy, send_content_type-Tidy, send_body-Tidy,
    finish-Tidy,
  )

  pub get-Tidy : (host path : List ℕ) (r : Response) → Tidy (get modem host path r)
  unfolding get
  get-Tidy host path r = search (talk_rules, request_rules) depth 20

  pub post-Tidy :
      (host path : List ℕ) (content_type body : Option (List ℕ)) (len : ℕ) (r : Response)
      → Tidy (post modem host path content_type body len r)
  unfolding post
  post-Tidy host path content_type body len r = search (talk_rules, request_rules) depth 20

  perform-Tidy : (u : Use modem) → Tidy (perform modem u)
  unfolding perform
  perform-Tidy (attach k) = search (talk_rules, attach_socket-Tidy) depth 10
  perform-Tidy detach = detach_socket-Tidy
  perform-Tidy begin = search (talk_rules, start-Tidy) depth 10
  perform-Tidy finish_up = search (talk_rules, stop-Tidy) depth 10
  perform-Tidy (fetch host path r) = search (talk_rules, get-Tidy) depth 10
  perform-Tidy (submit host path content_type body len r) = search (talk_rules, post-Tidy) depth 10

  perform_all-Tidy : (us : List (Use modem)) → Tidy (perform_all modem us)
  unfolding perform_all
  perform_all-Tidy [] = Moves-pure _
  perform_all-Tidy (u ∷ us) = Moves-back_then _ _ (perform-Tidy u) (λ _. perform_all-Tidy us)

  pub perform_all-talk :
      (us : List (Use modem)) (s : Http) (t : Trace)
      → talk t ≡ quiet n
      → talk (perform_all modem us s t).2 ≡ quiet n
  perform_all-talk us s t h = (perform_all-Tidy us).at s t h
