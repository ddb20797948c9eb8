-- ===== src/Http/Session.antt =====
-- What the HTTP client's methods keep, and what a request reports.
use mathlib.Core.Bool.{false≢true}
use mbed_ce_st87m.Common.{
  ℕ, ◌≡◌, refl, ◌⊎◌, inl, inr, Bool, true, false, Option, none, some, List, [], ◌∷◌, ℤ, pos, negsuc,
  minus_one, is_neg, below, Bool-cases,
}
use mbed_ce_st87m.At.{
  NsapiError, lock, at_cmd_discard, is_ok, Modem, Trace, Action, pure, ◌>>=◌, ◌>>◌,
}
use mbed_ce_st87m.At.Keeps.{Keeps, Keeps-if, Keeps-bind, Keeps-modify, Keeps-pure, keeps_rules}
use mbed_ce_st87m.Http.{
  Http, Method, stop, stop_if_started, attach_socket, detach_socket, start, send_method,
  send_header, send_body, accept, read_data, read_response, ensure_started, on_success, finish, get,
  send_content_type, post,
}
use mbed_ce_st87m.Http.Reply.{Response}

-- A running HTTP stack has a socket, and a socket has an id of the modem's or is absent.
pub record IsBound (s : Http) : Type 0 where
  pub runs_on_socket : s.http_started ≡ true → is_neg s.socket_id ≡ false
  pub known_socket : (s.socket_id ≡ minus_one) ⊎ (below s.socket_id 7 ≡ true)

module _ (modem : Modem) where
  abbrev Bound : {A : Type 0} → Action Http A → Type 0
  Bound = Keeps IsBound

  stopped-IsBound : (s : Http) → IsBound s → IsBound (record s { http_started = false })
  stopped-IsBound s v = record {
    runs_on_socket = λ e. absurd (false≢true e);
    known_socket = v.known_socket;
  }

  pub stop-Bound : Bound (stop modem)
  unfolding stop
  stop-Bound = search (keeps_rules, stopped-IsBound) depth 20

  stop_if_started-Bound : Bound (stop_if_started modem)
  stop_if_started-Bound = search (keeps_rules, stop-Bound) depth 20

  pub attach_socket-Bound : (k : ℤ) → Bound (attach_socket modem k)
  unfolding attach_socket
  attach_socket-Bound k = elim (Bool-cases (below k 7)) [
    | inl e ↦ rw e (
        Keeps-bind _ _ stop_if_started-Bound λ _.
          Keeps-bind _ _
            (Keeps-modify _
              (λ s v. record { runs_on_socket = λ _. below_not_neg k e; known_socket = inr e }))
            λ _. Keeps-pure _)
    | inr e ↦ rw e (Keeps-pure _)
  ]
    where
      below_not_neg : (j : ℤ) → below j 7 ≡ true → is_neg j ≡ false
      below_not_neg (pos n) h = refl
      below_not_neg (negsuc n) h = absurd (false≢true h)

  -- Leaving the socket: stopped first, so that nothing runs without one.
  pub detach_socket-Bound : Bound (detach_socket modem)
  unfolding detach_socket stop ◌>>=◌
  detach_socket-Bound = record { at = λ s t v. go s.cid s.socket_id s.http_started t }
    where
      go :
          (cid socket_id : ℤ) (started : Bool) (t : Trace)
          → IsBound
              (detach_socket modem
                (record { cid = cid; socket_id = socket_id; http_started = started })
                t).1
      go cid socket_id true t = record {
        runs_on_socket = λ q. absurd (false≢true q);
        known_socket = inl refl;
      }
      go cid socket_id false t = record {
        runs_on_socket = λ q. absurd (false≢true q);
        known_socket = inl refl;
      }

  started-IsBound :
      (s : Http)
      → is_neg s.socket_id ≡ false
      → IsBound s
      → IsBound (record s { http_started = true })
  started-IsBound s e v = record { runs_on_socket = λ _. e; known_socket = v.known_socket }

  pub start-Bound : Bound (start modem)
  unfolding start ◌>>=◌
  start-Bound = record {
    at = λ s t v. elim (Bool-cases (is_neg s.socket_id)) [
      | inl e ↦ simp e v
      | inr e ↦ elim (Bool-cases s.http_started) [
        | inl r ↦ simp (e, r) v
        | inr r ↦
            elim (Bool-cases
              (is_ok (modem.discard_error (at_cmd_discard "#HTTPSTART" "" [] ∷ lock ∷ t)))) [
                | inl o ↦ simp (e, r, o) (started-IsBound s e v)
                | inr o ↦ simp (e, r, o) v
              ]
      ]
    ];
  }

  send_method-Bound :
      (method : Method) (host path : List ℕ) (keep_alive : Bool)
      → Bound (send_method modem method host path keep_alive)
  unfolding send_method
  send_method-Bound method host path keep_alive = search keeps_rules depth 20

  send_content_type-Bound : (value : Option (List ℕ)) → Bound (send_content_type modem value)
  unfolding send_content_type send_header
  send_content_type-Bound none = search keeps_rules
  send_content_type-Bound (some []) = search keeps_rules
  send_content_type-Bound (some (c ∷ cs)) = search keeps_rules depth 20

  send_body-Bound : (body : Option (List ℕ)) (len : ℕ) → Bound (send_body modem body len)
  unfolding send_body
  send_body-Bound body len = search keeps_rules depth 20

  accept-Bound : (n : ℕ) (read : Option (List ℕ)) (r : Response) → Bound (accept modem n read r)
  unfolding accept
  accept-Bound n none r = search keeps_rules
  accept-Bound n (some got) r = search keeps_rules depth 20

  read_response-Bound : (timeout_ms : ℕ) → Bound (read_response modem timeout_ms)
  unfolding read_response read_data
  read_response-Bound timeout_ms = search (keeps_rules, accept-Bound) depth 40

  on_success-Bound :
      (r : Response) (m : Action Http NsapiError) (rest : Action Http Response)
      → Bound m
      → Bound rest
      → Bound (on_success modem r m rest)
  unfolding on_success
  on_success-Bound r m rest km kr =
      Keeps-bind _ _ km (λ err. Keeps-if (is_ok err) _ _ kr (Keeps-pure _))

  ensure_started-Bound : Bound (ensure_started modem)
  ensure_started-Bound = search (keeps_rules, start-Bound) depth 20

  finish-Bound : Bound (finish modem)
  finish-Bound = search (keeps_rules, read_response-Bound) depth 20

  get-Bound : (host path : List ℕ) (r : Response) → Bound (get modem host path r)
  unfolding get
  get-Bound host path r = on_success-Bound r _ _ ensure_started-Bound (
      on_success-Bound r _ _ (send_method-Bound _ host path false)
        (on_success-Bound r _ _ (send_body-Bound _ 0) finish-Bound))

  post-Bound :
      (host path : List ℕ) (content_type body : Option (List ℕ)) (body_len : ℕ) (r : Response)
      → Bound (post modem host path content_type body body_len r)
  unfolding post
  post-Bound host path content_type body body_len r = on_success-Bound r _ _ ensure_started-Bound (
      on_success-Bound r _ _ (send_method-Bound _ host path false) (
        on_success-Bound r _ _ (send_content_type-Bound content_type)
          (on_success-Bound r _ _ (send_body-Bound body body_len) finish-Bound)))

  -- The client's public methods, and a sequence of calls of them.
  pub data Use : Type 0 where
    attach : ℤ → Use
    detach begin finish_up : Use
    fetch : List ℕ → List ℕ → Response → Use
    submit : List ℕ → List ℕ → Option (List ℕ) → Option (List ℕ) → ℕ → Response → Use

  unfoldable pub perform : Use → Action Http (Unit {0})
  perform (attach k) = attach_socket modem k >>= λ _. pure tt
  perform detach = detach_socket modem
  perform begin = start modem >>= λ _. pure tt
  perform finish_up = stop modem >>= λ _. pure tt
  perform (fetch host path r) = get modem host path r >>= λ _. pure tt
  perform (submit host path content_type body len r) =
      post modem host path content_type body len r >>= λ _. pure tt

  unfoldable pub perform_all : List Use → Action Http (Unit {0})
  perform_all [] = pure tt
  perform_all (u ∷ us) = perform u >> perform_all us

  perform-Bound : (u : Use) → Bound (perform u)
  unfolding perform
  perform-Bound (attach k) = search (keeps_rules, attach_socket-Bound) depth 10
  perform-Bound detach = detach_socket-Bound
  perform-Bound begin = search (keeps_rules, start-Bound) depth 10
  perform-Bound finish_up = search (keeps_rules, stop-Bound) depth 10
  perform-Bound (fetch host path r) = search (keeps_rules, get-Bound) depth 10
  perform-Bound (submit host path content_type body len r) =
      search (keeps_rules, post-Bound) depth 10

  perform_all-Bound : (us : List Use) → Bound (perform_all us)
  unfolding perform_all
  perform_all-Bound [] = Keeps-pure _
  perform_all-Bound (u ∷ us) = Keeps-bind _ _ (perform-Bound u) (λ _. perform_all-Bound us)

  -- Whatever calls of its public methods are made, and whatever the modem answers, an HTTP client
  -- that started out bound stays so: its HTTP stack runs only while a socket is attached, and the
  -- attached socket's id is from 0 to 6.
  pub perform_all-IsBound :
      (us : List Use) (s : Http) (t : Trace) → IsBound s → IsBound (perform_all us s t).1
  perform_all-IsBound us s t v = (perform_all-Bound us).at s t v
