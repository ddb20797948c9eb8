-- ===== src/Context/Consistent.antt =====
-- The context's session and its HTTP client: HTTP runs in the modem exactly while the context
-- has a session, and then on the session's socket.
pub mod Run
use mathlib.Core.Bool.{false≢true}
use mbed_ce_st87m.Common.{
  ℕ, ◌≡◌, refl, sym, ap, ◌∙◌, ◌⊎◌, inl, inr, Bool, true, false, not, Option, none, some, List, [],
  ◌∷◌, ℤ, pos, negsuc, minus_one, is_neg, below, if◌then◌else◌, Bool-cases,
}
use mbed_ce_st87m.At.{
  NsapiError, ok, parameter, is_ok, Modem, Trace, Action, pure, modify, ◌>>=◌, ◌>>◌, lock,
  at_cmd_discard,
}
use mbed_ce_st87m.At.Keeps.{Keeps, keeps_rules, Keeps-bind, Keeps-pure}
use mbed_ce_st87m.At.Gives.{
  Gives, Gives-pure, Gives-if, Gives-from, Gives-state, Gives-keep, Gives-then,
}
use mbed_ce_st87m.Http.{Http, stop, stop_if_started, attach_socket, detach_socket, start}
use mbed_ce_st87m.Stack.Types.{Stack}
use mbed_ce_st87m.Stack.Session.{open_tcp_session}
use mbed_ce_st87m.Context.{
  Context, Outside, on_stack, on_http, stack_for, get_stack, ensure_stack, get_st87_stack,
  client_for, get_http_client, stop_client, close_session_on, http_close, start_session,
  attach_session, open_on, http_open, modem_of, get_context_state,
}

-- The client does not run, and is on no socket.
abbrev pub IsStopped : Option Http → Type 0
IsStopped none = Unit {0}
IsStopped (some http) = (http.http_started ≡ false) × (is_neg http.socket_id ≡ true)

-- The client is attached to the socket, and does not run yet.
abbrev IsAttached : ℤ → Option Http → Type 0
IsAttached k none = ⊥
IsAttached k (some http) = (http.http_started ≡ false) × (http.socket_id ≡ k) × (below k 7 ≡ true)

-- The client runs on the socket.
abbrev pub IsRunning : ℤ → Option Http → Type 0
IsRunning k none = ⊥
IsRunning k (some http) = (http.http_started ≡ true) × (http.socket_id ≡ k) × (below k 7 ≡ true)

module _ {P : Type 0} where
  -- No session, and nothing runs; or a session, and the client runs on its socket.
  abbrev pub IsIdle : Context P → Type 0
  IsIdle c = (is_neg c.http_socket_id ≡ true) × IsStopped c.http_client

  abbrev pub IsConsistent : Context P → Type 0
  IsConsistent c = IsIdle c ⊎ IsRunning c.http_socket_id c.http_client

below_not_neg : (k : ℤ) → below k 7 ≡ true → is_neg k ≡ false
below_not_neg (pos n) h = refl
below_not_neg (negsuc n) h = absurd (false≢true h)

module _ (modem : Modem) where
  detached : (h : Http) (t : Trace) → IsStopped (some (detach_socket modem h t).1)
  unfolding detach_socket stop ◌>>=◌
  detached h t = go h.cid h.socket_id h.http_started t
    where
      go :
          (cid k : ℤ) (started : Bool) (t : Trace)
          → IsStopped (
              some
                (detach_socket modem
                  (record { cid = cid; socket_id = k; http_started = started })
                  t).1)
      go cid k true t = (refl, refl)
      go cid k false t = (refl, refl)

  -- attach_socket with its two outcomes.
  attached :
      (k : ℤ) (h : Http) (t : Trace)
      → IsStopped (some h)
      → let r = attach_socket modem k h t in
        if is_ok r.0 then IsAttached k (some r.1) else IsStopped (some r.1)
  unfolding attach_socket is_ok ◌>>=◌
  attached k h t stopped = elim (Bool-cases (below k 7)) [
    | inl b ↦ rw b (rw (stopped.0) (refl, refl, refl))
    | inr b ↦ rw b stopped
  ]

  begun :
      (k : ℤ) (h : Http) (t : Trace)
      → IsAttached k (some h)
      → let r = start modem h t in if is_ok r.0 then IsRunning k (some r.1) else Unit {0}
  unfolding start ◌>>=◌
  begun k h t (stopped, on, known) =
      let known' : is_neg h.socket_id ≡ false = below_not_neg h.socket_id (rw on known) in
      let sent = modem.discard_error (at_cmd_discard "#HTTPSTART" "" [] ∷ lock ∷ t) in
      elim (Bool-cases (is_ok sent)) [
        | inl e ↦ simp (known', stopped, e) (refl, on, known)
        | inr e ↦ simp (known', stopped, e) tt
      ]

-- What is known of the session and of the client is kept by all that works on the stack.
module _ {P : Type 0} (out : Outside P) (Q : ℤ → Option Http → Type 0) where
  abbrev pub Of : Context P → Type 0
  Of c = Q c.http_socket_id c.http_client

  pub on_stack-Keeps : {A : Type 0} (s : Stack P) (m : Action (Stack P) A) → Keeps Of (on_stack s m)
  unfolding on_stack
  on_stack-Keeps s m = record { at = λ c t v. v }

  stack_for-Keeps : (c : Context P) (s : Option (Stack P)) → Keeps Of (stack_for out c s)
  unfolding stack_for
  stack_for-Keeps c none = search (keeps_rules, on_stack-Keeps) depth 20
  stack_for-Keeps c (some s) = search keeps_rules depth 20

  ensure_stack-Keeps : (s : Option (Stack P)) → Keeps Of (ensure_stack out s)
  unfolding ensure_stack get_stack
  ensure_stack-Keeps none = search (keeps_rules, stack_for-Keeps) depth 20
  ensure_stack-Keeps (some s) = search keeps_rules

  pub get_st87_stack-Keeps : Keeps Of (get_st87_stack out)
  unfolding get_st87_stack
  get_st87_stack-Keeps = search (keeps_rules, ensure_stack-Keeps) depth 20

  pub close_session_on-Keeps : (s : Option (Stack P)) (k : ℤ) → Keeps Of (close_session_on out s k)
  unfolding close_session_on
  close_session_on-Keeps none k = search keeps_rules
  close_session_on-Keeps (some s) k = search (keeps_rules, on_stack-Keeps) depth 20

running_not_neg : (k : ℤ) (h : Option Http) → IsRunning k h → is_neg k ≡ false
running_not_neg k none r = absurd r
running_not_neg k (some h) (started, on, known) = below_not_neg k known

pub IsIdle-of :
    {P : Type 0} (c : Context P) → is_neg c.http_socket_id ≡ true → IsConsistent c → IsIdle c
IsIdle-of c e (inl idle) = idle
IsIdle-of c e (inr running) =
    absurd (false≢true (sym (running_not_neg c.http_socket_id c.http_client running) ∙ e))

abbrev Stopped : ℤ → Option Http → Type 0
Stopped k h = IsStopped h

abbrev pub Idle : ℤ → Option Http → Type 0
Idle k h = (is_neg k ≡ true) × IsStopped h

module _ {P : Type 0} (out : Outside P) where
  stop_client-stops :
      (h : Option Http) (c : Context P) (t : Trace)
      → c.http_client ≡ h
      → IsStopped (stop_client out h c t).1.http_client
  unfolding stop_client on_http ◌>>=◌
  stop_client-stops none c t e = rw e tt
  stop_client-stops (some h) c t e =
      detached (modem_of out) (stop (modem_of out) h t).1 (stop (modem_of out) h t).2

  pub http_close-Idle : (c : Context P) (t : Trace) → IsConsistent c → IsIdle (http_close out c t).1
  unfolding http_close ◌>>=◌
  http_close-Idle c t v = elim (Bool-cases (is_neg c.http_socket_id)) [
    | inl e ↦ rw e (IsIdle-of c e v)
    | inr e ↦ rw e (
      refl,
      (close_session_on-Keeps out Stopped _ _).at _ _
          ((get_st87_stack-Keeps out Stopped).at _ _ (stop_client-stops c.http_client c t refl)),
    )
  ]

  -- What an attached client and no session lead to.
  start_session-Consistent :
      (k : ℤ) (h : Http) (c : Context P) (t : Trace)
      → is_neg c.http_socket_id ≡ true
      → IsAttached k (some h)
      → IsConsistent (start_session out k h c t).1
  unfolding start_session client_for on_http ◌>>=◌
  start_session-Consistent k h c t none_open on =
      elim (Bool-cases (is_ok (start (modem_of out) h t).0)) [
        | inl e ↦ rw e (inr (rw e at (begun (modem_of out) k h t on)))
        | inr e ↦ rw e (
            inl (
              (close_session_on-Keeps out Idle _ k).at _ _
                (none_open, detached (modem_of out) _ _)))
      ]

  -- attach_session behind get_http_client.
  attach_with-Consistent :
      (k : ℤ) (h : Http) (c : Context P) (t : Trace)
      → is_neg c.http_socket_id ≡ true
      → IsStopped (some h)
      → IsConsistent
          ((do
            err ← on_http h (attach_socket (modem_of out) k)
            c' ← get_context_state
            if not (is_ok err)
                then (do _ ← close_session_on out c'.stack k; pure err)
                else (do h' ← client_for out c' c'.http_client; start_session out k h'))
            c t).1
  unfolding client_for on_http ◌>>=◌
  attach_with-Consistent k h c t none_open stopped =
      elim (Bool-cases (is_ok (attach_socket (modem_of out) k h t).0)) [
        | inl e ↦ rw e (
            start_session-Consistent k _ _ _ none_open
              (rw e at (attached (modem_of out) k h t stopped)))
        | inr e ↦ rw e (
            inl (
              (close_session_on-Keeps out Idle _ k).at _ _
                (none_open, (rw e at (attached (modem_of out) k h t stopped)))))
      ]

  attach_session-Consistent :
      (k : ℤ) (c : Context P) (t : Trace) → IsIdle c → IsConsistent (attach_session out k c t).1
  unfolding attach_session get_http_client client_for ◌>>=◌
  attach_session-Consistent k c t (none_open, stopped) = go c.http_client stopped
    where
      go :
          (h : Option Http)
          → IsStopped h
          → IsConsistent (attach_session out k (record c { http_client = h }) t).1
      go none s = attach_with-Consistent k _ _ t none_open (refl, refl)
      go (some h) s = attach_with-Consistent k h _ t none_open s

  open_on-Consistent :
      (host : Option (List ℕ)) (port : ℕ) (use_tls : Bool) (stack : Option (Stack P))
      (c : Context P) (t : Trace)
      → IsIdle c
      → IsConsistent (open_on out host port use_tls stack c t).1
  unfolding open_on on_stack ◌>>=◌
  open_on-Consistent host port use_tls none c t idle = inl idle
  open_on-Consistent host port use_tls (some s) c t idle =
      let opened = open_tcp_session out.env out.base host port use_tls s t in
      elim (Bool-cases (is_ok opened.0.0)) [
        | inl e ↦ rw e (attach_session-Consistent opened.0.1 _ _ idle)
        | inr e ↦ rw e (inl idle)
      ]

  pub http_open-Consistent :
      (host : Option (List ℕ)) (port : ℕ) (use_tls : Bool) (c : Context P) (t : Trace)
      → IsConsistent c
      → IsConsistent (http_open out host port use_tls c t).1
  unfolding http_open ◌>>=◌
  http_open-Consistent host port use_tls c t v = elim (Bool-cases (is_neg c.http_socket_id)) [
    | inl e ↦ rw e (
        open_on-Consistent host port use_tls _ _ _
          ((get_st87_stack-Keeps out Idle).at c t (IsIdle-of c e v)))
    | inr e ↦ rw e (
        open_on-Consistent host port use_tls _ _ _
          ((get_st87_stack-Keeps out Idle).at _ _ (http_close-Idle c t v)))
  ]
