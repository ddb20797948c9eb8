-- ===== src/Context/Sessions.antt =====
-- What http_open leaves behind: a session exactly when it succeeds.
use mathlib.Core.Bool.{false≢true}
use mbed_ce_st87m.Common.{
  ℕ, ◌≡◌, refl, sym, ap, ◌∙◌, inl, inr, Bool, true, false, not, Option, none, some, List, ℤ, is_neg,
  below, if◌then◌else◌, Bool-cases,
}
use mbed_ce_st87m.At.{
  NsapiError, ok, is_ok, parameter, no_connection, Trace, Action, pure, modify, ◌>>=◌, ◌>>◌,
}
use mbed_ce_st87m.At.Keeps.{Keeps, keeps_rules}
use mbed_ce_st87m.Stack.Types.{Stack}
use mbed_ce_st87m.Http.{Http, attach_socket}
use mbed_ce_st87m.Context.{
  Context, Outside, on_stack, on_http, stack_for, get_stack, ensure_stack, get_st87_stack,
  client_for, get_http_client, close_session_on, http_close, start_session, attach_session, open_on,
  http_open, modem_of, get_context_state,
}

module _ {P : Type 0} (out : Outside P) where
  abbrev IsIdle : Context P → Type 0
  IsIdle c = is_neg c.http_socket_id ≡ true

  abbrev Idle : {A : Type 0} → Action (Context P) A → Type 0
  Idle = Keeps IsIdle

  on_stack-Idle : {A : Type 0} (s : Stack P) (m : Action (Stack P) A) → Idle (on_stack s m)
  unfolding on_stack
  on_stack-Idle s m = record { at = λ c t v. v }

  on_http-Idle : {A : Type 0} (h : Http) (m : Action Http A) → Idle (on_http h m)
  unfolding on_http
  on_http-Idle h m = record { at = λ c t v. v }

  stack_for-Idle : (c : Context P) (s : Option (Stack P)) → Idle (stack_for out c s)
  unfolding stack_for
  stack_for-Idle c none = search (keeps_rules, on_stack-Idle) depth 20
  stack_for-Idle c (some s) = search keeps_rules depth 20

  ensure_stack-Idle : (s : Option (Stack P)) → Idle (ensure_stack out s)
  unfolding ensure_stack get_stack
  ensure_stack-Idle none = search (keeps_rules, stack_for-Idle) depth 20
  ensure_stack-Idle (some s) = search keeps_rules

  get_st87_stack-Idle : Idle (get_st87_stack out)
  unfolding get_st87_stack
  get_st87_stack-Idle = search (keeps_rules, ensure_stack-Idle) depth 20

  client_for-Idle : (c : Context P) (h : Option Http) → Idle (client_for out c h)
  unfolding client_for
  client_for-Idle c none = search keeps_rules depth 20
  client_for-Idle c (some h) = search keeps_rules

  close_session_on-Idle : (s : Option (Stack P)) (k : ℤ) → Idle (close_session_on out s k)
  unfolding close_session_on
  close_session_on-Idle none k = search keeps_rules
  close_session_on-Idle (some s) k = search (keeps_rules, on_stack-Idle) depth 20

  -- An error leaves no session; success leaves one, on a socket with an id of the modem's.
  abbrev pub IsSettled : NsapiError → Context P → Type 0
  IsSettled err c =
      if is_ok err then below c.http_socket_id 7 ≡ true else is_neg c.http_socket_id ≡ true

  record Settles (m : Action (Context P) NsapiError) : Type 0 where
    at : (c : Context P) (t : Trace) → IsIdle c → IsSettled (m c t).0 (m c t).1

  Settles-bind :
      {A : Type 0} (m : Action (Context P) A) (f : A → Action (Context P) NsapiError)
      → Idle m
      → ((a : A) → Settles (f a))
      → Settles (m >>= f)
  unfolding ◌>>=◌
  Settles-bind m f km sf = record {
    at = λ c t v. let (a, c', t') = m c t in (sf a).at c' t' (km.at c t v);
  }

  Settles-failed : (err : NsapiError) → is_ok err ≡ false → Settles (pure err)
  unfolding pure
  Settles-failed err e = record { at = λ c t v. rw e v }

  opened-Settles :
      (k : ℤ)
      → below k 7 ≡ true
      → Settles (do modify (λ c. record c { http_socket_id = k }); pure ok)
  unfolding ◌>>=◌ is_ok
  opened-Settles k good = record { at = λ c t v. good }

  start_session-Settles : (k : ℤ) (h : Http) → below k 7 ≡ true → Settles (start_session out k h)
  unfolding start_session
  start_session-Settles k h good = Settles-bind _ _ (on_http-Idle h _) λ err.
      Settles-bind _ _ (search keeps_rules) λ c. elim (Bool-cases (is_ok err)) [
        | inl e ↦ rw e (opened-Settles k good)
        | inr e ↦ rw e (
            Settles-bind _ _ (client_for-Idle c _) λ h'.
              Settles-bind _ _ (on_http-Idle h' _)
                λ _. Settles-bind _ _ (close_session_on-Idle _ k) λ _. Settles-failed err e)
      ]

  -- attach_socket fails for an id that is not from 0 to 6.
  refused_id :
      (k : ℤ) (h : Http) (t : Trace)
      → below k 7 ≡ false
      → (attach_socket (modem_of out) k h t).0 ≡ parameter
  unfolding attach_socket ◌>>=◌
  refused_id k h t e = rw e refl

  get_http_client-Idle : Idle (get_http_client out)
  unfolding get_http_client
  get_http_client-Idle = search (keeps_rules, client_for-Idle) depth 20

  -- What attach_session does with the outcome of attach_socket.
  attached-Settles :
      (k : ℤ) (err : NsapiError)
      → (is_ok err ≡ true → below k 7 ≡ true)
      → Settles (do
        c ← get_context_state
        if not (is_ok err)
            then (do _ ← close_session_on out c.stack k; pure err)
            else (do h ← client_for out c c.http_client; start_session out k h))
  attached-Settles k err known = Settles-bind _ _ (search keeps_rules) λ c.
      elim (Bool-cases (is_ok err)) [
        | inl e ↦
            rw e (Settles-bind _ _ (client_for-Idle c _) λ h. start_session-Settles k h (known e))
        | inr e ↦ rw e (Settles-bind _ _ (close_session_on-Idle _ k) λ _. Settles-failed err e)
      ]

  attached_known :
      (k : ℤ) (h : Http) (c : Context P) (t : Trace)
      → is_ok (on_http h (attach_socket (modem_of out) k) c t).0 ≡ true
      → below k 7 ≡ true
  unfolding on_http is_ok
  attached_known k h c t e = elim (Bool-cases (below k 7)) [
    | inl b ↦ b
    | inr b ↦ absurd (false≢true (ap is_ok (sym (refused_id k h t b)) ∙ e))
  ]

  attach_session-Settles : (k : ℤ) → Settles (attach_session out k)
  unfolding attach_session
  attach_session-Settles k = Settles-bind _ _ get_http_client-Idle λ h. record {
    at = λ c t v.
        let r = on_http h (attach_socket (modem_of out) k) c t in
        unfold ◌>>=◌ in
        (attached-Settles k r.0 (attached_known k h c t)).at r.1 r.2 ((on_http-Idle h _).at c t v);
  }

  open_on-Settles :
      (host : Option (List ℕ)) (port : ℕ) (use_tls : Bool) (s : Option (Stack P))
      → Settles (open_on out host port use_tls s)
  unfolding open_on is_ok
  open_on-Settles host port use_tls none = Settles-failed no_connection refl
  open_on-Settles host port use_tls (some s) = Settles-bind _ _ (on_stack-Idle s _) λ (err, k).
      elim (Bool-cases (is_ok err)) [
        | inl e ↦ rw e (attach_session-Settles k)
        | inr e ↦ rw e (Settles-failed err e)
      ]

  close_first :
      (c : Context P) (t : Trace) → is_neg c.http_socket_id ≡ false → IsIdle (http_close out c t).1
  unfolding http_close ◌>>=◌
  close_first c t e = rw e refl

  -- After http_open, whatever the modem answered and whether or not a session was open before:
  -- if it succeeded, the context's HTTP socket is an id from 0 to 6, and if it failed, the context
  -- has no HTTP session.
  pub http_open-IsSettled :
      (host : Option (List ℕ)) (port : ℕ) (use_tls : Bool) (c : Context P) (t : Trace)
      → IsSettled (http_open out host port use_tls c t).0 (http_open out host port use_tls c t).1
  unfolding http_open ◌>>=◌
  http_open-IsSettled host port use_tls c t =
      let rest = Settles-bind _ _ get_st87_stack-Idle (λ s. open_on-Settles host port use_tls s) in
      elim (Bool-cases (is_neg c.http_socket_id)) [
        | inl e ↦ rw e (rest.at c t e)
        | inr e ↦ rw e (rest.at _ _ (close_first c t e))
      ]
