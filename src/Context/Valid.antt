-- ===== src/Context/Valid.antt =====
-- The receive buffers of a context's stack under everything that the context does with it.
pub mod Run
use mbed_ce_st87m.Common.{
  ℕ, ◌≡◌, refl, Bool, true, false, not, Option, none, some, List, [], ◌∷◌, ℤ, is_neg, inl, inr,
}
use mbed_ce_st87m.At.{NsapiError, is_ok, Trace, Action, pure, modify, ◌>>=◌, ◌>>◌}
use mbed_ce_st87m.At.Keeps.{
  Keeps, Keeps-if, Keeps-bind, Keeps-pure, Keeps-state, Keeps-modify, keeps_rules,
}
use mbed_ce_st87m.At.Gives.{Gives}
use mbed_ce_st87m.Http.{Http}
use mbed_ce_st87m.Http.Reply.{Response}
use mbed_ce_st87m.Stack.Types.{Stack}
use mbed_ce_st87m.Stack.Valid.{BufferLaws, IsValid}
use mbed_ce_st87m.Stack.Valid.Operations.{close_all_sockets-Safe}
use mbed_ce_st87m.Stack.Valid.Sessions.{
  IsSafe, get_ip_address-Safe, start_stack-Safe, close_tcp_session-Safe, open_tcp_session-Safe,
}
use mbed_ce_st87m.Context.{
  Context, Outside, modem_of, on_stack, on_http, new_stack, stack_for, get_stack, ensure_stack,
  get_st87_stack, close_all_on, close_all, client_for, get_http_client, stop_client,
  close_session_on, http_close, start_session, attach_session, open_on, http_open, read_ip_address,
  get_context_ip_address, delete_client, destroy,
}
use mbed_ce_st87m.Context.Choice.{PdpType}
use mbed_ce_st87m.Context.Select.{
  active_line, read_line, context_line, select_existing_cid, reuse_line, adopt, reuse_context,
  get_context, deactivate_context,
}
use mbed_ce_st87m.Context.Calls.{ContextCall, on_client, run, run_all}

-- Keeping the invariant, with what a step says of its result.
pub Keeps-given :
    {S A B : Type 0} {I : S → Type 0} (R : A → Type 0) (x : Action S A) (f : A → Action S B)
    → Gives I (λ a s. I s × R a) x
    → ((a : A) → R a → Keeps I (f a))
    → Keeps I (x >>= f)
unfolding ◌>>=◌
Keeps-given R x f g k = record {
  at = λ s t i. let (a, s', t') = x s t in let (i', r) = g.at s t i in (k a r).at s' t' i';
}

module _ {P : Type 0} (out : Outside P) (room : P → ℕ) where
  -- The stack, where there is one, is valid.
  abbrev pub Fits : Option (Stack P) → Type 0
  Fits none = Unit {0}
  Fits (some stack) = IsValid out.env room stack

  abbrev pub IsFit : Context P → Type 0
  IsFit c = Fits c.stack

  -- What the base classes keep, and a new stack has its seven blocks in the pool.
  pub record IsSound : Type 0 where
    pub sound_base : IsSafe out.env room out.base
    pub sound_new : (cid : ℤ) (pdp : PdpType) → IsValid out.env room (new_stack out cid pdp)
    pub sound_context : Keeps IsFit out.base_get_context
    pub sound_active : (cid : ℤ) → Keeps IsFit (out.is_active_context cid)

module _ {P : Type 0} (out : Outside P) (room : P → ℕ) where
  -- A step that does not touch the stack.
  on_http-Keeps : {A : Type 0} (h : Http) (m : Action Http A) → Keeps (IsFit out room) (on_http h m)
  unfolding on_http
  on_http-Keeps h m = record { at = λ c t v. v }

  pub on_stack-Keeps :
      {A : Type 0} (s : Stack P) (m : Action (Stack P) A)
      → IsValid out.env room s
      → Keeps (IsValid out.env room) m
      → Keeps (IsFit out room) (on_stack s m)
  unfolding on_stack
  on_stack-Keeps s m valid keeps = record { at = λ c t v. keeps.at s t valid }

  pub client_for-Keeps :
      (c : Context P) (h : Option Http) → Keeps (IsFit out room) (client_for out c h)
  unfolding client_for
  client_for-Keeps c none = search keeps_rules depth 20
  client_for-Keeps c (some h) = search keeps_rules

  stop_client-Keeps : (h : Option Http) → Keeps (IsFit out room) (stop_client out h)
  unfolding stop_client
  stop_client-Keeps none = Keeps-pure _
  stop_client-Keeps (some h) = on_http-Keeps h _

  pub delete_client-Keeps : (h : Option Http) → Keeps (IsFit out room) (delete_client out h)
  unfolding delete_client
  delete_client-Keeps none = Keeps-pure _
  delete_client-Keeps (some h) = Keeps-bind _ _ (on_http-Keeps h _) (λ _. search keeps_rules)

  pub on_client-Keeps : (m : Action Http Response) → Keeps (IsFit out room) (on_client out m)
  unfolding on_client get_http_client
  on_client-Keeps m = search (keeps_rules, client_for-Keeps, on_http-Keeps) depth 20

  pub deactivate_context-Keeps : Keeps (IsFit out room) (deactivate_context out)
  unfolding deactivate_context
  deactivate_context-Keeps = search keeps_rules depth 20

  pub select_existing_cid-Keeps : Keeps (IsFit out room) (select_existing_cid out)
  unfolding select_existing_cid active_line context_line read_line
  select_existing_cid-Keeps = search keeps_rules depth 30

module _ {P : Type 0} (out : Outside P) (room : P → ℕ) (laws : BufferLaws out.env room)
    (sound : IsSound out room) where
  stack_for-Keeps :
      (c : Context P) (s : Option (Stack P))
      → Fits out room s
      → Keeps (IsFit out room) (stack_for out c s)
  unfolding stack_for
  stack_for-Keeps c none fit =
      Keeps-bind _ _
        (on_stack-Keeps out room _ _ (sound.sound_new c.cid c.pdp_type)
          (start_stack-Safe out.env room laws))
        (λ _. Keeps-pure true)
  stack_for-Keeps c (some s) fit =
      Keeps-bind _ _ (Keeps-modify _ (λ c' v. fit)) (λ _. Keeps-pure true)

  ensure_stack-Keeps : (s : Option (Stack P)) → Keeps (IsFit out room) (ensure_stack out s)
  unfolding ensure_stack get_stack
  ensure_stack-Keeps none =
      Keeps-state _ λ c v. Keeps-if _ _ _ (Keeps-pure false) (stack_for-Keeps c c.stack v)
  ensure_stack-Keeps (some s) = Keeps-pure true

  -- The stack that it hands out is the context's.
  pub get_st87_stack-Gives :
      Gives (IsFit out room) (λ s c. IsFit out room c × Fits out room s) (get_st87_stack out)
  unfolding get_st87_stack ◌>>=◌
  get_st87_stack-Gives = record {
    at = λ c t v. let v' = (ensure_stack-Keeps c.stack).at c t v in (v', v');
  }

  pub close_all_on-Keeps :
      (s : Option (Stack P)) → Fits out room s → Keeps (IsFit out room) (close_all_on out s)
  unfolding close_all_on
  close_all_on-Keeps none fit = Keeps-pure _
  close_all_on-Keeps (some s) fit =
      on_stack-Keeps out room s _ fit (close_all_sockets-Safe out.env room laws)

  close_session_on-Keeps :
      (s : Option (Stack P)) (k : ℤ)
      → Fits out room s
      → Keeps (IsFit out room) (close_session_on out s k)
  unfolding close_session_on
  close_session_on-Keeps none k fit = Keeps-pure _
  close_session_on-Keeps (some s) k fit =
      on_stack-Keeps out room s _ fit (close_tcp_session-Safe out.env room laws k)

  pub http_close-Keeps : Keeps (IsFit out room) (http_close out)
  unfolding http_close
  http_close-Keeps = Keeps-bind _ _ (search keeps_rules) λ c. Keeps-if _ _ _ (Keeps-pure _) (
      Keeps-bind _ _ (stop_client-Keeps out room c.http_client) λ _.
        Keeps-given (Fits out room) _ _ get_st87_stack-Gives λ s fit.
          Keeps-bind _ _ (close_session_on-Keeps s c.http_socket_id fit)
            (λ err. search keeps_rules depth 10))

  start_session-Keeps : (k : ℤ) (h : Http) → Keeps (IsFit out room) (start_session out k h)
  unfolding start_session
  start_session-Keeps k h = Keeps-bind _ _ (on_http-Keeps out room h _) λ err. Keeps-state _ λ c v.
      Keeps-if (is_ok err) _ _ (search keeps_rules depth 10) (
        Keeps-bind _ _ (client_for-Keeps out room c c.http_client) λ h'.
          Keeps-bind _ _ (on_http-Keeps out room h' _)
            λ _. Keeps-bind _ _ (close_session_on-Keeps c.stack k v) (λ _. Keeps-pure err))

  attach_session-Keeps : (k : ℤ) → Keeps (IsFit out room) (attach_session out k)
  unfolding attach_session get_http_client
  attach_session-Keeps k =
      let clients = client_for-Keeps out room in
      Keeps-bind _ _ (search (keeps_rules, clients) depth 10) λ h.
        Keeps-bind _ _ (on_http-Keeps out room h _) λ err. Keeps-state _ λ c v.
          Keeps-if (not (is_ok err)) _ _
            (Keeps-bind _ _ (close_session_on-Keeps c.stack k v) (λ _. Keeps-pure err))
            (Keeps-bind _ _ (clients c c.http_client) (λ h'. start_session-Keeps k h'))

  open_on-Keeps :
      (host : Option (List ℕ)) (port : ℕ) (use_tls : Bool) (s : Option (Stack P))
      → Fits out room s
      → Keeps (IsFit out room) (open_on out host port use_tls s)
  unfolding open_on
  open_on-Keeps host port use_tls none fit = Keeps-pure _
  open_on-Keeps host port use_tls (some s) fit =
      Keeps-bind _ _
        (on_stack-Keeps out room s _ fit
          (open_tcp_session-Safe out.env room laws out.base sound.sound_base host port use_tls))
        λ opened. Keeps-if (not (is_ok opened.0)) _ _ (Keeps-pure _) (attach_session-Keeps opened.1)

  pub http_open-Keeps :
      (host : Option (List ℕ)) (port : ℕ) (use_tls : Bool)
      → Keeps (IsFit out room) (http_open out host port use_tls)
  unfolding http_open
  http_open-Keeps host port use_tls = Keeps-bind _ _ (search keeps_rules) λ c.
      Keeps-bind _ _ (search (keeps_rules, http_close-Keeps) depth 10)
        λ _. Keeps-given (Fits out room) _ _ get_st87_stack-Gives (open_on-Keeps host port use_tls)
