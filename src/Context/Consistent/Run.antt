-- ===== src/Context/Consistent/Run.antt =====
-- The agreement of session and client under every public operation of the context.
use mbed_ce_st87m.Common.{
  ℕ, ◌≡◌, refl, ◌⊎◌, inl, inr, Bool, true, false, Option, none, some, List, [], ◌∷◌, ℤ, is_neg,
  Bool-cases,
}
use mbed_ce_st87m.At.{Trace, Action, ◌>>=◌}
use mbed_ce_st87m.At.Keeps.{Keeps, keeps_rules, Keeps-if, Keeps-bind, Keeps-pure}
use mbed_ce_st87m.Http.{Http}
use mbed_ce_st87m.Http.Reply.{Response}
use mbed_ce_st87m.Http.Requests.{
  get-Keeps, post-Keeps, ensure_started_stopped, ensure_started_running,
}
use mbed_ce_st87m.Stack.Types.{Stack}
use mbed_ce_st87m.Context.{
  Context, Outside, modem_of, on_http, client_for, get_http_client, close_all_on, close_all,
  read_ip_address, get_context_ip_address, delete_client, destroy,
}
use mbed_ce_st87m.Context.Choice.{PdpType}
use mbed_ce_st87m.Context.Select.{
  active_line, read_line, context_line, select_existing_cid, reuse_line, adopt, reuse_context,
  get_context, deactivate_context,
}
use mbed_ce_st87m.Context.Calls.{ContextCall, on_client, run, run_all}
use mbed_ce_st87m.Context.Consistent.{
  IsIdle, IsStopped, IsRunning, IsConsistent, IsIdle-of, on_stack-Keeps, get_st87_stack-Keeps,
  http_close-Idle, http_open-Consistent,
}

-- What the base class's get_context and the network's is_active_context leave alone.
pub record IsAside {P : Type 0} (out : Outside P) : Type 0 where
  pub aside_context : Keeps IsConsistent out.base_get_context
  pub aside_active : (cid : ℤ) → Keeps IsConsistent (out.is_active_context cid)

abbrev Agrees : ℤ → Option Http → Type 0
Agrees k h = ((is_neg k ≡ true) × IsStopped h) ⊎ IsRunning k h

module _ {P : Type 0} (out : Outside P) where
  close_all-Keeps : Keeps IsConsistent (close_all out)
  unfolding close_all
  close_all-Keeps = Keeps-bind _ _ (search keeps_rules) (λ c. close_all_on-Keeps c.stack)
    where
      close_all_on-Keeps : (s : Option (Stack P)) → Keeps IsConsistent (close_all_on out s)
      close_all_on-Keeps none = unfold close_all_on in Keeps-pure _
      close_all_on-Keeps (some s) = unfold close_all_on in on_stack-Keeps out Agrees s _

  read_ip_address-Keeps :
      (c : Context P) (s : Option (Stack P)) → Keeps IsConsistent (read_ip_address out true c s)
  unfolding read_ip_address
  read_ip_address-Keeps c none = Keeps-pure _
  read_ip_address-Keeps c (some s) =
      Keeps-bind _ _ (on_stack-Keeps out Agrees _ _) (λ answer. Keeps-pure _)

  get_context_ip_address-Keeps : (b : Bool) → Keeps IsConsistent (get_context_ip_address out b)
  unfolding get_context_ip_address
  get_context_ip_address-Keeps false = Keeps-pure _
  get_context_ip_address-Keeps true =
      Keeps-bind _ _ (get_st87_stack-Keeps out Agrees)
        λ s. Keeps-bind _ _ (search keeps_rules) (λ c. read_ip_address-Keeps c s)

  -- A request on the client, whether there is a session or not.
  on_client-Keeps :
      (m : Action Http Response)
      → Keeps (λ h. IsStopped (some h)) m
      → ((k : ℤ) → Keeps (λ h. IsRunning k (some h)) m)
      → Keeps IsConsistent (on_client out m)
  unfolding on_client get_http_client client_for on_http ◌>>=◌
  on_client-Keeps m stopped running = record { at = λ c t v. go c t c.http_client v }
    where
      go :
          (c : Context P) (t : Trace) (h : Option Http)
          → Agrees c.http_socket_id h
          → IsConsistent (on_client out m (record c { http_client = h }) t).1
      go c t none (inl (off, s)) = inl (off, stopped.at _ t (refl, refl))
      go c t none (inr r) = absurd r
      go c t (some h) (inl (off, s)) = inl (off, stopped.at h t s)
      go c t (some h) (inr r) = inr ((running c.http_socket_id).at h t r)

  destroy-Idle : (c : Context P) (t : Trace) → IsConsistent c → IsIdle (destroy out c t).1
  unfolding destroy ◌>>=◌
  destroy-Idle c t v = elim (Bool-cases (is_neg c.http_socket_id)) [
    | inl e ↦ rw e (deleted c.http_client c t refl (IsIdle-of c e v))
    | inr e ↦ rw e (deleted _ _ _ refl (http_close-Idle out c t v))
  ]
    where
      deleted :
          (h : Option Http) (c' : Context P) (t' : Trace)
          → c'.http_client ≡ h
          → IsIdle c'
          → IsIdle (delete_client out h c' t').1
      deleted none c' t' e idle = unfold delete_client in idle
      deleted (some h) c' t' e idle = unfold delete_client on_http in (idle.0, tt)

  deactivate_context-Keeps : Keeps IsConsistent (deactivate_context out)
  unfolding deactivate_context
  deactivate_context-Keeps = search keeps_rules depth 20

  select_existing_cid-Keeps : Keeps IsConsistent (select_existing_cid out)
  unfolding select_existing_cid active_line context_line read_line
  select_existing_cid-Keeps = search keeps_rules depth 30

module _ {P : Type 0} (out : Outside P) (aside : IsAside out) where
  adopt-Keeps : (k : ℤ) (pdp : PdpType) (apn : List ℕ) → Keeps IsConsistent (adopt out k pdp apn)
  unfolding adopt
  adopt-Keeps k pdp apn =
      Keeps-bind _ _ (search keeps_rules)
        λ _. Keeps-bind _ _ (aside.aside_active k) (λ active. search keeps_rules depth 20)

  reuse_context-Keeps :
      (pdp : PdpType) (apn : List ℕ) → Keeps IsConsistent (reuse_context out pdp apn)
  unfolding reuse_context reuse_line read_line
  reuse_context-Keeps pdp apn = Keeps-bind _ _ (search keeps_rules) λ _.
      Keeps-bind _ _ (search keeps_rules depth 20) λ k. Keeps-bind _ _ (search keeps_rules) λ _.
        Keeps-if (is_neg k) _ _ (Keeps-bind _ _ (search keeps_rules) (λ _. aside.aside_context))
          (search (keeps_rules, adopt-Keeps) depth 20)

  get_context-Keeps : Keeps IsConsistent (get_context out)
  unfolding get_context
  get_context-Keeps =
      search (keeps_rules, select_existing_cid-Keeps, reuse_context-Keeps, adopt-Keeps) depth 20

  run-Keeps : (c : ContextCall) → Keeps IsConsistent (run out c)
  unfolding run ◌>>=◌
  run-Keeps ContextCall.choose = Keeps-bind _ _ get_context-Keeps (λ _. Keeps-pure tt)
  run-Keeps ContextCall.deactivate = deactivate_context-Keeps out
  run-Keeps ContextCall.close_sockets = Keeps-bind _ _ (close_all-Keeps out) (λ _. Keeps-pure tt)
  run-Keeps ContextCall.close_http = record { at = λ c t v. inl (http_close-Idle out c t v) }
  run-Keeps ContextCall.release = record { at = λ c t v. inl (destroy-Idle out c t v) }
  run-Keeps (ContextCall.ask_address b) =
      Keeps-bind _ _ (get_context_ip_address-Keeps out b) (λ _. Keeps-pure tt)
  run-Keeps (ContextCall.open_http host port use_tls) = record {
    at = λ c t v. http_open-Consistent out host port use_tls c t v;
  }
  run-Keeps (ContextCall.fetch host path r) =
      let modem = modem_of out in
      on_client-Keeps out _ (get-Keeps modem _ (ensure_started_stopped modem) host path r)
        (λ k. get-Keeps modem _ (ensure_started_running modem k) host path r)
  run-Keeps (ContextCall.submit host path content_type body len r) =
      let modem = modem_of out in
      on_client-Keeps out _
        (post-Keeps modem _ (ensure_started_stopped modem) host path content_type body len r)
        (λ k. post-Keeps modem _ (ensure_started_running modem k) host path content_type body len r)

  run_all-Keeps : (cs : List ContextCall) → Keeps IsConsistent (run_all out cs)
  unfolding run_all
  run_all-Keeps [] = Keeps-pure _
  run_all-Keeps (c ∷ cs) = Keeps-bind _ _ (run-Keeps c) (λ _. run_all-Keeps cs)

  -- Whatever public operations of a context run one after another, requests on its HTTP client
  -- among them, and whatever the modem answers, session and client agree. Either the context has
  -- no session, and its client, if there is one, is stopped and on no socket; or it has one on an id
  -- from 0 to 6, and the client runs on exactly that socket. It is for a context where they agree,
  -- and base-class operations that keep it so.
  pub run_all-IsConsistent :
      (cs : List ContextCall) (c : Context P) (t : Trace)
      → IsConsistent c
      → IsConsistent (run_all out cs c t).1
  run_all-IsConsistent cs c t v = (run_all-Keeps cs).at c t v
