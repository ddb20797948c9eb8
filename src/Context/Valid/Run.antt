-- ===== src/Context/Valid/Run.antt =====
-- The receive buffers under every sequence of a context's operations.
use mbed_ce_st87m.Common.{ℕ, Bool, true, false, Option, none, some, List, [], ◌∷◌, ℤ, is_neg}
use mbed_ce_st87m.At.{Trace, Action}
use mbed_ce_st87m.At.Keeps.{
  Keeps, Keeps-if, Keeps-bind, Keeps-pure, Keeps-state, Keeps-modify, keeps_rules,
}
use mbed_ce_st87m.Stack.Types.{Stack}
use mbed_ce_st87m.Stack.Valid.{BufferLaws}
use mbed_ce_st87m.Stack.Valid.Sessions.{get_ip_address-Safe}
use mbed_ce_st87m.Context.{
  Context, Outside, close_all, read_ip_address, get_context_ip_address, destroy,
}
use mbed_ce_st87m.Context.Choice.{PdpType}
use mbed_ce_st87m.Context.Select.{read_line, reuse_line, adopt, reuse_context, get_context}
use mbed_ce_st87m.Context.Calls.{ContextCall, run, run_all}
use mbed_ce_st87m.Context.Valid.{
  Keeps-given, Fits, IsFit, IsSound, on_stack-Keeps, delete_client-Keeps, on_client-Keeps,
  deactivate_context-Keeps, select_existing_cid-Keeps, get_st87_stack-Gives, close_all_on-Keeps,
  http_close-Keeps, http_open-Keeps,
}

module _ {P : Type 0} (out : Outside P) (room : P → ℕ) (laws : BufferLaws out.env room)
    (sound : IsSound out room) where
  abbrev Kept : {A : Type 0} → Action (Context P) A → Type 0
  Kept = Keeps (IsFit out room)

  close_all-Kept : Kept (close_all out)
  unfolding close_all
  close_all-Kept = Keeps-state _ λ c v. close_all_on-Keeps out room laws sound c.stack v

  read_ip_address-Kept :
      (c : Context P) (s : Option (Stack P)) → Fits out room s → Kept (read_ip_address out true c s)
  unfolding read_ip_address
  read_ip_address-Kept c none fit = Keeps-pure _
  read_ip_address-Kept c (some s) fit =
      Keeps-bind _ _ (on_stack-Keeps out room _ _ fit (get_ip_address-Safe out.env room laws true))
        (λ answer. Keeps-pure _)

  get_context_ip_address-Kept : (b : Bool) → Kept (get_context_ip_address out b)
  unfolding get_context_ip_address
  get_context_ip_address-Kept false = Keeps-pure _
  get_context_ip_address-Kept true =
      Keeps-given (Fits out room) _ _ (get_st87_stack-Gives out room laws sound)
        λ s fit. Keeps-bind _ _ (search keeps_rules) (λ c. read_ip_address-Kept c s fit)

  destroy-Kept : Kept (destroy out)
  unfolding destroy
  destroy-Kept = Keeps-bind _ _ (search keeps_rules) λ c.
      Keeps-bind _ _
        (Keeps-if (is_neg c.http_socket_id) _ _ (Keeps-pure _)
          (Keeps-bind _ _ (http_close-Keeps out room laws sound) (λ _. Keeps-pure tt)))
        (λ _.
          Keeps-bind _ _ (search keeps_rules) (λ c'. delete_client-Keeps out room c'.http_client))

  -- The stack learns the context's new cid, and nothing else of it changes.
  renumbered :
      (s : Option (Stack P)) (k : ℤ)
      → Fits out room s
      → Fits out room (elim s [ none ↦ none | some stack ↦ some (record stack { cid = k }) ])
  renumbered none k fit = tt
  renumbered (some stack) k fit = fit

  adopt-Kept : (k : ℤ) (pdp : PdpType) (apn : List ℕ) → Kept (adopt out k pdp apn)
  unfolding adopt
  adopt-Kept k pdp apn = Keeps-bind _ _ (search keeps_rules) λ _.
      Keeps-bind _ _ (sound.sound_active k) λ active. Keeps-bind _ _ (search keeps_rules) λ _.
        Keeps-bind _ _ (Keeps-modify _ (λ c v. renumbered c.stack k v))
          (λ _. search keeps_rules depth 20)

  reuse_context-Kept : (pdp : PdpType) (apn : List ℕ) → Kept (reuse_context out pdp apn)
  unfolding reuse_context reuse_line read_line
  reuse_context-Kept pdp apn = Keeps-bind _ _ (search keeps_rules) λ _.
      Keeps-bind _ _ (search keeps_rules depth 20) λ k. Keeps-bind _ _ (search keeps_rules) λ _.
        Keeps-if (is_neg k) _ _ (Keeps-bind _ _ (search keeps_rules) (λ _. sound.sound_context))
          (search (keeps_rules, adopt-Kept) depth 20)

  get_context-Kept : Kept (get_context out)
  unfolding get_context
  get_context-Kept = Keeps-bind _ _ (search keeps_rules) λ _.
      Keeps-bind _ _ (select_existing_cid-Keeps out room) λ selected.
        Keeps-bind _ _ (search keeps_rules) λ err.
          Keeps-bind _ _ (search keeps_rules)
            λ _. Keeps-if _ _ _ (reuse_context-Kept _ _) (adopt-Kept _ _ _)

  run-Kept : (c : ContextCall) → Kept (run out c)
  unfolding run
  run-Kept ContextCall.choose = Keeps-bind _ _ get_context-Kept (λ _. Keeps-pure tt)
  run-Kept ContextCall.deactivate = deactivate_context-Keeps out room
  run-Kept ContextCall.close_sockets = Keeps-bind _ _ close_all-Kept (λ _. Keeps-pure tt)
  run-Kept ContextCall.close_http =
      Keeps-bind _ _ (http_close-Keeps out room laws sound) (λ _. Keeps-pure tt)
  run-Kept ContextCall.release = destroy-Kept
  run-Kept (ContextCall.ask_address b) =
      Keeps-bind _ _ (get_context_ip_address-Kept b) (λ _. Keeps-pure tt)
  run-Kept (ContextCall.open_http host port use_tls) =
      Keeps-bind _ _ (http_open-Keeps out room laws sound host port use_tls) (λ _. Keeps-pure tt)
  run-Kept (ContextCall.fetch host path r) = on_client-Keeps out room _
  run-Kept (ContextCall.submit host path content_type body len r) = on_client-Keeps out room _

  run_all-Kept : (cs : List ContextCall) → Kept (run_all out cs)
  unfolding run_all
  run_all-Kept [] = Keeps-pure _
  run_all-Kept (c ∷ cs) = Keeps-bind _ _ (run-Kept c) (λ _. run_all-Kept cs)

  -- Whatever public operations of a context run one after another, and whatever the modem answers,
  -- the context has no stack or one in a valid state: the blocks in its pool and the ids with a
  -- receive buffer are seven together, and every receive buffer is within its array. It is for a
  -- context whose stack, if it has one, is valid, a pool and a read_bytes that keep their laws, a
  -- base class that makes valid stacks, and base-class operations that keep them so.
  pub run_all-IsFit :
      (cs : List ContextCall) (c : Context P) (t : Trace)
      → IsFit out room c
      → IsFit out room (run_all out cs c t).1
  run_all-IsFit cs c t v = (run_all-Kept cs).at c t v
