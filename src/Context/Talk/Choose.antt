-- ===== src/Context/Talk/Choose.antt =====
-- The conversations of get_context, and those of the whole context.
use mbed_ce_st87m.Common.{ℕ, suc, ◌≡◌, Bool, List, [], ◌∷◌, ℤ, is_neg}
use mbed_ce_st87m.At.{Action, Trace}
use mbed_ce_st87m.At.Talk.{
  talk, quiet, reading, Stays, Moves-if, Moves-pure, Moves-call_then, Moves-calls_then,
  Moves-back_then, talk_rules,
}
use mbed_ce_st87m.Context.{Context, Outside, modem_of, get_http_client}
use mbed_ce_st87m.Context.Calls.{ContextCall, on_client, run, run_all}
use mbed_ce_st87m.Http.{Http}
use mbed_ce_st87m.Http.Reply.{Response}
use mbed_ce_st87m.Http.Talk.{get-Tidy, post-Tidy}
use mbed_ce_st87m.Context.Choice.{PdpType, Chosen}
use mbed_ce_st87m.Context.Select.{
  active_line, read_line, context_line, select_existing_cid, reuse_line, adopt, reuse_context,
  get_context,
}
use mbed_ce_st87m.Context.Talk.{
  IsPolite, client_for-Stays, on_http-Moves, close_all-Stays, http_close-Stays, http_open-Stays,
  get_context_ip_address-Stays, destroy-Stays, deactivate_context-Stays,
}

module _ {P : Type 0} (out : Outside P) {n : ℕ} where
  active_line-Stays : (table : ℤ → Bool) → Stays (reading n) (active_line out table)
  unfolding active_line
  active_line-Stays table = search talk_rules depth 20

  context_line-Stays :
      (table : ℤ → Bool) (best : Chosen) → Stays (reading n) (context_line out table best)
  unfolding context_line read_line
  context_line-Stays table best = search talk_rules depth 20

  reuse_line-Stays : (k : ℤ) → Stays (reading n) (reuse_line out k)
  unfolding reuse_line read_line
  reuse_line-Stays k = search talk_rules depth 20

module _ {P : Type 0} (out : Outside P) {n : ℕ} where
  select_existing_cid-Stays : Stays (quiet (suc n)) (select_existing_cid out)
  unfolding select_existing_cid
  select_existing_cid-Stays = search (talk_rules, active_line-Stays, context_line-Stays) depth 30

module _ {P : Type 0} (out : Outside P) (base : IsPolite out) {n : ℕ} where
  adopt-Stays : (k : ℤ) (pdp : PdpType) (apn : List ℕ) → Stays (quiet n) (adopt out k pdp apn)
  unfolding adopt
  adopt-Stays k pdp apn =
      Moves-call_then _ _
        (Moves-back_then _ _ (base.polite_active (suc n) k) (λ active. search talk_rules depth 20))

  reuse_context-Stays : (pdp : PdpType) (apn : List ℕ) → Stays (quiet n) (reuse_context out pdp apn)
  unfolding reuse_context
  reuse_context-Stays pdp apn = Moves-calls_then _ _ (
      Moves-back_then _ _ (search (talk_rules, reuse_line-Stays) depth 10) λ k.
        Moves-call_then _ _ (
          Moves-if (is_neg k) _ _ (Moves-call_then _ _ (base.polite_context n))
            (search (talk_rules, adopt-Stays) depth 20)))

  get_context-Stays : Stays (quiet n) (get_context out)
  unfolding get_context
  get_context-Stays =
      search (talk_rules, select_existing_cid-Stays, reuse_context-Stays, adopt-Stays) depth 20

module _ {P : Type 0} (out : Outside P) {n : ℕ} where
  on_client-Stays :
      (m : Action Http Response) → Stays (quiet n) m → Stays (quiet n) (on_client out m)
  unfolding on_client get_http_client
  on_client-Stays m stays =
      Moves-back_then _ _ (search (talk_rules, client_for-Stays) depth 10)
        λ h. Moves-back_then _ _ (on_http-Moves h m stays) (λ r. Moves-pure tt)

module _ {P : Type 0} (out : Outside P) (base : IsPolite out) {n : ℕ} where
  run-Stays : (c : ContextCall) → Stays (quiet n) (run out c)
  unfolding run
  run-Stays ContextCall.choose =
      Moves-back_then _ _ (get_context-Stays out base) (λ _. Moves-pure tt)
  run-Stays ContextCall.deactivate = deactivate_context-Stays out
  run-Stays ContextCall.close_sockets = search (talk_rules, close_all-Stays) depth 10
  run-Stays ContextCall.close_http = search (talk_rules, http_close-Stays) depth 10
  run-Stays ContextCall.release = destroy-Stays out
  run-Stays (ContextCall.ask_address b) = search (talk_rules, get_context_ip_address-Stays) depth 10
  run-Stays (ContextCall.open_http host port use_tls) =
      Moves-back_then _ _ (http_open-Stays out base host port use_tls) (λ _. Moves-pure tt)
  run-Stays (ContextCall.fetch host path r) =
      on_client-Stays out _ (get-Tidy (modem_of out) n host path r)
  run-Stays (ContextCall.submit host path content_type body len r) =
      on_client-Stays out _ (post-Tidy (modem_of out) n host path content_type body len r)

  run_all-Stays : (cs : List ContextCall) → Stays (quiet n) (run_all out cs)
  unfolding run_all
  run_all-Stays [] = Moves-pure _
  run_all-Stays (c ∷ cs) = Moves-back_then _ _ (run-Stays c) (λ _. run_all-Stays cs)

  -- Any sequence of a context's operations, with those of its stack and of its HTTP client that
  -- they run, keeps the grammar of the handler's calls: begun with no command under way, it ends
  -- so with the lock held as deep, whatever the modem answers and wherever an operation fails. It
  -- is for base classes whose operations do the same.
  pub run_all-talk :
      (cs : List ContextCall) (c : Context P) (t : Trace)
      → talk t ≡ quiet n
      → talk (run_all out cs c t).2 ≡ quiet n
  run_all-talk cs c t h = (run_all-Stays cs).at c t h
