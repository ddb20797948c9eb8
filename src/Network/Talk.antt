-- ===== src/Network/Talk.antt =====
-- The conversations of src/ST87M01_CellularNetwork.cpp and src/ST87M01_CellularInformation.cpp.
use mbed_ce_st87m.Common.{ℕ, zero, suc, ◌≡◌, refl, not, pos, Option, none, some, List, [], ◌∷◌}
use mbed_ce_st87m.At.{NsapiError, is_ok, discard_mixed, Modem, Action, Trace, pure, ◌>>=◌}
use mbed_ce_st87m.At.Talk.{
  talk, quiet, reading, say_all, Moves, Stays, Moves-if, Moves-pure, Moves-calls, Moves-calls_then,
  Moves-back_then, Moves-modify, Moves-discard_mixed, talk_rules,
}
use mbed_ce_st87m.Network.{
  Network, Carrier, automatic_registration, is_on_plmn, is_registered, confirm, manual_registration,
  set_registration, get_signal_quality_cesq, get_signal_quality, text_non_ip_mode, define_contexts,
  clear_control_plane, clear, set_attach,
}
use mbed_ce_st87m.Information.{
  skips, get_iccid, ati_line, get_manufacturer, get_model, get_revision,
}

module _ (carrier : Carrier) {n : ℕ} where
  is_on_plmn-Stays : (plmn : List ℕ) → Stays (quiet (suc n)) (is_on_plmn carrier plmn)
  unfolding is_on_plmn
  is_on_plmn-Stays plmn = search talk_rules depth 30

  is_registered-Stays : Stays (quiet (suc n)) (is_registered carrier)
  unfolding is_registered
  is_registered-Stays = search talk_rules depth 30

  confirm-Stays : (err : NsapiError) → Stays (quiet (suc n)) (confirm carrier err)
  unfolding confirm
  confirm-Stays err = search (talk_rules, is_registered-Stays) depth 30

  manual_registration-Stays :
      (plmn : List ℕ) → Stays (quiet (suc n)) (manual_registration carrier plmn)
  unfolding manual_registration
  manual_registration-Stays plmn = search (talk_rules, is_on_plmn-Stays, confirm-Stays) depth 30

module _ (carrier : Carrier) {n : ℕ} where
  get_signal_quality-Stays : Stays (quiet n) (get_signal_quality carrier)
  unfolding get_signal_quality get_signal_quality_cesq
  get_signal_quality-Stays = search talk_rules depth 40

  automatic_registration-Stays :
      Stays (quiet n) carrier.registering_mode → Stays (quiet n) (automatic_registration carrier)
  unfolding automatic_registration
  automatic_registration-Stays mode =
      Moves-back_then _ _ mode
        λ answer. Moves-if (not (is_ok answer.0)) _ _ (Moves-pure _) (search talk_rules depth 10)

  define_contexts-Stays : Stays (quiet n) (define_contexts carrier)
  unfolding define_contexts
  define_contexts-Stays =
      Moves-back_then _ _ (search talk_rules) (λ err. default_context-Stays err carrier.default_apn)
    where
      default_context-Stays :
          (err : NsapiError) (apn : Option (List ℕ))
          → Moves {S = Network} (quiet n) (quiet n) (elim apn [
            | none ↦ pure err
            | some text ↦
                discard_mixed carrier.modem "+CGDCONT" "="
                  (pos 1 ∷ [])
                  (text_non_ip_mode ∷ text ∷ [])
          ])
      default_context-Stays err none = Moves-pure err
      default_context-Stays err (some text) = Moves-discard_mixed carrier.modem _ _ _ _

  clear_control_plane-Stays : Stays (quiet n) (clear_control_plane carrier)
  unfolding clear_control_plane
  clear_control_plane-Stays = search (talk_rules, define_contexts-Stays) depth 30

  clear-Stays : Stays (quiet n) carrier.base_clear → Stays (quiet n) (clear carrier)
  unfolding clear
  clear-Stays base =
      Moves-back_then _ _ base λ err. Moves-if _ _ _ (Moves-pure _) clear_control_plane-Stays

skips-say : (k n : ℕ) → say_all (skips k) (reading n) ≡ reading n
skips-say zero n = refl
skips-say (suc k) n = skips-say k n

-- The queries of the modem's identity.
pub data Identity : Type 0 where
  iccid manufacturer model revision : Identity

module _ {S : Type 0} (modem : Modem) where
  unfoldable pub identify : Identity → ℕ → Action S (NsapiError × List ℕ)
  identify Identity.iccid buf_size = get_iccid modem buf_size
  identify Identity.manufacturer buf_size = get_manufacturer modem buf_size
  identify Identity.model buf_size = get_model modem buf_size
  identify Identity.revision buf_size = get_revision modem buf_size

module _ {S : Type 0} (modem : Modem) {n : ℕ} where
  ati_line-Stays : (k size : ℕ) → Moves {S = S} (quiet n) (quiet n) (ati_line modem k size)
  unfolding ati_line
  ati_line-Stays k size = Moves-calls_then _ _ (
      Moves-back_then _ _ (Moves-calls (skips k) (skips-say k (suc n)))
        (λ _. search talk_rules depth 10))

  pub identify-Stays :
      (what : Identity) (size : ℕ) → Moves {S = S} (quiet n) (quiet n) (identify modem what size)
  unfolding identify get_iccid
  identify-Stays Identity.iccid size = search talk_rules
  identify-Stays Identity.manufacturer size = unfold get_manufacturer in ati_line-Stays 0 size
  identify-Stays Identity.model size = unfold get_model in ati_line-Stays 1 size
  identify-Stays Identity.revision size = unfold get_revision in ati_line-Stays 2 size

-- The public operations of the network.
pub data NetworkCall : Type 0 where
  register_automatic signal_quality_of clear_settings attach : NetworkCall
  register_on : List ℕ → NetworkCall

module _ (carrier : Carrier) where
  unfoldable pub request : NetworkCall → Action Network (Unit {0})
  request register_automatic = do _ ← set_registration carrier none; pure tt
  request (register_on plmn) = do _ ← set_registration carrier (some plmn); pure tt
  request signal_quality_of = do _ ← get_signal_quality carrier; pure tt
  request clear_settings = do _ ← clear carrier; pure tt
  request attach = do _ ← set_attach carrier; pure tt

  -- How deep the handler's lock has to be held by the caller: registering on an operator does not
  -- take it for the queries that it makes.
  abbrev pub held_by_caller : NetworkCall → ℕ → ℕ
  held_by_caller (register_on plmn) n = suc n
  held_by_caller _ n = n

  -- What the base class's operations do to the conversation.
  pub record IsPolite : Type 0 where
    pub polite_mode : (n : ℕ) → Stays (quiet n) carrier.registering_mode
    pub polite_clear : (n : ℕ) → Stays (quiet n) carrier.base_clear
    pub polite_attach : (n : ℕ) → Stays (quiet n) carrier.base_set_attach

  request-Stays :
      (c : NetworkCall) (n : ℕ) → IsPolite → Stays (quiet (held_by_caller c n)) (request c)
  unfolding request set_registration set_attach
  request-Stays register_automatic n base =
      Moves-back_then _ _
        (Moves-back_then _ _ (Moves-modify _)
          (λ _. automatic_registration-Stays carrier (base.polite_mode n)))
        (λ _. Moves-pure tt)
  request-Stays (register_on plmn) n base =
      Moves-back_then _ _
        (Moves-back_then _ _ (Moves-modify _) (λ _. manual_registration-Stays carrier plmn))
        (λ _. Moves-pure tt)
  request-Stays signal_quality_of n base =
      Moves-back_then _ _ (get_signal_quality-Stays carrier) (λ _. Moves-pure tt)
  request-Stays clear_settings n base =
      Moves-back_then _ _ (clear-Stays carrier (base.polite_clear n)) (λ _. Moves-pure tt)
  request-Stays attach n base = Moves-back_then _ _ (base.polite_attach n) (λ _. Moves-pure tt)

  -- Every operation of the network and every query of the modem's identity keeps the grammar of the
  -- handler's calls: begun with no command under way, it ends so with the lock held as deep,
  -- whatever the modem answers. Registering on a given operator does so only for a caller
  -- that holds the lock, which the operation itself does not take. It is for base-class operations
  -- that keep the grammar.
  pub request-talk :
      (c : NetworkCall) (what : Identity) (size n : ℕ) (s : Network) (t : Trace)
      → IsPolite
      → talk t ≡ quiet (held_by_caller c n)
      → (talk (request c s t).2 ≡ quiet (held_by_caller c n))
        × (talk (identify carrier.modem what size s t).2 ≡ quiet (held_by_caller c n))
  request-talk c what size n s t base h =
      ((request-Stays c n base).at s t h, (identify-Stays carrier.modem what size).at s t h)
