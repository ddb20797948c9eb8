-- ===== src/Device/Talk.antt =====
-- The conversations of src/ST87M01.cpp with the modem.
pub mod Start
use mbed_ce_st87m.Common.{ℕ, zero, suc, ◌≡◌, Bool, Option, none, some, List, [], ◌∷◌, ℤ, not}
use mbed_ce_st87m.At.{NsapiError, is_ok, Action, Trace}
use mbed_ce_st87m.At.Talk.{
  Talk, talk, quiet, writing, Moves, Stays, Moves-if, Moves-pure, Moves-call_then, Moves-calls_then,
  Moves-back_then, Moves-query_int, Moves-discard_mixed, Moves-get_last_device_error, talk_rules,
}
use mbed_ce_st87m.Device.{
  Device, Board, drain_rx, ensure_cfun1, sim_attempts, get_sim_state, press_button, reset,
  dump_contexts, dump_network_status, get_tls_provisioning,
}
use mbed_ce_st87m.Device.Ready.{
  is_booting, probe, wait_for_app_ready, await_app, soft_reset, set_baud_rate, set_baud_rate_impl,
}
use mbed_ce_st87m.Device.Configure.{
  query_bands, query_ipparams, write_bandcfgs, write_bands, radio_off, write_ipparams, write_dns,
  write_scan, cold_init, apply_settings, configure, if_ok,
}
use mbed_ce_st87m.Device.Init.{
  provision_key, provision_cert, provision_ca, provision_device, save_if_needed, init_tls,
  optional_commands, configure_if_needed, init_locked, init,
}

pub drain_rx-Stays : {S : Type 0} {p : Talk} (k : ℕ) → Moves {S = S} p p (drain_rx k)
unfolding drain_rx
drain_rx-Stays k = search talk_rules

write_dns-Stays : {n : ℕ} (dns : Option (List ℕ × List ℕ × ℤ)) → Stays (writing n) (write_dns dns)
write_dns-Stays none = search talk_rules
write_dns-Stays (some dns) = search talk_rules

-- At any depth.
module _ (board : Board) {n : ℕ} where
  pub ensure_cfun1-Stays : Stays (quiet n) (ensure_cfun1 board)
  unfolding ensure_cfun1
  ensure_cfun1-Stays = search talk_rules depth 30

  pub sim_attempts-Stays :
      (k : ℕ) (err : NsapiError) (status : ℤ) → Stays (quiet n) (sim_attempts board k err status)
  unfolding sim_attempts
  sim_attempts-Stays zero err status = search talk_rules
  sim_attempts-Stays (suc k) err status = search (talk_rules, sim_attempts-Stays k) depth 20

  pub reset-Stays : Stays (quiet n) (reset board)
  unfolding reset press_button
  reset-Stays = search (talk_rules, drain_rx-Stays) depth 20

  await_app-Stays : (k : ℕ) (err : NsapiError) → Stays (quiet n) (await_app board k err)
  unfolding await_app
  await_app-Stays zero err = search talk_rules
  await_app-Stays (suc k) err = search (talk_rules, await_app-Stays k) depth 20

  soft_reset-Stays : Stays (quiet n) (soft_reset board)
  unfolding soft_reset
  soft_reset-Stays = search (talk_rules, drain_rx-Stays, await_app-Stays) depth 20

  pub set_baud_rate-Stays : (rate : ℤ) → Stays (quiet n) (set_baud_rate board rate)
  unfolding set_baud_rate set_baud_rate_impl
  set_baud_rate-Stays rate = search (talk_rules, drain_rx-Stays, soft_reset-Stays) depth 20

  write_bandcfgs-Stays : (cs : List (Option (List ℕ))) → Stays (quiet n) (write_bandcfgs board cs)
  unfolding write_bandcfgs
  write_bandcfgs-Stays [] = search talk_rules
  write_bandcfgs-Stays (none ∷ cs) = write_bandcfgs-Stays cs
  write_bandcfgs-Stays (some bandcfg ∷ cs) =
      Moves-back_then _ _ (Moves-discard_mixed board.lib.modem "#BANDCFG" "=" [] (bandcfg ∷ []))
        (λ _. write_bandcfgs-Stays cs)

  radio_off-Stays : Stays (quiet n) (radio_off board)
  unfolding radio_off
  radio_off-Stays = search talk_rules depth 20

  write_scan-Stays : Stays (quiet n) (write_scan board)
  unfolding write_scan
  write_scan-Stays = search talk_rules depth 20

-- With the lock held.
module _ (board : Board) {n : ℕ} where
  pub dump_contexts-Stays : (k : ℕ) → Stays (quiet (suc n)) (dump_contexts board k)
  unfolding dump_contexts
  dump_contexts-Stays zero = search talk_rules
  dump_contexts-Stays (suc k) = Moves-calls_then _ _ (dump_contexts-Stays k)

  -- The lock is given back while the wait sleeps.
  probe-Stays : (k : ℕ) (err : NsapiError) → Stays (quiet (suc n)) (probe board k err)
  unfolding probe
  probe-Stays zero err = search talk_rules
  probe-Stays (suc k) err = search (talk_rules, probe-Stays k) depth 20

  query_bands-Stays : (bands : Option (List ℕ)) → Stays (quiet (suc n)) (query_bands board bands)
  unfolding query_bands
  query_bands-Stays none = search talk_rules
  query_bands-Stays (some bands) = search talk_rules depth 20

  query_ipparams-Stays : Stays (quiet (suc n)) (query_ipparams board)
  unfolding query_ipparams
  query_ipparams-Stays = search talk_rules depth 20

  write_bands-Stays : (bands : Option (List ℕ)) → Stays (quiet (suc n)) (write_bands board bands)
  unfolding write_bands
  write_bands-Stays none = search talk_rules
  write_bands-Stays (some bands) = search (talk_rules, write_bandcfgs-Stays) depth 20

  write_ipparams-Stays : Stays (quiet (suc n)) (write_ipparams board)
  unfolding write_ipparams
  write_ipparams-Stays = search (talk_rules, write_dns-Stays) depth 20

  cold_init-Stays : (b : Bool) → Stays (quiet (suc n)) (cold_init board b)
  unfolding cold_init
  cold_init-Stays b =
      search
        (
          talk_rules, radio_off-Stays, write_bands-Stays, write_scan-Stays, write_ipparams-Stays,
          soft_reset-Stays, drain_rx-Stays,
        )
        depth 40

  apply_settings-Stays : (a b : Bool) → Stays (quiet (suc n)) (apply_settings board a b)
  unfolding apply_settings
  apply_settings-Stays a b = Moves-if _ _ _ (Moves-pure _) (cold_init-Stays a)

  pub configure-Stays : Stays (quiet (suc n)) (configure board)
  unfolding configure wait_for_app_ready
  configure-Stays =
      search
        (talk_rules, probe-Stays, query_bands-Stays, query_ipparams-Stays, apply_settings-Stays)
        depth 20

  optional_commands-Stays : Stays (quiet (suc n)) (optional_commands board)
  unfolding optional_commands
  optional_commands-Stays = search talk_rules depth 40

  pub init_locked-Stays : Stays (quiet (suc n)) (init_locked board)
  unfolding init_locked configure_if_needed
  init_locked-Stays =
      search (talk_rules, drain_rx-Stays, optional_commands-Stays, configure-Stays) depth 40
