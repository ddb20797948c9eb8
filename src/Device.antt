-- ===== src/Device.antt =====
-- src/ST87M01.cpp: the device. This file has its state, its build options and the small
-- operations; the modem's setup and the TLS setup are in the children.
pub mod Scan
pub mod Ready
pub mod Configure
pub mod Init
pub mod Calls
pub mod Talk
pub mod Radio
pub mod Waits
pub mod Tests
use mbed_ce_st87m.Common.{
  ℕ, zero, suc, Bool, true, false, not, ◌&&◌, ◌||◌, Option, none, some, List, [], ◌∷◌,
  if◌then◌else◌, ℤ, pos, minus_one, ◌==ℤ◌,
}
use mbed_ce_st87m.At.{
  NsapiError, ok, device_error, is_ok, AtCall, lock, unlock, clear_error, flush, resp_stop,
  resp_start, cmd_start_stop, cmd_start, cmd_stop, write_int, skip_param, restore_at_timeout,
  set_at_timeout, set_reset_pin, sleep_for, read_int, read_string, Action, pure, gets, modify, call,
  calls, ◌>>=◌, ◌>>◌, get_last_device_error, discard, query_int,
}
use mbed_ce_st87m.Tls.{Library, KeyStorage}

-- The fields of ST87M01 that change: whether _tls_provisioning is set, and _configured.
pub record Device : Type 0 where
  pub has_tls_provisioning : Bool
  pub configured : Bool

-- The build options; an option that is not defined, or a null text, is none. `bandcfg` has
-- BANDCFG, BANDCFG_NMO1, BANDCFG_NMO2 and BANDCFG_NMO3.
pub record Options : Type 0 where
  pub configure_once : Bool
  pub bands : Option (List ℕ)
  pub bandcfg : List (Option (List ℕ))
  pub default_pdp_type : List ℕ
  pub offload_dns : Option (List ℕ × List ℕ × ℤ)
  pub tls_enable : Bool
  pub tls_default_sslctxid : ℤ
  pub tls_generate_key : Bool
  pub tls_key_size : ℤ
  pub tls_key_storage : KeyStorage
  pub tls_ca_cert : Option (List ℕ)
  pub tls_device_cert : Option (List ℕ)
  pub serial_with_interrupt : Bool

-- What the device takes from outside: the options, what the TLS provisioning takes (the handler
-- among it), setup_at_handler of the base class, and whether the reset pin is connected.
pub record Board : Type 0 where
  pub options : Options
  pub lib : Library
  pub setup_at_handler : Action Device (Unit {0})
  pub reset_connected : Bool

-- SimState, as far as the driver reports it.
pub data SimState : Type 0 where
  sim_ready sim_unknown : SimState

-- drain_rx
unfoldable pub drain_rx : {S : Type 0} → ℕ → Action S (Unit {0})
drain_rx dwell = calls (flush ∷ sleep_for dwell ∷ flush ∷ clear_error ∷ [])

module _ (board : Board) where
  -- ensure_cfun1
  unfoldable pub ensure_cfun1 : Action Device NsapiError
  ensure_cfun1 = do
    calls (lock ∷ clear_error ∷ [])
    (err, cfun_mode) ← query_int board.lib.modem "+CFUN" "?"
    call unlock
    if not (is_ok err) then pure err else if cfun_mode ==ℤ pos 1 then pure ok else do
      calls (lock ∷ set_at_timeout 16000 false ∷ [])
      err' ← discard board.lib.modem "+CFUN" "=" (pos 1 ∷ [])
      calls (restore_at_timeout ∷ unlock ∷ [])
      pure err'

  -- The attempts of get_sim_state: the last error and status.
  unfoldable pub sim_attempts : ℕ → NsapiError → ℤ → Action Device (NsapiError × ℤ)
  sim_attempts zero err sim_status = pure (err, sim_status)
  sim_attempts (suc attempts) err sim_status = do
    (err', status') ← query_int board.lib.modem "#SIMST" "?"
    let rest = sim_attempts attempts err' status'
    if is_ok err' then pure (err', status') else do
      dev_err ← get_last_device_error board.lib.modem
      if not dev_err.cme && not (dev_err.err_code ==ℤ pos 1120)
          then pure (err', status')
          else do call (sleep_for 500); rest

  -- get_sim_state: the error, and the state that is reported.
  unfoldable pub get_sim_state : Action Device (NsapiError × SimState)
  unfolding sim_attempts
  get_sim_state = do
    calls (lock ∷ flush ∷ [])
    (err, sim_status) ← sim_attempts 10 ok minus_one
    call unlock
    pure (
        if not (is_ok err)
        then (err, sim_unknown)
        else if sim_status ==ℤ pos 1
        then (ok, sim_ready)
        else (device_error, sim_unknown))

  -- press_button, on the reset pin, which is active low
  unfoldable pub press_button : Bool → ℕ → Action Device Bool
  press_button active_high duration = if not board.reset_connected then pure false else do
    calls (set_reset_pin active_high ∷ sleep_for duration ∷ set_reset_pin (not active_high) ∷ [])
    pure true

  -- reset
  unfoldable pub reset : Action Device Bool
  reset = do
    pressed ← press_button false 15
    if not pressed then pure false else do drain_rx 2000; pure true

  -- The query of one context in dump_network_status, which only traces what it reads.
  unfoldable pub dump_contexts : ℕ → Action Device (Unit {0})
  dump_contexts zero = pure tt
  dump_contexts (suc contexts) = do
    calls (
        cmd_start_stop "+CGACT" "?" []
        ∷ resp_start "+CGACT:"
        ∷ read_int
        ∷ read_int
        ∷ resp_stop
        ∷ [])
    dump_contexts contexts

  -- dump_network_status
  unfoldable pub dump_network_status : Action Device (Unit {0})
  unfolding dump_contexts
  dump_network_status = do
    calls (
        lock
        ∷ cmd_start_stop "+CEREG" "?" []
        ∷ resp_start "+CEREG:"
        ∷ read_string 128
        ∷ resp_stop
        ∷ cmd_start_stop "+CGATT" "?" []
        ∷ resp_start "+CGATT:"
        ∷ read_int
        ∷ resp_stop
        ∷ [])
    dump_contexts 7
    calls (
        cmd_start "AT+CGPADDR="
        ∷ write_int (pos 1)
        ∷ cmd_stop
        ∷ resp_start "+CGPADDR:"
        ∷ skip_param
        ∷ read_string 128
        ∷ resp_stop
        ∷ unlock
        ∷ [])

  -- get_tls_provisioning; the object is made at the first call.
  unfoldable pub get_tls_provisioning : Action Device (Unit {0})
  get_tls_provisioning = modify (λ d. record d { has_tls_provisioning = true })

-- The APN that create_context_impl hands to the context, from the build's default and the caller's.
unfoldable pub context_apn : Option (List ℕ) → Option (List ℕ) → Option (List ℕ)
context_apn none apn = apn
context_apn (some default_apn) none = some default_apn
context_apn (some default_apn) (some []) = some default_apn
context_apn (some default_apn) (some (c ∷ cs)) = some (c ∷ cs)
