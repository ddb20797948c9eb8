-- ===== src/Network.antt =====
-- src/ST87M01_CellularNetwork.cpp: registration, signal quality and attaching. What the base class
-- AT_CellularNetwork does is a parameter.
pub mod Signal
pub mod Registration
pub mod Talk
pub mod Tests
use mbed_ce_st87m.Common.{
  ℕ, ◌-◌, Bool, true, false, not, ◌&&◌, ◌||◌, Option, none, some, List, [], ◌∷◌, leb, ◌==◌,
  if◌then◌else◌, ℤ, pos, negsuc, ◌==ℤ◌,
}
use mbed_ce_st87m.At.{
  NsapiError, ok, unsupported, device_error, is_ok, Modem, DeviceError, lock, clear_error, flush,
  cmd_start, cmd_start_stop, cmd_stop_read_resp, resp_start, resp_stop, restore_at_timeout,
  set_at_timeout, skip_param, Action, pure, gets, modify, call, calls, ◌>>=◌, ◌>>◌, get_last_error,
  get_last_device_error, discard, discard_mixed, int_of, string_of, unlock_return_error,
}
use mbed_ce_st87m.Context.Choice.{same_text}

-- RadioAccessTechnology: the one of the modem, and any other.
pub data RadioAccess : Type 0 where
  rat_nb1 : RadioAccess
  other_rat : ℕ → RadioAccess

abbrev pub is_nb1 : RadioAccess → Bool
is_nb1 RadioAccess.rat_nb1 = true
is_nb1 (RadioAccess.other_rat n) = false

-- NWRegisteringMode
pub data RegisteringMode : Type 0 where
  mode_automatic mode_manual mode_manual_automatic other_mode : RegisteringMode

abbrev pub is_automatic : RegisteringMode → Bool
is_automatic RegisteringMode.mode_automatic = true
is_automatic _ = false

-- CesqInfo
pub record CesqInfo : Type 0 where
  pub rxlev : ℤ
  pub ber : ℤ
  pub rscp : ℤ
  pub ecno : ℤ
  pub rsrq : ℤ
  pub rsrp : ℤ

-- The field _op_act.
pub record Network : Type 0 where
  pub op_act : RadioAccess

-- What the network takes from outside: the handler; get_network_registering_mode, clear and set_attach of
-- the base class; SignalQualityUnknown; the manual registering mode, with or without
-- fallback, and the format of a numeric operator name, as numbers; the build's
-- control-plane option, and its default APN.
pub record Carrier : Type 0 where
  pub modem : Modem
  pub registering_mode : Action Network (NsapiError × RegisteringMode)
  pub base_clear : Action Network NsapiError
  pub base_set_attach : Action Network NsapiError
  pub signal_quality_unknown : ℤ
  pub manual_mode : ℤ
  pub operator_name_numeric : ℤ
  pub control_plane_opt : Bool
  pub default_apn : Option (List ℕ)

-- "NONIP"
abbrev pub text_non_ip_mode : List ℕ
text_non_ip_mode = b'N' ∷ b'O' ∷ b'N' ∷ b'I' ∷ b'P' ∷ []

-- set_access_technology_impl
unfoldable pub set_access_technology_impl : RadioAccess → Action Network NsapiError
set_access_technology_impl op_rat =
    if not (is_nb1 op_rat)
    then (do modify (λ n. record n { op_act = rat_nb1 }); pure unsupported)
    else pure ok

-- rssi = -140 + rsrp, of an rsrp of at most 97
unfoldable pub to_dbm : ℕ → ℤ
to_dbm rsrp = negsuc (139 - rsrp)

-- Whether the value is one of the 98 of the standard.
unfoldable pub dbm_of : ℤ → Option ℤ
unfolding to_dbm
dbm_of (pos rsrp) = if leb rsrp 97 then some (to_dbm rsrp) else none
dbm_of (negsuc n) = none

module _ (carrier : Carrier) where
  unfoldable pub automatic_registration : Action Network NsapiError
  automatic_registration = do
    (err, mode) ← carrier.registering_mode
    if not (is_ok err)
        then pure device_error
        else if not (is_automatic mode)
        then discard carrier.modem "+COPS" "=0" []
        else pure ok

  -- The query of the current operator: whether it is the wanted one.
  unfoldable pub is_on_plmn : List ℕ → Action Network Bool
  is_on_plmn plmn = do
    calls (cmd_start_stop "+COPS" "?" [] ∷ resp_start "+COPS:" ∷ [])
    current_mode ← int_of carrier.modem
    read_err ← get_last_error carrier.modem
    current_oper ←
        if is_ok read_err then (do call skip_param; string_of carrier.modem 32) else pure []
    call resp_stop
    err ← get_last_error carrier.modem
    pure (is_ok err && not (same_text current_oper []) && same_text current_oper plmn)

  -- The probe after an operation that is not allowed: whether the modem is registered.
  unfoldable pub is_registered : Action Network Bool
  is_registered = do
    calls (clear_error ∷ cmd_start_stop "+CEREG" "?" [] ∷ resp_start "+CEREG:" ∷ skip_param ∷ [])
    cereg_stat ← int_of carrier.modem
    call resp_stop
    err ← get_last_error carrier.modem
    pure (is_ok err && ((cereg_stat ==ℤ pos 1) || (cereg_stat ==ℤ pos 5)))

  unfoldable pub confirm : NsapiError → Action Network NsapiError
  unfolding is_registered
  confirm err = if is_ok err then pure err else do
    dev_err ← get_last_device_error carrier.modem
    if dev_err.cme && (dev_err.err_code ==ℤ pos 3)
        then (do
          registered ← is_registered
          if registered then pure ok else do call clear_error; pure err)
        else pure err

  unfoldable pub manual_registration : List ℕ → Action Network NsapiError
  unfolding is_on_plmn confirm
  manual_registration plmn = do
    there ← is_on_plmn plmn
    if there then pure ok else do
      calls (clear_error ∷ set_at_timeout 180000 false ∷ [])
      err ←
          discard_mixed carrier.modem "+COPS" "="
            (carrier.manual_mode ∷ carrier.operator_name_numeric ∷ []) (plmn ∷ [])
      call restore_at_timeout
      confirm err

  -- set_registration; a null operator is none.
  unfoldable pub set_registration : Option (List ℕ) → Action Network NsapiError
  unfolding automatic_registration manual_registration
  set_registration plmn = do
    modify (λ n. record n { op_act = rat_nb1 })
    elim plmn [ none ↦ automatic_registration | some p ↦ manual_registration p ]

  -- get_signal_quality_cesq
  unfoldable pub get_signal_quality_cesq : Action Network (NsapiError × CesqInfo)
  get_signal_quality_cesq = do
    calls (lock ∷ clear_error ∷ flush ∷ cmd_start_stop "+CESQ" "" [] ∷ resp_start "+CESQ: " ∷ [])
    rxlev ← int_of carrier.modem
    ber ← int_of carrier.modem
    rscp ← int_of carrier.modem
    ecno ← int_of carrier.modem
    rsrq ← int_of carrier.modem
    rsrp ← int_of carrier.modem
    call resp_stop
    err ← unlock_return_error carrier.modem
    pure (
      err,
      record { rxlev = rxlev; ber = ber; rscp = rscp; ecno = ecno; rsrq = rsrq; rsrp = rsrp },
    )

  -- The end of get_signal_quality: the error, rssi and *ber, which a null pointer leaves out.
  unfoldable pub signal_quality : NsapiError → CesqInfo → NsapiError × ℤ × ℤ
  unfolding dbm_of
  signal_quality err cesq =
      let failed : NsapiError × ℤ × ℤ =
        (err, carrier.signal_quality_unknown, carrier.signal_quality_unknown) in
      if not (is_ok err) then failed else elim (dbm_of cesq.rsrp) [
        | none ↦ failed
        | some rssi ↦
            (ok, rssi, (if cesq.ber ==ℤ pos 99 then carrier.signal_quality_unknown else cesq.ber))
      ]

  -- get_signal_quality
  unfoldable pub get_signal_quality : Action Network (NsapiError × ℤ × ℤ)
  unfolding signal_quality
  get_signal_quality = do (err, cesq) ← get_signal_quality_cesq; pure (signal_quality err cesq)

  -- The context of a control-plane connection; with a default APN its command's error is the one that
  -- counts.
  unfoldable pub define_contexts : Action Network NsapiError
  define_contexts = do
    err ← discard carrier.modem "+CGDCONT" "=" (pos 0 ∷ [])
    elim carrier.default_apn [
      | none ↦ pure err
      | some apn ↦
          discard_mixed carrier.modem "+CGDCONT" "=" (pos 1 ∷ []) (text_non_ip_mode ∷ apn ∷ [])
    ]

  unfoldable pub clear_control_plane : Action Network NsapiError
  unfolding define_contexts
  clear_control_plane = do
    defined ← define_contexts
    if not (is_ok defined) then pure defined else do
      err ← discard carrier.modem "+CIPCA" "=" (pos 3 ∷ pos 1 ∷ [])
      if not (is_ok err) then pure err else do
        calls (lock ∷ cmd_start "AT+NCONFIG=\"AUTOCONNECT\",\"TRUE\"" ∷ cmd_stop_read_resp ∷ [])
        unlock_return_error carrier.modem

  -- clear
  unfoldable pub clear : Action Network NsapiError
  unfolding clear_control_plane
  clear = do
    err ← carrier.base_clear
    if not carrier.control_plane_opt || not (is_ok err) then pure err else clear_control_plane

  -- set_attach
  unfoldable pub set_attach : Action Network NsapiError
  set_attach = carrier.base_set_attach
