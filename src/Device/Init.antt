-- ===== src/Device/Init.antt =====
-- init and init_tls of src/ST87M01.cpp.
use mbed_ce_st87m.Common.{
  ℕ, ◌/◌, Bool, true, false, not, ◌||◌, Option, none, some, List, [], ◌∷◌, ◌==◌, if◌then◌else◌, pos,
  length,
}
use mbed_ce_st87m.At.{
  NsapiError, ok, parameter, lock, unlock, clear_error, Action, pure, gets, modify, call, ◌>>=◌,
  ◌>>◌, discard, sync_at,
}
use mbed_ce_st87m.Codec.Decode.{hex_decode}
use mbed_ce_st87m.Tls.Keys.{generate_key}
use mbed_ce_st87m.Tls.Certificates.{add_ca_certificate, add_device_certificate}
use mbed_ce_st87m.Tls.Profiles.{check_profile, save_to_nvm, or_false}
use mbed_ce_st87m.Device.{Device, Board, drain_rx, ensure_cfun1, get_tls_provisioning}
use mbed_ce_st87m.Device.Configure.{configure, if_ok}

-- A step of init_tls: the error, and need_save.
abbrev pub Step : Type 0
Step = Action Device (NsapiError × Bool)

module _ (board : Board) where
  -- The key, where there is none.
  unfoldable pub provision_key : Bool → Step
  provision_key has_key =
      if has_key || not board.options.tls_generate_key then pure (ok, false) else do
        (err, _) ←
            generate_key board.lib board.options.tls_default_sslctxid board.options.tls_key_size
              board.options.tls_key_storage false none
        pure (err, true)

  -- A configured certificate; one that is null or empty is passed over.
  unfoldable pub provision_cert :
      (Option (List ℕ) → Action Device NsapiError) → Option (List ℕ) → Step
  provision_cert add none = pure (ok, false)
  provision_cert add (some []) = pure (ok, false)
  provision_cert add (some (c ∷ cs)) =
      let cert_der = hex_decode (c ∷ cs) (length (c ∷ cs) / 2) in
      if length cert_der == 0
      then pure (parameter, false)
      else do err ← add (some cert_der); pure (err, true)

  unfoldable pub provision_ca : Bool → Step
  unfolding provision_cert
  provision_ca has_cert =
      if has_cert
      then pure (ok, false)
      else provision_cert
          (λ cert. add_ca_certificate board.lib board.options.tls_default_sslctxid cert false)
          board.options.tls_ca_cert

  unfoldable pub provision_device : Step
  unfolding provision_cert
  provision_device =
      provision_cert
        (λ cert. add_device_certificate board.lib board.options.tls_default_sslctxid cert false)
        board.options.tls_device_cert

  unfoldable pub save_if_needed : Bool → Action Device NsapiError
  save_if_needed need_save = if not need_save then pure ok else do
    err ← save_to_nvm board.lib
    if_ok err (do drain_rx 2000; call lock; _ ← sync_at board.lib.modem 500; call unlock; pure ok)

  -- init_tls
  unfoldable pub init_tls : Action Device NsapiError
  unfolding provision_key provision_ca provision_device save_if_needed
  init_tls = do
    get_tls_provisioning board
    (checked, has_key, has_cert) ←
        check_profile board.lib board.options.tls_default_sslctxid true true
    if_ok checked (do
      (key_err, key_saved) ← provision_key (or_false has_key)
      if_ok key_err (do
        (ca_err, ca_saved) ← provision_ca (or_false has_cert)
        if_ok ca_err (do
          (device_err, device_saved) ← provision_device
          if_ok device_err (save_if_needed (key_saved || ca_saved || device_saved)))))

  -- The commands whose errors do not end init.
  unfoldable pub optional_commands : Action Device (Unit {0})
  optional_commands = do
    _ ← discard board.lib.modem "+CMEE" "=1" []
    call clear_error
    _ ← discard board.lib.modem "#WDGMODE" "=0" []
    call clear_error
    _ ← discard board.lib.modem "+CSCON" "=1" []
    call clear_error
    _ ← discard board.lib.modem "#SLEEPIND" "=1" []
    call clear_error
    _ ← discard board.lib.modem "#SLEEPMODE" "=0" []
    call clear_error
    _ ← discard board.lib.modem "#WAKEUPEVENT" "=" (pos 15 ∷ pos 3 ∷ [])
    call clear_error

  -- configure, if the build asks for it and it has not succeeded before.
  unfoldable pub configure_if_needed : Action Device NsapiError
  configure_if_needed = do
    d ← gets (λ d. d)
    if not board.options.configure_once || d.configured then pure ok else do
      err ← configure board
      if_ok err (do modify (λ d'. record d' { configured = true }); pure ok)

  -- The part of init that runs under the lock.
  unfoldable pub init_locked : Action Device NsapiError
  unfolding optional_commands configure_if_needed
  init_locked = do
    drain_rx 80
    _ ← sync_at board.lib.modem 500
    at ← discard board.lib.modem "" "" []
    if_ok at (do
      echo ← discard board.lib.modem "E" "0" []
      if_ok echo (do optional_commands; configure_if_needed))

  -- init
  unfoldable pub init : Action Device NsapiError
  unfolding init_locked init_tls
  init = do
    board.setup_at_handler
    call lock
    err ← init_locked
    call unlock
    if_ok err (do
      radio ← ensure_cfun1 board
      if_ok radio (if board.options.tls_enable then init_tls else pure ok))
