-- ===== src/Device/Ready.antt =====
-- Waiting for the modem's application processor: wait_for_app_ready, soft_reset and set_baud_rate of
-- src/ST87M01.cpp. Error 1120 says that it is still booting.
use mbed_ce_st87m.Common.{ℕ, zero, suc, Bool, not, ◌&&◌, [], ◌∷◌, if◌then◌else◌, ℤ, pos, ◌==ℤ◌}
use mbed_ce_st87m.At.{
  NsapiError, device_error, unsupported, is_ok, DeviceError, lock, unlock, clear_error, sleep_for,
  set_baud, Action, pure, call, calls, ◌>>=◌, ◌>>◌, get_last_device_error, discard, query_int,
  sync_at,
}
use mbed_ce_st87m.Device.{Device, Board, drain_rx}

abbrev pub is_booting : DeviceError → Bool
is_booting dev_err = dev_err.cme && (dev_err.err_code ==ℤ pos 1120)

module _ (board : Board) where
  -- The loop of wait_for_app_ready; `err` is the error so far.
  unfoldable pub probe : ℕ → NsapiError → Action Device NsapiError
  probe zero err = pure err
  probe (suc attempts) err = do
    call clear_error
    (err', _) ← query_int board.lib.modem "#SIMST" "?"
    let rest = probe attempts err'
    if is_ok err' then pure err' else do
      dev_err ← get_last_device_error board.lib.modem
      if not (is_booting dev_err)
          then pure err'
          else do calls (unlock ∷ sleep_for 1000 ∷ lock ∷ []); rest

  -- wait_for_app_ready
  unfoldable pub wait_for_app_ready : ℕ → Action Device NsapiError
  wait_for_app_ready attempts = probe attempts device_error

  -- The loop of soft_reset, which returns the error of the reset command in any case.
  unfoldable pub await_app : ℕ → NsapiError → Action Device NsapiError
  await_app zero err = pure err
  await_app (suc attempts) err = do
    call clear_error
    (sim_err, _) ← query_int board.lib.modem "#SIMST" "?"
    let rest = await_app attempts err
    if is_ok sim_err then pure err else do
      dev_err ← get_last_device_error board.lib.modem
      if is_booting dev_err then (do call (sleep_for 1000); rest) else pure err

  -- soft_reset
  unfoldable pub soft_reset : Action Device NsapiError
  unfolding await_app
  soft_reset = do
    err ← discard board.lib.modem "#RESET" "=1" []
    call (sleep_for 3000)
    drain_rx 5000
    synced ← sync_at board.lib.modem 1000
    if not synced then pure device_error else await_app 30 err

  -- set_baud_rate_impl
  unfoldable pub set_baud_rate_impl : ℤ → Action Device NsapiError
  set_baud_rate_impl baud_rate = discard board.lib.modem "+IPR" "=" (baud_rate ∷ [])

  -- set_baud_rate
  unfoldable pub set_baud_rate : ℤ → Action Device NsapiError
  unfolding soft_reset
  set_baud_rate baud_rate = if not board.options.serial_with_interrupt then pure unsupported else do
    err ← set_baud_rate_impl baud_rate
    if not (is_ok err)
        then pure err
        else do calls (set_baud baud_rate ∷ sleep_for 3000 ∷ []); drain_rx 80; soft_reset
