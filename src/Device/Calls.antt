-- ===== src/Device/Calls.antt =====
-- The public operations of src/ST87M01.cpp that talk to the modem.
use mbed_ce_st87m.Common.{ℕ, suc, ℤ}
use mbed_ce_st87m.At.{Action, pure, ◌>>=◌}
use mbed_ce_st87m.At.Talk.{Talk, quiet}
use mbed_ce_st87m.Device.{
  Device, Board, drain_rx, ensure_cfun1, get_sim_state, reset, dump_network_status,
}
use mbed_ce_st87m.Device.Ready.{set_baud_rate}
use mbed_ce_st87m.Device.Configure.{configure}
use mbed_ce_st87m.Device.Init.{init_tls, init}

pub data DeviceCall : Type 0 where
  call_init call_configure call_ensure_cfun1 call_get_sim_state call_reset : DeviceCall
  call_dump call_init_tls : DeviceCall
  call_drain_rx : ℕ → DeviceCall
  call_set_baud_rate : ℤ → DeviceCall

-- The caller of configure holds the handler's lock.
abbrev pub called_at : DeviceCall → ℕ → Talk
called_at call_configure n = quiet (suc n)
called_at _ n = quiet n

module _ (board : Board) where
  unfoldable pub issue : DeviceCall → Action Device (Unit {0})
  issue call_init = do _ ← init board; pure tt
  issue call_configure = do _ ← configure board; pure tt
  issue call_ensure_cfun1 = do _ ← ensure_cfun1 board; pure tt
  issue call_get_sim_state = do _ ← get_sim_state board; pure tt
  issue call_reset = do _ ← reset board; pure tt
  issue call_dump = dump_network_status board
  issue call_init_tls = do _ ← init_tls board; pure tt
  issue (call_drain_rx dwell) = drain_rx dwell
  issue (call_set_baud_rate rate) = do _ ← set_baud_rate board rate; pure tt
