-- ===== src/Device/Tests.antt =====
-- The device at concrete inputs.
use mbed_ce_st87m.Common.{
  ℕ, ◌+◌, ◌*◌, ◌≤◌, ◌≡◌, refl, Bool, true, false, none, some, List, [], ◌∷◌, pos, ◌==◌, ◌==ℤ◌,
  if◌then◌else◌,
}
use mbed_ce_st87m.At.{ok, is_ok, Modem, Trace, AtCall, unlock, pure, ◌>>=◌}
use mbed_ce_st87m.Context.Choice.{text_ip}
use mbed_ce_st87m.Stack.Tests.{test_modem}
use mbed_ce_st87m.Tls.{storage_flash}
use mbed_ce_st87m.Tls.Tests.{test_lib}
use mbed_ce_st87m.Device.{Device, Options, Board, ensure_cfun1, get_sim_state}
use mbed_ce_st87m.Device.Ready.{wait_for_app_ready, soft_reset}
use mbed_ce_st87m.Device.Radio.{asked, Reports, ensure_cfun1-twice}
use mbed_ce_st87m.Device.Waits.{slept, waits_bounds}

-- "8,20"
abbrev bands_8_20 : List ℕ
bands_8_20 = b'8' ∷ b',' ∷ b'2' ∷ b'0' ∷ []

-- The radio is on once a command has been sent.
abbrev radio_on : Trace → Bool
radio_on [] = false
radio_on (AtCall.at_cmd_discard command format args ∷ t) = true
radio_on (c ∷ t) = radio_on t

-- It tells whether its radio is on, and has the bands 8 and 20 and IPv4.
abbrev settled_modem : Modem
settled_modem = record test_modem {
  int_param = λ t. if radio_on t then pos 1 else pos 0;
  string_param = λ n t. if n == 64 then bands_8_20 else b'1' ∷ b',' ∷ b'0' ∷ [];
}

abbrev test_options : Options
test_options = record {
  configure_once = true;
  bands = some bands_8_20;
  bandcfg = none ∷ none ∷ none ∷ none ∷ [];
  default_pdp_type = text_ip;
  offload_dns = none;
  tls_enable = true;
  tls_default_sslctxid = pos 0;
  tls_generate_key = true;
  tls_key_size = pos 32;
  tls_key_storage = storage_flash;
  tls_ca_cert = none;
  tls_device_cert = none;
  serial_with_interrupt = true;
}

abbrev pub test_board : Board
test_board = record {
  options = test_options;
  lib = record test_lib { modem = settled_modem };
  setup_at_handler = pure tt;
  reset_connected = true;
}

abbrev pub test_device : Device
test_device = record { has_tls_provisioning = false; configured = false }

mode-on : (b : Bool) → ((if b then pos 1 else pos 0) ==ℤ pos 1) ≡ true → b ≡ true
mode-on true h = refl
mode-on false h = h

settled_modem-Reports : Reports settled_modem radio_on
settled_modem-Reports = record {
  reported = λ t h. (refl, rw h refl);
  seen = λ t answered on. mode-on (radio_on t) on;
  switched = λ t h. refl;
}

first_call-ok : is_ok (ensure_cfun1 test_board test_device []).0 ≡ true
unfolding ensure_cfun1 ◌>>=◌ is_ok
first_call-ok = refl

ensure_cfun1-twice_example :
    ensure_cfun1 test_board
      (ensure_cfun1 test_board test_device []).1
      (ensure_cfun1 test_board test_device []).2
    ≡ (
      ok,
      (ensure_cfun1 test_board test_device []).1,
      unlock ∷ asked (ensure_cfun1 test_board test_device []).2,
    )
ensure_cfun1-twice_example =
    ensure_cfun1-twice test_board radio_on settled_modem-Reports test_device [] first_call-ok

waits_bounds_example :
    (slept (wait_for_app_ready test_board 3 test_device []).2 ≤ slept [] + 3 * 1000)
    × (slept (soft_reset test_board test_device []).2 ≤ slept [] + 38000)
    × (slept (get_sim_state test_board test_device []).2 ≤ slept [] + 5000)
waits_bounds_example = waits_bounds test_board 3 test_device []

-- Without TLS.
abbrev plain_board : Board
plain_board = record test_board { options = record test_options { tls_enable = false } }
