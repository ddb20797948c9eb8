-- ===== src/Network/Tests.antt =====
-- The network, and the lock and the options of the stack, at concrete inputs.
use mbed_ce_st87m.Common.{ℕ, refl, false, none, some, List, [], ◌∷◌, pos}
use mbed_ce_st87m.At.{ok, pure}
use mbed_ce_st87m.At.Keeps.{Keeps-pure}
use mbed_ce_st87m.Stack.Tests.{test_modem, test_stack}
use mbed_ce_st87m.Stack.Options.{
  tls_level, tls_enable, IsTlsOnTcp, setsockopt, setsockopt_offloaded, setsockopt-IsTlsOnTcp,
}
use mbed_ce_st87m.Tls.Tests.{test_lib}
use mbed_ce_st87m.Network.{Network, Carrier, rat_nb1, mode_automatic}

abbrev pub test_carrier : Carrier
test_carrier = record {
  modem = test_modem;
  registering_mode = pure (ok, mode_automatic);
  base_clear = pure ok;
  base_set_attach = pure ok;
  signal_quality_unknown = pos 99;
  manual_mode = pos 1;
  operator_name_numeric = pos 2;
  control_plane_opt = false;
  default_apn = none;
}

abbrev pub test_network : Network
test_network = record { op_act = rat_nb1 }

-- "26201"
abbrev pub test_plmn : List ℕ
test_plmn = b'2' ∷ b'6' ∷ b'2' ∷ b'0' ∷ b'1' ∷ []

test_stack-IsTlsOnTcp : IsTlsOnTcp test_stack
test_stack-IsTlsOnTcp = λ h. refl

setsockopt-IsTlsOnTcp_example :
    IsTlsOnTcp
      (setsockopt_offloaded test_lib
        (λ h l o v. pure ok)
        (some 0)
        tls_level
        tls_enable
        (some (1 ∷ []))
        test_stack
        []).1
    × IsTlsOnTcp
        (setsockopt
          (λ h l o v. pure ok)
          (some 0)
          tls_level
          tls_enable
          (some (1 ∷ []))
          test_stack
          []).1
setsockopt-IsTlsOnTcp_example =
    setsockopt-IsTlsOnTcp test_lib (λ h l o v. pure ok) (some 0) tls_level tls_enable
      (some (1 ∷ [])) test_stack [] (Keeps-pure ok) test_stack-IsTlsOnTcp
