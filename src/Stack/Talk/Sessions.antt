-- ===== src/Stack/Talk/Sessions.antt =====
-- The conversations of open_tcp_session and setsockopt, over those of mbed's base class.
use mbed_ce_st87m.Common.{ℕ, Bool, not, Option, none, some, List}
use mbed_ce_st87m.At.{is_ok}
use mbed_ce_st87m.At.Talk.{
  quiet, Stays, Moves-if, Moves-pure, Moves-modify, Moves-gets, Moves-back_then, talk_rules,
}
use mbed_ce_st87m.Tls.{Library}
use mbed_ce_st87m.Tls.Certificates.{add_ca_certificate, add_device_certificate}
use mbed_ce_st87m.Tls.Talk.{add_key-Stays, add_certificate_impl-Stays}
use mbed_ce_st87m.Stack.Types.{Proto, Address, Env}
use mbed_ce_st87m.Stack.Session.{Base, connect_session, resolve, open_tcp_session}
use mbed_ce_st87m.Stack.Options.{
  Level, TlsOption, BaseSetsockopt, enable_tls, with_data, set_tls_option, setsockopt_offloaded,
  setsockopt,
}
use mbed_ce_st87m.Stack.Talk.{gethostbyname-Stays, socket_connect-Stays}

-- socket_open and socket_close of the base class end the conversation as they find it.
pub record IsPoliteBase {P : Type 0} (base : Base P) : Type 0 where
  pub opens : (n : ℕ) (proto : Proto) → Stays (quiet n) (base.socket_open proto)
  pub closes : (n h : ℕ) → Stays (quiet n) (base.socket_close h)

module _ {P : Type 0} (env : Env P) (base : Base P) (polite : IsPoliteBase base) {n : ℕ} where
  connect_session-Stays :
      (address : Address) (use_tls : Bool)
      → Stays (quiet n) (connect_session env base address use_tls)
  unfolding connect_session
  connect_session-Stays address use_tls = Moves-back_then _ _ (polite.opens n Proto.tcp) λ opened.
      Moves-if (not (is_ok opened.0)) _ _ (Moves-pure _) (
        Moves-back_then _ _ (Moves-if use_tls _ _ (Moves-modify _) (Moves-pure _)) λ _.
          Moves-back_then _ _ (socket_connect-Stays env _ address) λ err.
            Moves-if (not (is_ok err)) _ _
              (Moves-back_then _ _ (polite.closes n opened.1) (λ _. Moves-pure _))
              (Moves-back_then _ _ (Moves-gets _) (λ s. Moves-pure _)))

  pub open_tcp_session-Stays :
      (host : Option (List ℕ)) (port : ℕ) (use_tls : Bool)
      → Stays (quiet n) (open_tcp_session env base host port use_tls)
  unfolding open_tcp_session resolve
  open_tcp_session-Stays none port use_tls = Moves-pure _
  open_tcp_session-Stays (some host) port use_tls =
      search (talk_rules, gethostbyname-Stays, connect_session-Stays) depth 20

module _ {P : Type 0} (lib : Library) (base : BaseSetsockopt P) {n : ℕ} where
  set_tls_option-Stays :
      (optname : TlsOption) (h : ℕ) (optval : List ℕ)
      → Stays (quiet n) (set_tls_option {P = P} lib optname h optval)
  unfolding set_tls_option enable_tls with_data add_ca_certificate add_device_certificate
  set_tls_option-Stays TlsOption.tls_enable h optval = search talk_rules depth 20
  set_tls_option-Stays TlsOption.set_hostname h optval = search talk_rules
  set_tls_option-Stays TlsOption.set_cacert h optval =
      search (talk_rules, add_certificate_impl-Stays) depth 20
  set_tls_option-Stays TlsOption.set_clcert h optval =
      search (talk_rules, add_certificate_impl-Stays) depth 20
  set_tls_option-Stays TlsOption.set_clkey h optval = search (talk_rules, add_key-Stays) depth 20
  set_tls_option-Stays (TlsOption.other_option k) h optval = search talk_rules

  pub setsockopt_offloaded-Stays :
      (handle : Option ℕ) (level : Level) (optname : TlsOption) (optval : Option (List ℕ))
      → Stays (quiet n) (base handle level optname optval)
      → Stays (quiet n) (setsockopt_offloaded lib base handle level optname optval)
  unfolding setsockopt_offloaded
  setsockopt_offloaded-Stays none level optname optval polite = Moves-pure _
  setsockopt_offloaded-Stays (some h) (Level.other_level k) optname optval polite = polite
  setsockopt_offloaded-Stays (some h) Level.tls_level optname none polite = Moves-pure _
  setsockopt_offloaded-Stays (some h) Level.tls_level optname (some value) polite =
      set_tls_option-Stays optname h value

  pub setsockopt-Stays :
      (handle : Option ℕ) (level : Level) (optname : TlsOption) (optval : Option (List ℕ))
      → Stays (quiet n) (base handle level optname optval)
      → Stays (quiet n) (setsockopt base handle level optname optval)
  unfolding setsockopt
  setsockopt-Stays handle level optname optval polite = Moves-if _ _ _ (Moves-pure _) polite
