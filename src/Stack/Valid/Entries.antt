-- ===== src/Stack/Valid/Entries.antt =====
-- Every way into the stack keeps the invariant of the receive buffers.
use mbed_ce_st87m.Common.{ℕ, zero, suc, ◌+◌, Option, none, some, List, [], ◌∷◌, ℤ, pos}
use mbed_ce_st87m.At.Keeps.{Keeps, Keeps-if, Keeps-bind, Keeps-modify, Keeps-pure, keeps_rules}
use mbed_ce_st87m.Tls.{Library}
use mbed_ce_st87m.Tls.Certificates.{add_ca_certificate, add_device_certificate}
use mbed_ce_st87m.Tls.Stateless.{add_key-Keeps, add_certificate_impl-Keeps}
use mbed_ce_st87m.Stack.Types.{Stack, Env}
use mbed_ce_st87m.Stack.Lifetime.{free_ids, end_stack}
use mbed_ce_st87m.Stack.Lifecycle.{set_sslctxid}
use mbed_ce_st87m.Stack.Options.{
  Level, TlsOption, enable_tls, with_data, set_tls_option, setsockopt_offloaded, setsockopt,
}
use mbed_ce_st87m.Stack.Entry.{Around, Entry, enter, enter_all}
use mbed_ce_st87m.Stack.Valid.{BufferLaws, IsValid, free_rx_buffer-IsValid}
use mbed_ce_st87m.Stack.Valid.Operations.{
  Safe, create_socket_impl-Safe, create_tls_socket-Safe, socket_close_impl-Safe,
  close_all_sockets-Safe, socket_connect-Safe,
}
use mbed_ce_st87m.Stack.Valid.Sessions.{
  IsSafe, get_ip_address-Safe, gethostbyname-Safe, start_stack-Safe, close_tcp_session-Safe,
  open_tcp_session-Safe,
}
use mbed_ce_st87m.Stack.Valid.Traffic.{socket_sendto_impl-Safe}
use mbed_ce_st87m.Stack.Valid.Reception.{socket_recvfrom_impl-Safe}
use mbed_ce_st87m.Stack.Valid.Arrivals.{
  urc_iprecv-Safe, urc_socketclosed-Safe, txfull_event_timeout-Safe,
}

-- What the base class keeps.
pub record IsSafeAround {P : Type 0} (env : Env P) (room : P → ℕ) (around : Around P) : Type 0 where
  pub safe_base : IsSafe env room around.base
  pub safe_options :
      (h : Option ℕ) (level : Level) (name : TlsOption) (value : Option (List ℕ))
      → Keeps (IsValid env room) (around.base_setsockopt h level name value)

module _ {P : Type 0} (env : Env P) (room : P → ℕ) (laws : BufferLaws env room) where
  free_ids-IsValid :
      (rounds first : ℕ) (s : Stack P)
      → IsValid env room s
      → IsValid env room (free_ids env rounds first s)
  unfolding free_ids
  free_ids-IsValid zero first s v = v
  free_ids-IsValid (suc rounds) first s v =
      free_ids-IsValid rounds (first + 1) _ (free_rx_buffer-IsValid env room laws (pos first) s v)

  end_stack-Safe : Safe env room laws (end_stack env)
  unfolding end_stack
  end_stack-Safe = search (keeps_rules, free_ids-IsValid) depth 20

  set_sslctxid-IsValid :
      (k : ℤ) (s : Stack P) → IsValid env room s → IsValid env room (set_sslctxid env k s)
  unfolding set_sslctxid
  set_sslctxid-IsValid (pos n) s v = v
  set_sslctxid-IsValid _ s v = v

  set_tls_option-Safe :
      (lib : Library) (optname : TlsOption) (h : ℕ) (optval : List ℕ)
      → Safe env room laws (set_tls_option lib optname h optval)
  unfolding set_tls_option enable_tls with_data add_ca_certificate add_device_certificate
  set_tls_option-Safe lib TlsOption.tls_enable h optval = search keeps_rules depth 20
  set_tls_option-Safe lib TlsOption.set_hostname h optval = search keeps_rules
  set_tls_option-Safe lib TlsOption.set_cacert h optval =
      search (keeps_rules, add_certificate_impl-Keeps) depth 20
  set_tls_option-Safe lib TlsOption.set_clcert h optval =
      search (keeps_rules, add_certificate_impl-Keeps) depth 20
  set_tls_option-Safe lib TlsOption.set_clkey h optval =
      search (keeps_rules, add_key-Keeps) depth 20
  set_tls_option-Safe lib (TlsOption.other_option n) h optval = search keeps_rules

  module _ (around : Around P) (safe : IsSafeAround env room around) where
    offloaded-Safe :
        (h : Option ℕ) (level : Level) (name : TlsOption) (value : Option (List ℕ))
        → Safe env room laws
            (setsockopt_offloaded around.lib around.base_setsockopt h level name value)
    unfolding setsockopt_offloaded
    offloaded-Safe none level name value = Keeps-pure _
    offloaded-Safe (some h) (Level.other_level k) name value = safe.safe_options _ _ _ _
    offloaded-Safe (some h) Level.tls_level name none = Keeps-pure _
    offloaded-Safe (some h) Level.tls_level name (some bytes) =
        set_tls_option-Safe around.lib name h bytes

    enter-Safe : (e : Entry) → Safe env room laws (enter env around e)
    unfolding enter setsockopt
    enter-Safe Entry.start = start_stack-Safe env room laws
    enter-Safe Entry.finish = end_stack-Safe
    enter-Safe (Entry.get_address b) =
        Keeps-bind _ _ (get_ip_address-Safe env room laws b) (λ _. Keeps-pure tt)
    enter-Safe (Entry.resolve_name host b v) =
        Keeps-bind _ _ (gethostbyname-Safe env room laws host b v) (λ _. Keeps-pure tt)
    enter-Safe (Entry.connect_socket h address) =
        Keeps-bind _ _ (socket_connect-Safe env room laws h address) (λ _. Keeps-pure tt)
    enter-Safe Entry.close_every =
        Keeps-bind _ _ (close_all_sockets-Safe env room laws) (λ _. Keeps-pure tt)
    enter-Safe (Entry.open_tcp host port use_tls) =
        Keeps-bind _ _
          (open_tcp_session-Safe env room laws around.base safe.safe_base host port use_tls)
          (λ _. Keeps-pure tt)
    enter-Safe (Entry.close_tcp k) =
        Keeps-bind _ _ (close_tcp_session-Safe env room laws k) (λ _. Keeps-pure tt)
    enter-Safe (Entry.select_profile ctx) = Keeps-modify _ (set_sslctxid-IsValid ctx)
    enter-Safe (Entry.set_option h level name value) =
        Keeps-bind _ _ (Keeps-if _ _ _ (Keeps-pure _) (safe.safe_options h level name value))
          (λ _. Keeps-pure tt)
    enter-Safe (Entry.set_option_offloaded h level name value) =
        Keeps-bind _ _ (offloaded-Safe h level name value) (λ _. Keeps-pure tt)
    enter-Safe (Entry.base_open proto) =
        Keeps-bind _ _ (safe.safe_base.safe_open proto) (λ _. Keeps-pure tt)
    enter-Safe (Entry.base_close h) =
        Keeps-bind _ _ (safe.safe_base.safe_close h) (λ _. Keeps-pure tt)
    enter-Safe (Entry.create h ctx) =
        Keeps-bind _ _ (create_socket_impl-Safe env room laws h ctx) (λ _. Keeps-pure tt)
    enter-Safe (Entry.create_tls h ctx) =
        Keeps-bind _ _ (create_tls_socket-Safe env room laws h ctx) (λ _. Keeps-pure tt)
    enter-Safe (Entry.close k) =
        Keeps-bind _ _ (socket_close_impl-Safe env room laws k) (λ _. Keeps-pure tt)
    enter-Safe (Entry.send h address payload) =
        Keeps-bind _ _ (socket_sendto_impl-Safe env room laws h address payload)
          (λ _. Keeps-pure tt)
    enter-Safe (Entry.receive h want) =
        Keeps-bind _ _ (socket_recvfrom_impl-Safe env room laws h want) (λ _. Keeps-pure tt)
    enter-Safe Entry.data_arrived = urc_iprecv-Safe env room laws
    enter-Safe Entry.socket_closed = urc_socketclosed-Safe env room laws
    enter-Safe Entry.timer_fired = txfull_event_timeout-Safe env room laws

    pub enter_all-Safe : (es : List Entry) → Safe env room laws (enter_all env around es)
    unfolding enter_all
    enter_all-Safe [] = Keeps-pure _
    enter_all-Safe (e ∷ es) = Keeps-bind _ _ (enter-Safe e) (λ _. enter_all-Safe es)
