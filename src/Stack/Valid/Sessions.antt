-- ===== src/Stack/Valid/Sessions.antt =====
-- The rest of what a context calls on its stack keeps the invariant of the receive buffers.
use mbed_ce_st87m.Common.{ℕ, zero, suc, Bool, not, Option, none, some, List, ℤ}
use mbed_ce_st87m.At.{is_ok}
use mbed_ce_st87m.At.Keeps.{Keeps, Keeps-if, Keeps-bind, Keeps-pure, keeps_rules}
use mbed_ce_st87m.Stack.Types.{Proto, IpVersion, Address, Env}
use mbed_ce_st87m.Stack.Ip.{cgpaddr, cgcontrdp, get_ip_address, dns_query, gethostbyname}
use mbed_ce_st87m.Stack.Lifetime.{start_stack}
use mbed_ce_st87m.Stack.Lifecycle.{orphan_line, close_live, reap_orphan_sockets}
use mbed_ce_st87m.Stack.Session.{
  Base, close_session, close_tcp_session, connect_session, resolve, open_tcp_session,
}
use mbed_ce_st87m.Stack.Valid.{BufferLaws, IsValid}
use mbed_ce_st87m.Stack.Valid.Operations.{Safe, socket_close_impl-Safe, socket_connect-Safe}

module _ {P : Type 0} (env : Env P) (room : P → ℕ) where
  -- What the base class's socket_open and socket_close keep.
  pub record IsSafe (base : Base P) : Type 0 where
    pub safe_open : (proto : Proto) → Keeps (IsValid env room) (base.socket_open proto)
    pub safe_close : (h : ℕ) → Keeps (IsValid env room) (base.socket_close h)

module _ {P : Type 0} (env : Env P) (room : P → ℕ) (laws : BufferLaws env room) where
  pub get_ip_address-Safe : (b : Bool) → Safe env room laws (get_ip_address env b)
  unfolding get_ip_address cgpaddr cgcontrdp
  get_ip_address-Safe b = search keeps_rules depth 40

  pub gethostbyname-Safe :
      (host : Option (List ℕ)) (b : Bool) (v : IpVersion)
      → Safe env room laws (gethostbyname env host b v)
  unfolding gethostbyname dns_query
  gethostbyname-Safe none b v = search keeps_rules depth 40
  gethostbyname-Safe (some host) b v = search keeps_rules depth 40

  close_live-Safe : (n i : ℕ) (live : ℤ → Bool) → Safe env room laws (close_live env n i live)
  unfolding close_live
  close_live-Safe zero i live = search keeps_rules
  close_live-Safe (suc n) i live = search (keeps_rules, close_live-Safe n) depth 20

  reap_orphan_sockets-Safe : Safe env room laws (reap_orphan_sockets env)
  unfolding reap_orphan_sockets orphan_line
  reap_orphan_sockets-Safe = search (keeps_rules, close_live-Safe) depth 30

  pub start_stack-Safe : Safe env room laws (start_stack env)
  unfolding start_stack
  start_stack-Safe = search (keeps_rules, reap_orphan_sockets-Safe) depth 10

  close_session-Safe : (k : ℤ) (h : Option ℕ) → Safe env room laws (close_session env k h)
  unfolding close_session
  close_session-Safe k none = search keeps_rules depth 20
  close_session-Safe k (some h) =
      let closes = socket_close_impl-Safe env room laws in search (keeps_rules, closes) depth 20

  pub close_tcp_session-Safe : (k : ℤ) → Safe env room laws (close_tcp_session env k)
  unfolding close_tcp_session
  close_tcp_session-Safe k = search (keeps_rules, close_session-Safe) depth 20

  module _ (base : Base P) (safe : IsSafe env room base) where
    connect_session-Safe :
        (address : Address) (use_tls : Bool)
        → Safe env room laws (connect_session env base address use_tls)
    unfolding connect_session
    connect_session-Safe address use_tls = Keeps-bind _ _ (safe.safe_open Proto.tcp) λ opened.
        Keeps-if (not (is_ok opened.0)) _ _ (Keeps-pure _) (
          Keeps-bind _ _ (search keeps_rules depth 10) λ _.
            Keeps-bind _ _ (socket_connect-Safe env room laws _ address) λ err.
              Keeps-if (not (is_ok err)) _ _
                (Keeps-bind _ _ (safe.safe_close opened.1) (λ _. Keeps-pure _))
                (search keeps_rules depth 10))

    pub open_tcp_session-Safe :
        (host : Option (List ℕ)) (port : ℕ) (use_tls : Bool)
        → Safe env room laws (open_tcp_session env base host port use_tls)
    unfolding open_tcp_session resolve
    open_tcp_session-Safe none port use_tls = Keeps-pure _
    open_tcp_session-Safe (some host) port use_tls =
        search (keeps_rules, gethostbyname-Safe, connect_session-Safe) depth 20
