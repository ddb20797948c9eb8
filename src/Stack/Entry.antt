-- ===== src/Stack/Entry.antt =====
-- Every way into the stack: its constructor and destructor, its public and protected operations in
-- both builds, what mbed's base class does through them, the handlers of unsolicited result codes
-- and the timer.
use mbed_ce_st87m.Common.{ℕ, suc, Bool, Option, List, [], ◌∷◌, ℤ}
use mbed_ce_st87m.At.{Action, pure, modify, ◌>>=◌, ◌>>◌}
use mbed_ce_st87m.At.Talk.{Talk, quiet, reading}
use mbed_ce_st87m.Tls.{Library}
use mbed_ce_st87m.Stack.Types.{Proto, Address, IpVersion, Stack, Env}
use mbed_ce_st87m.Stack.Ip.{get_ip_address, gethostbyname}
use mbed_ce_st87m.Stack.Lifetime.{start_stack, end_stack}
use mbed_ce_st87m.Stack.Lifecycle.{
  create_socket_impl, create_tls_socket, set_sslctxid, socket_close_impl, close_all_sockets,
}
use mbed_ce_st87m.Stack.Connect.{socket_connect}
use mbed_ce_st87m.Stack.Session.{Base, open_tcp_session, close_tcp_session}
use mbed_ce_st87m.Stack.Send.{socket_sendto_impl}
use mbed_ce_st87m.Stack.Receive.{socket_recvfrom_impl}
use mbed_ce_st87m.Stack.Events.{urc_iprecv, urc_socketclosed, txfull_event_timeout}
use mbed_ce_st87m.Stack.Options.{Level, TlsOption, BaseSetsockopt, setsockopt_offloaded, setsockopt}

-- What of mbed's base class the stack runs on, and the TLS library.
pub record Around (P : Type 0) : Type 0 where
  pub base : Base P
  pub base_setsockopt : BaseSetsockopt P
  pub lib : Library

pub data Entry : Type 0 where
  start finish : Entry
  get_address : Bool → Entry
  resolve_name : Option (List ℕ) → Bool → IpVersion → Entry
  connect_socket : Option ℕ → Address → Entry
  close_every : Entry
  open_tcp : Option (List ℕ) → ℕ → Bool → Entry
  close_tcp : ℤ → Entry
  select_profile : ℤ → Entry
  set_option set_option_offloaded : Option ℕ → Level → TlsOption → Option (List ℕ) → Entry
  base_open : Proto → Entry
  base_close : ℕ → Entry
  create create_tls : Option ℕ → ℤ → Entry
  close : ℤ → Entry
  send : ℕ → Address → List ℕ → Entry
  receive : ℕ → ℕ → Entry
  data_arrived socket_closed timer_fired : Entry

-- Where the conversation stands. The base class holds the lock around the protected operations;
-- create_tls_socket is public, but takes no lock, so that its caller has to hold it. A handler
-- reads the line that has arrived. What else is entered needs no lock.
abbrev pub entered_at : Entry → ℕ → Talk
entered_at (Entry.create h ctx) n = quiet (suc n)
entered_at (Entry.create_tls h ctx) n = quiet (suc n)
entered_at (Entry.close k) n = quiet (suc n)
entered_at (Entry.send h address payload) n = quiet (suc n)
entered_at (Entry.receive h want) n = quiet (suc n)
entered_at Entry.data_arrived n = reading n
entered_at Entry.socket_closed n = reading n
entered_at _ n = quiet n

module _ {P : Type 0} (env : Env P) (around : Around P) where
  unfoldable pub enter : Entry → Action (Stack P) (Unit {0})
  enter Entry.start = start_stack env
  enter Entry.finish = end_stack env
  enter (Entry.get_address b) = do _ ← get_ip_address env b; pure tt
  enter (Entry.resolve_name host b v) = do _ ← gethostbyname env host b v; pure tt
  enter (Entry.connect_socket h address) = do _ ← socket_connect env h address; pure tt
  enter Entry.close_every = do _ ← close_all_sockets env; pure tt
  enter (Entry.open_tcp host port use_tls) = do
    _ ← open_tcp_session env around.base host port use_tls
    pure tt
  enter (Entry.close_tcp k) = do _ ← close_tcp_session env k; pure tt
  enter (Entry.select_profile ctx) = modify (set_sslctxid env ctx)
  enter (Entry.set_option h level name value) = do
    _ ← setsockopt around.base_setsockopt h level name value
    pure tt
  enter (Entry.set_option_offloaded h level name value) = do
    _ ← setsockopt_offloaded around.lib around.base_setsockopt h level name value
    pure tt
  enter (Entry.base_open proto) = do _ ← around.base.socket_open proto; pure tt
  enter (Entry.base_close h) = do _ ← around.base.socket_close h; pure tt
  enter (Entry.create h ctx) = do _ ← create_socket_impl env h ctx; pure tt
  enter (Entry.create_tls h ctx) = do _ ← create_tls_socket env h ctx; pure tt
  enter (Entry.close k) = do _ ← socket_close_impl env k; pure tt
  enter (Entry.send h address payload) = do _ ← socket_sendto_impl env h address payload; pure tt
  enter (Entry.receive h want) = do _ ← socket_recvfrom_impl env h want; pure tt
  enter Entry.data_arrived = urc_iprecv env
  enter Entry.socket_closed = urc_socketclosed env
  enter Entry.timer_fired = txfull_event_timeout env

  unfoldable pub enter_all : List Entry → Action (Stack P) (Unit {0})
  enter_all [] = pure tt
  enter_all (e ∷ es) = do enter e; enter_all es
