-- ===== src/Stack/Talk.antt =====
-- The conversations of src/ST87M01_CellularStack.cpp with the modem. Parts that run while the
-- caller holds the handler's lock start at a depth that is not zero.
pub mod Traffic
pub mod Sessions
pub mod Entry
use mbed_ce_st87m.Common.{
  ℕ, zero, suc, ◌+◌, ◌≡◌, refl, Bool, Option, none, some, List, [], ◌∷◌, ℤ, below, ◌&&◌, ltb, ◌==ℤ◌,
}
use mbed_ce_st87m.At.{NsapiError, Action, Trace, pure, ◌>>=◌, ◌>>◌}
use mbed_ce_st87m.At.Talk.{
  Moves-calls, talk, quiet, reading, Moves, Stays, Moves-bind, Moves-if, Moves-while, Moves-pure,
  Moves-back_then, Moves-call_then, Moves-get_clock, talk_rules,
}
use mbed_ce_st87m.Stack.Types.{Address, IpVersion, Stack, Env, max_sockets}
use mbed_ce_st87m.Stack.Ip.{
  ipcfg_line, configure_ip, ensure_ip_configured, cgpaddr, cgcontrdp, get_ip_address, dns_query,
  gethostbyname,
}
use mbed_ce_st87m.Stack.Lifetime.{start_stack, end_stack}
use mbed_ce_st87m.Stack.Lifecycle.{
  start_socket, allocate, register, create_on_modem, create_typed, create_socket_impl, release_slot,
  close_on_modem, close_found, socket_close_impl, close_tracked, close_untracked, close_one,
  close_id, close_ids, close_all_sockets, orphan_line, close_live, reap_orphan_sockets,
}
use mbed_ce_st87m.Stack.Connect.{
  connecting, connected_status, closing, status_line, query_tcp_status, poll, await_connect,
  issue_connect, attempts, connect_tcp, ensure_created, socket_connect,
}
use mbed_ce_st87m.Stack.Session.{close_session, close_tcp_session}

module _ {P : Type 0} (env : Env P) {n : ℕ} where
  ipcfg_line-Stays : (cid : ℤ) (b : Bool) → Stays (reading n) (ipcfg_line env cid b)
  unfolding ipcfg_line
  ipcfg_line-Stays cid b = search talk_rules depth 20

  orphan_line-Stays : (live : ℤ → Bool) → Stays (reading n) (orphan_line env live)
  unfolding orphan_line
  orphan_line-Stays live = search talk_rules depth 20

  status_line-Stays : (k found : ℤ) → Stays (reading n) (status_line env k found)
  unfolding status_line
  status_line-Stays k found = search talk_rules depth 20

-- With the lock held.
module _ {P : Type 0} (env : Env P) {n : ℕ} where
  cgpaddr-Stays : (cid : ℤ) → Stays (quiet (suc n)) (cgpaddr env cid)
  unfolding cgpaddr
  cgpaddr-Stays cid = search talk_rules depth 30

  cgcontrdp-Stays : (cid : ℤ) (ip : List ℕ) → Stays (quiet (suc n)) (cgcontrdp env cid ip)
  unfolding cgcontrdp
  cgcontrdp-Stays cid ip = search talk_rules depth 30

  configure_ip-Stays : (cid : ℤ) → Stays (quiet (suc n)) (configure_ip env cid)
  unfolding configure_ip
  configure_ip-Stays cid = search (talk_rules, cgpaddr-Stays) depth 30

  ensure_ip_configured-Stays : Stays (quiet (suc n)) (ensure_ip_configured env)
  unfolding ensure_ip_configured
  ensure_ip_configured-Stays = search (talk_rules, configure_ip-Stays, ipcfg_line-Stays) depth 30

  dns_query-Stays : (host : List ℕ) (v : IpVersion) → Stays (quiet (suc n)) (dns_query env host v)
  unfolding dns_query
  dns_query-Stays host v = search talk_rules depth 30

  release_slot-Stays : (k : ℤ) → Stays (quiet (suc n)) (release_slot env k)
  unfolding release_slot
  release_slot-Stays k = Moves-if (below k max_sockets) _ _ (search talk_rules) (search talk_rules)

  close_found-Stays : (k : ℤ) (h : Option ℕ) → Stays (quiet (suc n)) (close_found env k h)
  unfolding close_found close_on_modem
  close_found-Stays k none = search (talk_rules, release_slot-Stays) depth 20
  close_found-Stays k (some h) = search (talk_rules, release_slot-Stays) depth 20

  pub socket_close_impl-Stays : (k : ℤ) → Stays (quiet (suc n)) (socket_close_impl env k)
  unfolding socket_close_impl
  socket_close_impl-Stays k = search (talk_rules, close_found-Stays) depth 20

  allocate-Stays : (k : ℤ) → Stays (quiet (suc n)) (allocate env k)
  unfolding allocate
  allocate-Stays k = record { at = λ s t h. h }

  register-Stays : (h : ℕ) (ctx k : ℤ) → Stays (quiet (suc n)) (register env h ctx k)
  unfolding register start_socket
  register-Stays h ctx k =
      Moves-if (below k max_sockets) _ _ (search (talk_rules, allocate-Stays) depth 20)
        (search talk_rules depth 20)

  create_on_modem-Stays :
      (h : ℕ) (ctx : ℤ) (name : List ℕ) → Stays (quiet (suc n)) (create_on_modem env h ctx name)
  unfolding create_on_modem
  create_on_modem-Stays h ctx name = search talk_rules depth 30

  create_typed-Stays :
      (h : ℕ) (ctx : ℤ) (name : Option (List ℕ))
      → Stays (quiet (suc n)) (create_typed env h ctx name)
  unfolding create_typed
  create_typed-Stays h ctx none = search talk_rules
  create_typed-Stays h ctx (some name) =
      search (talk_rules, create_on_modem-Stays, register-Stays) depth 20

  pub create_socket_impl-Stays :
      (h : Option ℕ) (ctx : ℤ) → Stays (quiet (suc n)) (create_socket_impl env h ctx)
  unfolding create_socket_impl
  create_socket_impl-Stays none ctx = search talk_rules
  create_socket_impl-Stays (some h) ctx =
      search (talk_rules, create_typed-Stays, ensure_ip_configured-Stays) depth 20

  query_tcp_status-Stays : (k : ℤ) → Stays (quiet (suc n)) (query_tcp_status env k)
  unfolding query_tcp_status
  query_tcp_status-Stays k = search (talk_rules, status_line-Stays) depth 20

  poll-Stays :
      (m : ℕ) (k : ℤ) (deadline : ℕ) (status : ℤ)
      → Stays (quiet (suc n)) (poll env m k deadline status)
  unfolding poll
  poll-Stays zero k deadline status = search talk_rules
  poll-Stays (suc m) k deadline status = Moves-back_then _ _ (Moves-get_clock env.modem) λ now.
      Moves-while ((status ==ℤ connecting) && ltb now deadline) _ _
        (Moves-call_then _ _ (
          Moves-back_then _ _ (query_tcp_status-Stays k)
            (λ status'. poll-Stays m k deadline status')))
        (Moves-pure _)

  issue_connect-Stays :
      (timeout_ms : ℕ) (k : ℤ) (address : Address)
      → Stays (quiet (suc n)) (issue_connect env timeout_ms k address)
  unfolding issue_connect
  issue_connect-Stays timeout_ms k address = search (talk_rules, query_tcp_status-Stays) depth 20

  attempts-Stays :
      (m a timeout_ms : ℕ) (k : ℤ) (address : Address) (status : ℤ)
      → Stays (quiet (suc n)) (attempts env m a timeout_ms k address status)
  unfolding attempts await_connect
  attempts-Stays zero a timeout_ms k address status = search talk_rules
  attempts-Stays (suc m) a timeout_ms k address status =
      let next = attempts-Stays m (a + 1) timeout_ms k address in
      Moves-if (status ==ℤ connected_status) _ _ (Moves-pure _) (
        Moves-if (status ==ℤ closing) _ _ (Moves-pure _) (
          Moves-if (status ==ℤ connecting) _ _
            (Moves-back_then _ _ (search (talk_rules, poll-Stays) depth 10) next)
            (Moves-back_then _ _ (issue_connect-Stays timeout_ms k address)
              (λ status'. Moves-back_then _ _ (search talk_rules depth 10) (λ _. next status')))))

  connect_tcp-Stays :
      (h : ℕ) (address : Address) → Stays (quiet (suc n)) (connect_tcp env h address)
  unfolding connect_tcp
  connect_tcp-Stays h address = search (talk_rules, query_tcp_status-Stays, attempts-Stays) depth 20

  ensure_created-Stays : (h : ℕ) → Stays (quiet (suc n)) (ensure_created env h)
  unfolding ensure_created
  ensure_created-Stays h = search (talk_rules, create_socket_impl-Stays) depth 20

  close_one-Stays :
      (k : ℤ) (e : NsapiError) (h : Option ℕ) → Stays (quiet (suc n)) (close_one env k e h)
  unfolding close_one close_tracked close_untracked
  close_one-Stays k e none = search talk_rules depth 30
  close_one-Stays k e (some h) = search talk_rules depth 30

  close_ids-Stays : (m i : ℕ) (e : NsapiError) → Stays (quiet (suc n)) (close_ids env m i e)
  unfolding close_ids close_id
  close_ids-Stays zero i e = search talk_rules
  close_ids-Stays (suc m) i e =
      Moves-back_then _ _ (search (talk_rules, close_one-Stays) depth 10)
        (λ e'. close_ids-Stays m (i + 1) e')

  close_live-Stays : (m i : ℕ) (live : ℤ → Bool) → Stays (quiet (suc n)) (close_live env m i live)
  unfolding close_live
  close_live-Stays zero i live = search talk_rules
  close_live-Stays (suc m) i live = search (talk_rules, close_live-Stays m) depth 20

-- The operations that take the lock.
module _ {P : Type 0} (env : Env P) {n : ℕ} where
  pub get_ip_address-Stays : (b : Bool) → Stays (quiet n) (get_ip_address env b)
  unfolding get_ip_address
  get_ip_address-Stays b = search (talk_rules, cgpaddr-Stays, cgcontrdp-Stays) depth 30

  pub gethostbyname-Stays :
      (host : Option (List ℕ)) (b : Bool) (v : IpVersion)
      → Stays (quiet n) (gethostbyname env host b v)
  unfolding gethostbyname
  gethostbyname-Stays none b v = search talk_rules depth 10
  gethostbyname-Stays (some host) b v = search (talk_rules, dns_query-Stays) depth 30

  pub close_all_sockets-Stays : Stays (quiet n) (close_all_sockets env)
  unfolding close_all_sockets
  close_all_sockets-Stays = search (talk_rules, close_ids-Stays) depth 20

  pub reap_orphan_sockets-Stays : Stays (quiet n) (reap_orphan_sockets env)
  unfolding reap_orphan_sockets
  reap_orphan_sockets-Stays = search (talk_rules, orphan_line-Stays, close_live-Stays) depth 30

  pub start_stack-Stays : Stays (quiet n) (start_stack env)
  unfolding start_stack
  start_stack-Stays = Moves-back_then _ _ (Moves-calls _ refl) (λ _. reap_orphan_sockets-Stays)

  pub end_stack-Stays : Stays (quiet n) (end_stack env)
  unfolding end_stack
  end_stack-Stays = search talk_rules depth 20

  close_session-Stays : (k : ℤ) (h : Option ℕ) → Stays (quiet n) (close_session env k h)
  unfolding close_session
  close_session-Stays k none = search talk_rules depth 20
  close_session-Stays k (some h) = search (talk_rules, socket_close_impl-Stays) depth 20

  pub close_tcp_session-Stays : (k : ℤ) → Stays (quiet n) (close_tcp_session env k)
  unfolding close_tcp_session
  close_tcp_session-Stays k = search (talk_rules, close_session-Stays) depth 20

  pub socket_connect-Stays :
      (h : Option ℕ) (address : Address) → Stays (quiet n) (socket_connect env h address)
  unfolding socket_connect
  socket_connect-Stays none address = search talk_rules
  socket_connect-Stays (some h) address =
      search (talk_rules, ensure_created-Stays, connect_tcp-Stays) depth 30
