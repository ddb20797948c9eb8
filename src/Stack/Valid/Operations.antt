-- ===== src/Stack/Valid/Operations.antt =====
-- Every operation of the stack keeps the invariant of the receive buffers.
use mbed_ce_st87m.Common.{
  ℕ, zero, suc, Option, none, some, List, ℤ, pos, ◌==ℤ◌, ◌+◌, ◌&&◌, ltb, below,
}
use mbed_ce_st87m.At.{NsapiError, Action}
use mbed_ce_st87m.At.Keeps.{
  Keeps, Keeps-if, Keeps-bind, Keeps-modify, Keeps-call, Keeps-pure, Keeps-get_clock, Keeps-while,
  keeps_rules,
}
use mbed_ce_st87m.Stack.Types.{Stack, Env, Address, max_sockets}
use mbed_ce_st87m.Stack.Valid.{
  BufferLaws, IsValid, allocate_rx_buffer-IsValid, free_rx_buffer-IsValid,
}
use mbed_ce_st87m.Stack.Ip.{ensure_ip_configured, configure_ip, ipcfg_line, cgpaddr}
use mbed_ce_st87m.Stack.Lifecycle.{
  start_socket, allocate, create_typed, release_slot, close_found, close_tracked, close_untracked,
  register, create_on_modem, create_socket_impl, close_on_modem, socket_close_impl, close_one,
  close_id, close_ids, close_all_sockets, create_tls_socket,
}
use mbed_ce_st87m.Stack.Connect.{
  connecting, connected_status, closing, status_line, query_tcp_status, poll, await_connect,
  issue_connect, attempts, connect_tcp, ensure_created, socket_connect,
}

module _ {P : Type 0} (env : Env P) (room : P → ℕ) (laws : BufferLaws env room) where
  abbrev pub Safe : {A : Type 0} → Action (Stack P) A → Type 0
  Safe = Keeps (IsValid env room)

  ensure_ip_configured-Safe : Safe (ensure_ip_configured env)
  unfolding ensure_ip_configured configure_ip ipcfg_line cgpaddr
  ensure_ip_configured-Safe = search keeps_rules depth 40

  allocate-Safe : (k : ℤ) → Safe (allocate env k)
  unfolding allocate
  allocate-Safe k = record { at = λ s t v. allocate_rx_buffer-IsValid env room laws k s v }

  start_socket-Safe : (h : ℕ) (k : ℤ) → Safe (start_socket env h k)
  unfolding start_socket
  start_socket-Safe h k = search keeps_rules depth 40

  register-Safe : (h : ℕ) (ctx k : ℤ) → Safe (register env h ctx k)
  unfolding register
  register-Safe h ctx k =
      Keeps-if (below k max_sockets) _ _
        (search (keeps_rules, allocate-Safe, start_socket-Safe) depth 20) (start_socket-Safe h k)

  create_on_modem-Safe : (h : ℕ) (ctx : ℤ) (ty : List ℕ) → Safe (create_on_modem env h ctx ty)
  unfolding create_on_modem
  create_on_modem-Safe h ctx ty = search keeps_rules depth 40

  create_typed-Safe : (h : ℕ) (ctx : ℤ) (ty : Option (List ℕ)) → Safe (create_typed env h ctx ty)
  unfolding create_typed
  create_typed-Safe h ctx none = search keeps_rules
  create_typed-Safe h ctx (some ty) =
      search (keeps_rules, create_on_modem-Safe, register-Safe) depth 20

  pub create_socket_impl-Safe : (h : Option ℕ) (ctx : ℤ) → Safe (create_socket_impl env h ctx)
  unfolding create_socket_impl
  create_socket_impl-Safe none ctx = search keeps_rules
  create_socket_impl-Safe (some h) ctx =
      search (keeps_rules, ensure_ip_configured-Safe, create_typed-Safe) depth 20

  pub create_tls_socket-Safe : (h : Option ℕ) (ctx : ℤ) → Safe (create_tls_socket env h ctx)
  unfolding create_tls_socket
  create_tls_socket-Safe h ctx = search (keeps_rules, create_socket_impl-Safe) depth 20

  release_slot-Safe : (k : ℤ) → Safe (release_slot env k)
  unfolding release_slot
  release_slot-Safe k =
      Keeps-if (below k max_sockets) _ _
        (Keeps-modify _ (λ s v. free_rx_buffer-IsValid env room laws k _ v)) (search keeps_rules)

  close_on_modem-Safe : (k : ℤ) → Safe (close_on_modem env k)
  unfolding close_on_modem
  close_on_modem-Safe k = search (keeps_rules, release_slot-Safe) depth 20

  close_found-Safe : (k : ℤ) (h : Option ℕ) → Safe (close_found env k h)
  unfolding close_found
  close_found-Safe k none = close_on_modem-Safe k
  close_found-Safe k (some h) = search (keeps_rules, close_on_modem-Safe) depth 20

  pub socket_close_impl-Safe : (k : ℤ) → Safe (socket_close_impl env k)
  unfolding socket_close_impl
  socket_close_impl-Safe k = search (keeps_rules, close_found-Safe) depth 20

  close_one-Safe : (k : ℤ) (e : NsapiError) (h : Option ℕ) → Safe (close_one env k e h)
  unfolding close_one close_tracked close_untracked
  close_one-Safe k e none = search keeps_rules depth 20
  close_one-Safe k e (some h) = search keeps_rules depth 20

  close_id-Safe : (k : ℤ) (e : NsapiError) → Safe (close_id env k e)
  unfolding close_id
  close_id-Safe k e = search (keeps_rules, close_one-Safe) depth 20

  close_ids-Safe : (n i : ℕ) (e : NsapiError) → Safe (close_ids env n i e)
  unfolding close_ids
  close_ids-Safe zero i e = search keeps_rules
  close_ids-Safe (suc n) i e =
      Keeps-bind _ _ (close_id-Safe (pos i) e) (λ e'. close_ids-Safe n (i + 1) e')

  pub close_all_sockets-Safe : Safe (close_all_sockets env)
  unfolding close_all_sockets
  close_all_sockets-Safe = search (keeps_rules, close_ids-Safe) depth 20

  query_tcp_status-Safe : (k : ℤ) → Safe (query_tcp_status env k)
  unfolding query_tcp_status status_line
  query_tcp_status-Safe k = search keeps_rules depth 20

  poll-Safe : (n : ℕ) (k : ℤ) (d : ℕ) (st : ℤ) → Safe (poll env n k d st)
  unfolding poll
  poll-Safe zero k d st = search keeps_rules
  poll-Safe (suc n) k d st = Keeps-bind _ _ (Keeps-get_clock env.modem) λ now.
      Keeps-while ((st ==ℤ connecting) && ltb now d) _ _
        (Keeps-bind _ _ (Keeps-call _)
          (λ _. Keeps-bind _ _ (query_tcp_status-Safe k) (λ st'. poll-Safe n k d st')))
        (Keeps-pure _)

  await_connect-Safe : (timeout : ℕ) (k st : ℤ) → Safe (await_connect env timeout k st)
  unfolding await_connect
  await_connect-Safe timeout k st = search (keeps_rules, poll-Safe) depth 20

  issue_connect-Safe :
      (timeout : ℕ) (k : ℤ) (address : Address) → Safe (issue_connect env timeout k address)
  unfolding issue_connect
  issue_connect-Safe timeout k address = search (keeps_rules, query_tcp_status-Safe) depth 20

  attempts-Safe :
      (n a timeout : ℕ) (k : ℤ) (address : Address) (st : ℤ)
      → Safe (attempts env n a timeout k address st)
  unfolding attempts
  attempts-Safe zero a timeout k address st = search keeps_rules
  attempts-Safe (suc n) a timeout k address st =
      Keeps-if (st ==ℤ connected_status) _ _ (Keeps-pure _) (
        Keeps-if (st ==ℤ closing) _ _ (Keeps-pure _) (
          Keeps-if (st ==ℤ connecting) _ _
            (Keeps-bind _ _ (await_connect-Safe timeout k st)
              (λ st'. attempts-Safe n (a + 1) timeout k address st'))
            (Keeps-bind _ _ (issue_connect-Safe timeout k address) (λ st'.
              Keeps-bind _ _ (search keeps_rules)
                (λ _. attempts-Safe n (a + 1) timeout k address st')))))

  pub socket_connect-Safe : (h : Option ℕ) (address : Address) → Safe (socket_connect env h address)
  unfolding socket_connect connect_tcp ensure_created
  socket_connect-Safe none address = search keeps_rules
  socket_connect-Safe (some h) address =
      search (keeps_rules, create_socket_impl-Safe, query_tcp_status-Safe, attempts-Safe) depth 30
