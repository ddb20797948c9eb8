-- ===== src/Stack/Lifecycle.antt =====
-- Creating and closing sockets: create_socket_impl, socket_close_impl, close_all_sockets,
-- reap_orphan_sockets, set_sslctxid and create_tls_socket.
use mbed_ce_st87m.Common.{
  ℕ, zero, suc, ◌+◌, Bool, true, false, not, ◌&&◌, ◌||◌, Option, none, some, List, [], ◌∷◌, ltb,
  leb, ◌==◌, if◌then◌else◌, ℤ, pos, minus_one, is_neg, ◌==ℤ◌, below,
}
use mbed_ce_st87m.At.{
  NsapiError, ok, parameter, no_socket, no_memory, is_ok, lock, unlock, clear_error, cmd_stop,
  resp_stop, cmd_start, resp_start, cmd_start_stop, write_int, write_string, Action, pure, modify,
  call, calls, ◌>>=◌, ◌>>◌, get_last_error, get_last_device_error, next_line, int_of, discard,
  each_line,
}
use mbed_ce_st87m.Stack.Types.{
  Proto, is_ipv6, Stack, Env, get_state, set_socket, find, update_at, max_sockets,
}
use mbed_ce_st87m.Stack.Slots.{allocate_rx_buffer, free_rx_buffer}
use mbed_ce_st87m.Stack.Ip.{ensure_ip_configured}

-- "UDP", "TCP"; any other protocol has no name.
unfoldable pub socket_type : Proto → Option (List ℕ)
socket_type Proto.udp = some (b'U' ∷ b'D' ∷ b'P' ∷ [])
socket_type Proto.tcp = some (b'T' ∷ b'C' ∷ b'P' ∷ [])
socket_type Proto.other_proto = none

-- Local ports above 49407 are left to the modem.
abbrev pub modem_port : ℕ → ℕ
modem_port port = if ltb 49407 port then 0 else port

-- socket->tls_socket ? _sslctxID : -1
unfoldable pub profile_of : {P : Type 0} → ℕ → Stack P → ℤ
profile_of h s = if (s.sockets h).tls_socket then s.sslctx_id else minus_one

module _ {P : Type 0} (env : Env P) where
  -- socket->id = sock_id; socket->started = true
  unfoldable pub start_socket : ℕ → ℤ → Action (Stack P) NsapiError
  start_socket h k = do
    modify (λ s. set_socket h (record (s.sockets h) { id = k; started = true }) s)
    pure ok

  unfoldable pub allocate : ℤ → Action (Stack P) Bool
  allocate k s t = let (got, s') = allocate_rx_buffer env k s in (got, s', t)

  -- What create_socket_impl does with the id that the modem gave.
  unfoldable pub register : ℕ → ℤ → ℤ → Action (Stack P) NsapiError
  register h ctx k =
      if below k max_sockets
      then (do
        modify (λ s. record s { socket_sslctx = update_at s.socket_sslctx k ctx })
        got ← allocate k
        if got then start_socket h k else do
          s ← get_state
          _ ← discard env.modem "#SOCKETCLOSE" "=" (s.cid ∷ k ∷ [])
          pure no_memory)
      else start_socket h k

  -- AT#SOCKETCREATE and its answer: the id, -1 when there is none.
  unfoldable pub create_on_modem : ℕ → ℤ → List ℕ → Action (Stack P) ℤ
  create_on_modem h ctx type_name = do
    s ← get_state
    let local_port = modem_port (s.sockets h).local_port
    let io_timeout = pos (if is_neg ctx then 10 else 60)
    calls (
        cmd_start "AT#SOCKETCREATE="
        ∷ write_int s.cid
        ∷ write_int (if is_ipv6 s.ip_ver_sendto then pos 1 else pos 0)
        ∷ write_string type_name false
        ∷ [])
    call (if local_port == 0 then write_string [] false else write_int (pos local_port))
    calls (write_int io_timeout ∷ write_int io_timeout ∷ write_int (pos 1) ∷ [])
    if is_neg ctx then pure tt else call (write_int ctx)
    calls (cmd_stop ∷ resp_start "#SOCKETCREATE:" ∷ [])
    more ← next_line env.modem
    sock_id ← (if more then int_of env.modem else pure minus_one)
    call resp_stop
    pure sock_id

  unfoldable pub create_typed : ℕ → ℤ → Option (List ℕ) → Action (Stack P) NsapiError
  create_typed h ctx none = pure parameter
  create_typed h ctx (some type_name) = do
    sock_id ← create_on_modem h ctx type_name
    e ← get_last_error env.modem
    if not (is_ok e) || (sock_id ==ℤ minus_one) then pure no_socket else register h ctx sock_id

  -- create_socket_impl(socket, sslctxID); a null socket is none.
  unfoldable pub create_socket_impl : Option ℕ → ℤ → Action (Stack P) NsapiError
  create_socket_impl none ctx = pure no_socket
  create_socket_impl (some h) ctx = do
    ip_err ← ensure_ip_configured env
    if not (is_ok ip_err)
        then pure ip_err
        else do s ← get_state; create_typed h ctx (socket_type (s.sockets h).proto)

  -- create_socket_impl(socket)
  unfoldable pub create_socket_default : ℕ → Action (Stack P) NsapiError
  create_socket_default h = do s ← get_state; create_socket_impl (some h) (profile_of h s)

  -- set_sslctxid
  unfoldable pub set_sslctxid : ℤ → Stack P → Stack P
  set_sslctxid (pos n) s = record s { sslctx_id = if leb n 15 then pos n else env.default_sslctx }
  set_sslctxid k s = record s { sslctx_id = if k ==ℤ minus_one then k else env.default_sslctx }

  -- create_tls_socket
  unfoldable pub create_tls_socket : Option ℕ → ℤ → Action (Stack P) NsapiError
  create_tls_socket h ctx = do
    s ← get_state
    create_socket_impl h (if is_neg ctx || not (below ctx 17) then s.sslctx_id else ctx)

  -- The slot set free: its TLS profile and its receive buffer.
  unfoldable pub release_slot : ℤ → Action (Stack P) (Unit {0})
  release_slot k =
      if below k max_sockets
      then modify (λ s.
        free_rx_buffer env k (record s { socket_sslctx = update_at s.socket_sslctx k minus_one }))
      else pure tt

  -- The end of socket_close_impl: the command, and the slot set free whatever the modem says.
  unfoldable pub close_on_modem : ℤ → Action (Stack P) NsapiError
  close_on_modem k = do
    s ← get_state
    err ← discard env.modem "#SOCKETCLOSE" "=" (s.cid ∷ k ∷ [])
    release_slot k
    pure err

  unfoldable pub close_found : ℤ → Option ℕ → Action (Stack P) NsapiError
  close_found k none = close_on_modem k
  close_found k (some h) = do
    s ← get_state
    if (s.sockets h).closed then pure ok else do
      modify (λ s'. set_socket h (record (s'.sockets h) { txfull_event = false }) s')
      close_on_modem k

  -- socket_close_impl
  unfoldable pub socket_close_impl : ℤ → Action (Stack P) NsapiError
  socket_close_impl k = do s ← get_state; close_found k (find env s k)

  -- close_all_sockets at one id: the error to report from there on.
  unfoldable pub close_tracked : ℤ → ℕ → NsapiError → Action (Stack P) NsapiError
  close_tracked k h last_err = do
    s ← get_state
    if (s.sockets h).closed || is_neg (s.sockets h).id then pure last_err else do
      err ← discard env.modem "#SOCKETCLOSE" "=" (s.cid ∷ k ∷ [])
      if not (is_ok err) then pure err else do
        modify (λ s'. set_socket h (record (s'.sockets h) { closed = true }) s')
        pure last_err

  unfoldable pub close_untracked : ℤ → NsapiError → Action (Stack P) NsapiError
  close_untracked k last_err = do
    s ← get_state
    err ← discard env.modem "#SOCKETCLOSE" "=" (s.cid ∷ k ∷ [])
    if is_ok err then pure last_err else do
      dev_err ← get_last_device_error env.modem
      call clear_error
      pure (if dev_err.cme then last_err else err)

  unfoldable pub close_one : ℤ → NsapiError → Option ℕ → Action (Stack P) NsapiError
  close_one k last_err none = close_untracked k last_err
  close_one k last_err (some h) = close_tracked k h last_err

  unfoldable pub close_id : ℤ → NsapiError → Action (Stack P) NsapiError
  close_id k last_err = do s ← get_state; close_one k last_err (find env s k)

  -- for (sock_id = first; sock_id < first + rounds; sock_id++)
  unfoldable pub close_ids : ℕ → ℕ → NsapiError → Action (Stack P) NsapiError
  close_ids zero first last_err = pure last_err
  close_ids (suc rounds) first last_err =
      close_id (pos first) last_err >>= λ err. close_ids rounds (first + 1) err

  -- close_all_sockets
  unfoldable pub close_all_sockets : Action (Stack P) NsapiError
  close_all_sockets = do
    call lock
    last_err ← close_ids max_sockets 0 ok
    call unlock
    pure last_err

  -- One line of the answer to AT#SOCKETCREATE?.
  unfoldable pub orphan_line : (ℤ → Bool) → Action (Stack P) (ℤ → Bool)
  orphan_line live = do
    ctx ← int_of env.modem
    sid ← int_of env.modem
    status ← int_of env.modem
    s ← get_state
    pure (
        if (ctx ==ℤ s.cid) && not (status ==ℤ pos 0) && below sid max_sockets
        then update_at live sid true
        else live)

  unfoldable pub close_live : ℕ → ℕ → (ℤ → Bool) → Action (Stack P) (Unit {0})
  close_live zero i live = pure tt
  close_live (suc rounds) i live = do
    s ← get_state
    if live (pos i)
        then (do _ ← discard env.modem "#SOCKETCLOSE" "=" (s.cid ∷ pos i ∷ []); pure tt)
        else pure tt
    close_live rounds (i + 1) live

  -- reap_orphan_sockets
  unfoldable pub reap_orphan_sockets : Action (Stack P) (Unit {0})
  reap_orphan_sockets = do
    calls (lock ∷ cmd_start_stop "#SOCKETCREATE" "?" [] ∷ resp_start "#SOCKETCREATE:" ∷ [])
    live ← each_line env.modem env.modem.line_limit orphan_line (λ _. false)
    calls (resp_stop ∷ clear_error ∷ [])
    close_live max_sockets 0 live
    calls (clear_error ∷ unlock ∷ [])
