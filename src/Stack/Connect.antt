-- ===== src/Stack/Connect.antt =====
-- query_tcp_status and socket_connect: the retry and polling loops around AT#TCPCONNECT.
use mbed_ce_st87m.Common.{
  ℕ, zero, suc, ◌+◌, ◌/◌, Bool, true, false, not, ◌&&◌, Option, none, some, [], ◌∷◌, ltb,
  if◌then◌else◌, ℤ, pos, minus_one, ◌==ℤ◌,
}
use mbed_ce_st87m.At.{
  NsapiError, ok, no_socket, no_connection, is_ok, lock, unlock, clear_error, cmd_stop, resp_stop,
  restore_at_timeout, cmd_start, resp_start, cmd_start_stop, write_int, write_string,
  set_at_timeout, sleep_for, Action, pure, modify, call, calls, ◌>>=◌, ◌>>◌, get_last_error,
  get_clock, int_of, each_line,
}
use mbed_ce_st87m.Stack.Types.{Proto, Address, Stack, Env, get_state, set_socket}
use mbed_ce_st87m.Stack.Lifecycle.{create_socket_impl, profile_of}

-- The states of AT#TCPCONNECT? that the driver tests.
abbrev pub connecting : ℤ
connecting = pos 4

abbrev pub connected_status : ℤ
connected_status = pos 5

abbrev pub closing : ℤ
closing = pos 6

-- OP_TCP_CONNECT_ATTEMPTS, OP_TCP_RETRY_BACKOFF and OP_TCP_POLL_INTERVAL, in milliseconds
abbrev pub connect_attempts : ℕ
connect_attempts = 2

abbrev pub retry_backoff : ℕ
retry_backoff = 500

abbrev pub poll_interval : ℕ
poll_interval = 500

abbrev pub is_tcp : Proto → Bool
is_tcp Proto.tcp = true
is_tcp _ = false

module _ {P : Type 0} (env : Env P) where
  -- One line of the answer to AT#TCPCONNECT?.
  unfoldable pub status_line : ℤ → ℤ → Action (Stack P) ℤ
  status_line k found = do
    ctx ← int_of env.modem
    sid ← int_of env.modem
    st ← int_of env.modem
    s ← get_state
    pure (if (ctx ==ℤ s.cid) && (sid ==ℤ k) then st else found)

  -- query_tcp_status
  unfoldable pub query_tcp_status : ℤ → Action (Stack P) ℤ
  query_tcp_status k = do
    calls (cmd_start_stop "#TCPCONNECT" "?" [] ∷ resp_start "#TCPCONNECT:" ∷ [])
    found ← each_line env.modem env.modem.line_limit (status_line k) minus_one
    call resp_stop
    e ← get_last_error env.modem
    if is_ok e then pure tt else call clear_error
    pure found

  -- while (status == 4 && now() < deadline) { sleep; query }, on fuel: the polls that fit before
  -- the deadline.
  unfoldable pub poll : ℕ → ℤ → ℕ → ℤ → Action (Stack P) ℤ
  poll zero k deadline status = pure status
  poll (suc fuel) k deadline status = do
    now ← get_clock env.modem
    elim ((status ==ℤ connecting) && ltb now deadline) [
      | true ↦ (do
        call (sleep_for poll_interval)
        status' ← query_tcp_status k
        poll fuel k deadline status')
      | false ↦ pure status
    ]

  -- The branch for a connection in flight: poll until it is decided or the time is up.
  unfoldable pub await_connect : ℕ → ℤ → ℤ → Action (Stack P) ℤ
  await_connect timeout_ms k status = do
    now ← get_clock env.modem
    poll (timeout_ms / poll_interval + 1) k (now + timeout_ms) status

  -- AT#TCPCONNECT= and the status after it.
  unfoldable pub issue_connect : ℕ → ℤ → Address → Action (Stack P) ℤ
  issue_connect timeout_ms k address = do
    s ← get_state
    calls (
        set_at_timeout timeout_ms false
        ∷ cmd_start "AT#TCPCONNECT="
        ∷ write_int s.cid
        ∷ write_int k
        ∷ write_string address.ip false
        ∷ write_int (pos address.port)
        ∷ cmd_stop
        ∷ resp_start ""
        ∷ resp_stop
        ∷ restore_at_timeout
        ∷ [])
    last_conn_err ← get_last_error env.modem
    if is_ok last_conn_err then pure tt else call clear_error
    query_tcp_status k

  -- for (attempt; !connected && attempt < 2; attempt++), recursing on the attempts left: whether
  -- the socket is connected in the end.
  unfoldable pub attempts : ℕ → ℕ → ℕ → ℤ → Address → ℤ → Action (Stack P) Bool
  attempts zero attempt timeout_ms k address status = pure (status ==ℤ connected_status)
  attempts (suc left) attempt timeout_ms k address status =
      if status ==ℤ connected_status
      then pure true
      else if status ==ℤ closing
      then pure false
      else if status ==ℤ connecting
      then (do
        status' ← await_connect timeout_ms k status
        attempts left (attempt + 1) timeout_ms k address status')
      else do
        status' ← issue_connect timeout_ms k address
        if not (status' ==ℤ connected_status) && ltb (attempt + 1) connect_attempts
            then call (sleep_for retry_backoff)
            else pure tt
        attempts left (attempt + 1) timeout_ms k address status'

  unfoldable pub connect_timeout : Bool → ℕ
  connect_timeout tls_socket = if tls_socket then 65000 else 15000

  -- The TCP part of socket_connect: whether the modem has the connection.
  unfoldable pub connect_tcp : ℕ → Address → Action (Stack P) Bool
  connect_tcp h address = do
    s ← get_state
    let sock = s.sockets h
    status ← query_tcp_status sock.id
    attempts connect_attempts 0 (connect_timeout sock.tls_socket) sock.id address status

  -- The first part of socket_connect: a socket that has no id yet is created.
  unfoldable pub ensure_created : ℕ → Action (Stack P) NsapiError
  ensure_created h = do
    s ← get_state
    if not ((s.sockets h).id ==ℤ minus_one)
        then pure ok
        else create_socket_impl env (some h) (profile_of h s)

  -- socket_connect
  unfoldable pub socket_connect : Option ℕ → Address → Action (Stack P) NsapiError
  socket_connect none address = pure no_socket
  socket_connect (some h) address = do
    call lock
    error_create ← ensure_created h
    if not (is_ok error_create) then (do call unlock; pure error_create) else do
      s ← get_state
      connected ← (if is_tcp (s.sockets h).proto then connect_tcp h address else pure true)
      call unlock
      if not connected then pure no_connection else do
        modify (λ s'.
            set_socket h (record (s'.sockets h) { remote_address = address; connected = true }) s')
        pure ok
