-- ===== src/Stack/Send.antt =====
-- socket_sendto_impl: the hex payload, the retries of UDP, and the back-off of TCP.
use mbed_ce_st87m.Common.{
  ℕ, zero, suc, Bool, true, false, not, ◌&&◌, ◌||◌, Option, none, some, List, [], ◌∷◌, ◌==◌,
  if◌then◌else◌, ℤ, pos, ◌==ℤ◌, take, length,
}
use mbed_ce_st87m.At.{
  parameter, connection_lost, would_block, no_memory, is_ok, SizeOrError, size, failed, DeviceError,
  AtCall, clear_error, cmd_stop, resp_stop, restore_at_timeout, cmd_start, resp_start, write_int,
  write_string, write_bytes, set_at_timeout, sleep_for, mutex_lock, mutex_unlock, call_in, Action,
  pure, modify, call, calls, ◌>>=◌, ◌>>◌, get_last_error, get_last_device_error,
}
use mbed_ce_st87m.Codec.Hex.{high_char, low_char}
use mbed_ce_st87m.Stack.Types.{
  Proto, Address, is_udp, same_version, Stack, Env, get_state, set_socket,
}
use mbed_ce_st87m.Stack.Lifecycle.{create_socket_impl, socket_close_impl}

-- OP_PACKET_SIZE_MAX
abbrev pub packet_size_max : ℕ
packet_size_max = 1400

-- The command before the payload; none for a protocol that the driver cannot send on.
unfoldable pub send_header : ℤ → Proto → ℤ → Address → Option (List AtCall)
send_header cid Proto.udp k address = some (
    cmd_start "AT#IPSENDUDP="
    ∷ write_int cid
    ∷ write_int k
    ∷ write_string address.ip false
    ∷ write_int (pos address.port)
    ∷ write_int (pos 0)
    ∷ write_int (pos 2)
    ∷ [])
send_header cid Proto.tcp k address =
    some (cmd_start "AT#IPSENDTCP=" ∷ write_int cid ∷ write_int k ∷ write_int (pos 2) ∷ [])
send_header cid Proto.other_proto k address = none

-- The loop over the payload: two characters for each byte.
unfoldable pub payload_calls : List ℕ → List AtCall
payload_calls [] = []
payload_calls (b ∷ bs) = write_bytes (high_char b ∷ low_char b ∷ []) ∷ payload_calls bs

-- Uplink busy (159) of any error type, or CME 536 or 537.
unfoldable pub is_congestion : DeviceError → Bool
is_congestion e =
    e.cme && ((e.err_code ==ℤ pos 536) || (e.err_code ==ℤ pos 537)) || (e.err_code ==ℤ pos 159)

module _ {P : Type 0} (env : Env P) where
  -- _txfull_event_id = _event_queue->call_in(...)
  unfoldable pub schedule_txfull : Action (Stack P) ℕ
  schedule_txfull s t =
      let t' = call_in 1000 ∷ t in
      (env.event_id t', record s { txfull_event_id = env.event_id t' }, t')

  -- TX full on TCP: the socket is marked, and a timer set, unless one is running.
  unfoldable pub raise_txfull : ℕ → Action (Stack P) SizeOrError
  raise_txfull h = do
    call mutex_lock
    s ← get_state
    if not (s.sockets h).txfull_event && (s.txfull_event_id == 0)
        then (do
          modify (λ s'. set_socket h (record (s'.sockets h) { txfull_event = true }) s')
          event_id ← schedule_txfull
          call mutex_unlock
          pure (failed (if event_id == 0 then no_memory else would_block)))
        else (do call mutex_unlock; pure (failed would_block))

  -- One pass from retry_send to the answer: whether the modem took the payload.
  unfoldable pub exchange : List AtCall → List ℕ → Action (Stack P) Bool
  exchange header payload = do
    call (set_at_timeout 15000 false)
    calls header
    call (write_bytes (b',' ∷ []))
    calls (payload_calls payload)
    calls (cmd_stop ∷ resp_start "" ∷ resp_stop ∷ restore_at_timeout ∷ [])
    e ← get_last_error env.modem
    pure (is_ok e)

  -- What follows an exchange; `again` is the jump back of a UDP socket that may still retry.
  unfoldable pub settle :
      ℕ → List ℕ → Action (Stack P) SizeOrError → Bool → Action (Stack P) SizeOrError
  settle h payload again sent = if sent then pure (size (length payload)) else do
    dev_err ← get_last_device_error env.modem
    e ← get_last_error env.modem
    s ← get_state
    if not (is_congestion dev_err)
        then pure (failed e)
        else if is_udp (s.sockets h).proto
        then again
        else raise_txfull h

  -- retry_send, recursing on the retries left.
  unfoldable pub send_loop : ℕ → ℕ → List AtCall → List ℕ → Action (Stack P) SizeOrError
  send_loop zero h header payload =
      exchange header payload >>= settle h payload (pure (failed no_memory))
  send_loop (suc left) h header payload =
      exchange header payload
      >>= settle h payload
          (do calls (sleep_for 30 ∷ clear_error ∷ []); send_loop left h header payload)

  -- The command for the socket's protocol, or the early return before anything is written.
  unfoldable pub send_with : ℕ → List ℕ → Option (List AtCall) → Action (Stack P) SizeOrError
  send_with h payload none = do call (set_at_timeout 15000 false); pure (failed parameter)
  send_with h payload (some header) = send_loop 3 h header payload

  -- A UDP socket keeps its peer, and is opened again when the peer's IP version is another one.
  unfoldable pub capture_peer : ℕ → Address → Action (Stack P) (Unit {0})
  capture_peer h address = do
    modify
        (λ s. set_socket h (record (s.sockets h) { remote_address = address; connected = true }) s)
    s ← get_state
    if same_version s.ip_ver_sendto address.version then pure tt else do
      modify (λ s'. record s' { ip_ver_sendto = address.version })
      _ ← socket_close_impl env (s.sockets h).id
      s' ← get_state
      _ ← create_socket_impl env (some h) (s'.socket_sslctx (s'.sockets h).id)
      pure tt

  -- socket_sendto_impl. The caller holds the handler's lock, and the socket has an id (MBED_ASSERT).
  unfoldable pub socket_sendto_impl : ℕ → Address → List ℕ → Action (Stack P) SizeOrError
  socket_sendto_impl h address payload = do
    s ← get_state
    if (s.sockets h).closed then pure (failed connection_lost) else do
      if is_udp (s.sockets h).proto then capture_peer h address else pure tt
      s' ← get_state
      let sock = s'.sockets h
      send_with h (take packet_size_max payload) (send_header s'.cid sock.proto sock.id address)
