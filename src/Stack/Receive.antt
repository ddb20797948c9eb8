-- ===== src/Stack/Receive.antt =====
-- socket_recvfrom_impl: datagrams are read once, segments are buffered until they are taken.
use Prim.Native.Nat.{min}
use mbed_ce_st87m.Common.{
  ℕ, ◌+◌, ◌-◌, Bool, true, false, not, ◌&&◌, ◌||◌, Option, none, some, List, [], ◌∷◌, ◌++◌, ◌==◌,
  if◌then◌else◌, ℤ, pos, pos_part, below, take, drop, length, ltb,
}
use mbed_ce_st87m.At.{
  NsapiError, parameter, connection_lost, would_block, no_memory, is_ok, SizeOrError, size, failed,
  resp_stop, resp_start, cmd_start_stop, skip_param, skip_param_bytes, mutex_lock, mutex_unlock,
  Action, pure, modify, call, calls, ◌>>=◌, ◌>>◌, get_last_error, next_line, int_of, bytes_of,
}
use mbed_ce_st87m.Stack.Types.{
  Address, is_udp, RxBuffer, Stack, Env, get_state, set_socket, update_at, max_sockets,
}
use mbed_ce_st87m.Stack.Slots.{reset, available, is_empty}

-- What a call hands back: its result, the bytes copied to the caller's buffer, and the address
-- written for the caller, if one is. What a failed call leaves in the caller's memory is not kept.
pub record Received : Type 0 where
  pub result : SizeOrError
  pub copied : List ℕ
  pub source : Option Address

abbrev pub refused : NsapiError → Received
refused e = record { result = failed e; copied = []; source = none }

-- The bytes that memcpy takes, and the buffer behind it.
unfoldable pub copied_from : RxBuffer → ℕ → List ℕ
copied_from b want = take (min (available b) want) (drop b.head b.bytes)

unfoldable pub reset_if_empty : RxBuffer → RxBuffer
reset_if_empty b = if is_empty b then reset b else b

unfoldable pub advanced : RxBuffer → ℕ → RxBuffer
unfolding reset_if_empty
advanced b want = reset_if_empty (record b { head = b.head + min (available b) want })

-- read_bytes into the array: it writes from the front.
unfoldable pub filled : RxBuffer → List ℕ → RxBuffer
filled b got = record b { bytes = got ++ drop (length got) b.bytes; head = 0; tail = length got }

module _ {P : Type 0} (env : Env P) where
  abbrev pub set_rx_buf : ℤ → Option RxBuffer → Stack P → Stack P
  set_rx_buf k b s = record s { rx_buf = update_at s.rx_buf k b }

  unfoldable pub set_pending : ℕ → ℕ → Stack P → Stack P
  set_pending h n s = set_socket h (record (s.sockets h) { pending_bytes = n }) s

  -- memcpy from the buffer of slot `k`, and what is left in it.
  unfoldable pub take_buffered : ℤ → RxBuffer → ℕ → Action (Stack P) (List ℕ)
  take_buffered k b want = do
    modify (set_rx_buf k (some (advanced b want)))
    pure (copied_from b want)

  -- AT#IPREAD: the length that the modem announces, 0 if it announces none.
  unfoldable pub ipread : ℤ → Action (Stack P) ℤ
  ipread k = do
    s ← get_state
    calls (cmd_start_stop "#IPREAD" "=" (s.cid ∷ k ∷ []) ∷ resp_start "#IPREAD:" ∷ [])
    more ← next_line env.modem
    if more then (do calls (skip_param ∷ skip_param ∷ []); int_of env.modem) else pure (pos 0)

  -- The datagram branch, with the bytes that were read (none for a negative result).
  unfoldable pub accept_datagram :
      ℕ → ℕ → Option (List ℕ) → Action (Stack P) (List ℕ × Option Address)
  accept_datagram h data_len none = pure ([], none)
  accept_datagram h data_len (some got) = do
    e ← get_last_error env.modem
    if not (ltb 0 (length got) && is_ok e) then pure ([], none) else do
      if ltb 0 (data_len - length got)
          then call (skip_param_bytes (data_len - length got) 1)
          else pure tt
      call (skip_param_bytes 2 1)
      s ← get_state
      pure (got, some (s.sockets h).remote_address)

  -- The segment branch behind read_bytes.
  unfoldable pub accept_segment : ℤ → RxBuffer → ℕ → ℕ → Option (List ℕ) → Action (Stack P) (List ℕ)
  accept_segment k b data_len want none = do modify (set_rx_buf k (some (reset b))); pure []
  accept_segment k b data_len want (some got) = do
    modify (set_rx_buf k (some (reset b)))
    e ← get_last_error env.modem
    if not (ltb 0 (length got) && is_ok e) then pure [] else do
      modify (set_rx_buf k (some (filled b got)))
      if ltb env.rx_size data_len
          then call (skip_param_bytes (data_len - length got) 1)
          else pure tt
      call (skip_param_bytes 2 1)
      e' ← get_last_error env.modem
      if is_ok e' then take_buffered k (filled b got) want else pure []

  unfoldable pub drop_segment : ℤ → Bool → Option RxBuffer → Action (Stack P) (Unit {0})
  drop_segment k udp none = pure tt
  drop_segment k udp (some b) = if udp then pure tt else modify (set_rx_buf k (some (reset b)))

  -- The end of a failed read: nothing is buffered, and nothing is thought to be waiting.
  unfoldable pub give_up : ℕ → ℤ → Bool → Action (Stack P) Received
  give_up h k udp = do
    s ← get_state
    drop_segment k udp (s.rx_buf k)
    call mutex_lock
    modify (set_pending h 0)
    call mutex_unlock
    pure (refused would_block)

  -- From resp_stop on.
  unfoldable pub conclude : ℕ → ℤ → Bool → List ℕ → Option Address → Action (Stack P) Received
  conclude h k udp copied source = do
    call resp_stop
    e ← get_last_error env.modem
    if not (is_ok e) || (length copied == 0) then give_up h k udp else do
      call mutex_lock
      modify (λ s. set_pending h ((s.sockets h).pending_bytes - 1) s)
      call mutex_unlock
      pure (record { result = size (length copied); copied = copied; source = source })

  unfoldable pub read_segment : ℕ → ℤ → ℕ → ℕ → Option RxBuffer → Action (Stack P) Received
  read_segment h k data_len want none = do
    calls (resp_stop ∷ mutex_lock ∷ [])
    modify (set_pending h 0)
    call mutex_unlock
    pure (refused no_memory)
  read_segment h k data_len want (some b) = do
    read ← bytes_of env.modem (min data_len env.rx_size)
    copied ← accept_segment k b data_len want read
    conclude h k false copied none

  unfoldable pub read_datagram : ℕ → ℤ → ℕ → ℕ → Action (Stack P) Received
  read_datagram h k data_len want = do
    read ← bytes_of env.modem (min data_len want)
    (copied, source) ← accept_datagram h data_len read
    conclude h k true copied source

  -- From the test of pending_bytes on.
  unfoldable pub read_modem : ℕ → ℤ → ℕ → Action (Stack P) Received
  read_modem h k want = do
    s ← get_state
    if (s.sockets h).pending_bytes == 0 then pure (refused would_block) else do
      data_len ← ipread k
      e ← get_last_error env.modem
      if not (is_ok e) || not (ltb 0 (pos_part data_len))
          then (do call resp_stop; pure (refused would_block))
          else if is_udp (s.sockets h).proto
          then read_datagram h k (pos_part data_len) want
          else read_segment h k (pos_part data_len) want (s.rx_buf k)

  -- What an earlier segment left: a stream hands it out first, a datagram socket drops it.
  unfoldable pub drain : ℕ → ℤ → ℕ → Option RxBuffer → Action (Stack P) Received
  drain h k want none = read_modem h k want
  drain h k want (some b) = do
    s ← get_state
    if is_empty b
        then read_modem h k want
        else if is_udp (s.sockets h).proto
        then (do modify (set_rx_buf k (some (reset b))); read_modem h k want)
        else do
          copied ← take_buffered k b want
          pure (record { result = size (length copied); copied = copied; source = none })

  -- socket_recvfrom_impl, for a caller's buffer of `want` bytes. The socket has an id (MBED_ASSERT),
  -- and the caller holds the handler's lock.
  unfoldable pub socket_recvfrom_impl : ℕ → ℕ → Action (Stack P) Received
  socket_recvfrom_impl h want = do
    s ← get_state
    let k = (s.sockets h).id
    if not (below k max_sockets)
        then pure (refused parameter)
        else if (s.sockets h).closed
        then pure (refused connection_lost)
        else drain h k want (s.rx_buf k)
