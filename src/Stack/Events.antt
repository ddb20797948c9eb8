-- ===== src/Stack/Events.antt =====
-- The handlers of unsolicited result codes, and the timer of txfull_event_timeout. Each runs as a
-- step of its own: one that fires inside another operation is not modelled.
use mbed_ce_st87m.Common.{
  ℕ, ◌+◌, ◌%◌, true, false, ◌&&◌, Option, none, some, List, [], ◌∷◌, if◌then◌else◌, ℤ, below,
}
use mbed_ce_st87m.At.{
  mutex_lock, mutex_unlock, notify, Action, pure, modify, call, ◌>>=◌, ◌>>◌, int_of,
}
use mbed_ce_st87m.Stack.Types.{
  RxBuffer, Stack, Env, get_state, set_socket, find, update_at, max_sockets,
}
use mbed_ce_st87m.Stack.Slots.{reset}

-- pending_bytes is an unsigned 32-bit count.
abbrev pub u32_mod : ℕ
u32_mod = 4294967296

module _ {P : Type 0} (env : Env P) where
  -- if (sock->_cb) sock->_cb(sock->_data)
  unfoldable pub notify_socket : ℕ → Action (Stack P) (Unit {0})
  notify_socket h = do s ← get_state; if (s.sockets h).has_cb then call (notify h) else pure tt

  unfoldable pub count_arrival : Option ℕ → Action (Stack P) (Unit {0})
  count_arrival none = pure tt
  count_arrival (some h) = do
    modify (λ s.
        set_socket h
          (record (s.sockets h) { pending_bytes = ((s.sockets h).pending_bytes + 1) % u32_mod }) s)
    notify_socket h

  -- urc_iprecv
  unfoldable pub urc_iprecv : Action (Stack P) (Unit {0})
  urc_iprecv = do
    _ ← int_of env.modem
    socket_id ← int_of env.modem
    call mutex_lock
    s ← get_state
    count_arrival (find env s socket_id)
    call mutex_unlock

  unfoldable pub reset_found : ℤ → Option RxBuffer → Action (Stack P) (Unit {0})
  reset_found k none = pure tt
  reset_found k (some b) = modify (λ s. record s { rx_buf = update_at s.rx_buf k (some (reset b)) })

  unfoldable pub reset_slot : ℤ → Action (Stack P) (Unit {0})
  reset_slot k =
      if below k max_sockets then (do s ← get_state; reset_found k (s.rx_buf k)) else pure tt

  unfoldable pub mark_closed : ℤ → Option ℕ → Action (Stack P) (Unit {0})
  mark_closed k none = pure tt
  mark_closed k (some h) = do
    modify (λ s. set_socket h (record (s.sockets h) { closed = true; connected = false }) s)
    reset_slot k
    notify_socket h

  -- urc_socketclosed
  unfoldable pub urc_socketclosed : Action (Stack P) (Unit {0})
  urc_socketclosed = do
    _ ← int_of env.modem
    socket_id ← int_of env.modem
    call mutex_lock
    s ← get_state
    mark_closed socket_id (find env s socket_id)
    call mutex_unlock

  -- One round of the loop in txfull_event_timeout.
  unfoldable pub wake_socket : Option ℕ → Action (Stack P) (Unit {0})
  wake_socket none = pure tt
  wake_socket (some h) = do
    s ← get_state
    if (s.sockets h).has_cb && (s.sockets h).txfull_event
        then (do
          modify (λ s'. set_socket h (record (s'.sockets h) { txfull_event = false }) s')
          call (notify h))
        else pure tt

  unfoldable pub wake_sockets : List (Option ℕ) → Action (Stack P) (Unit {0})
  wake_sockets [] = pure tt
  wake_sockets (slot ∷ slots) = wake_socket slot >> wake_sockets slots

  -- txfull_event_timeout
  unfoldable pub txfull_event_timeout : Action (Stack P) (Unit {0})
  txfull_event_timeout = do
    call mutex_lock
    modify (λ s. record s { txfull_event_id = 0 })
    s ← get_state
    wake_sockets s.socket_slots
    call mutex_unlock
