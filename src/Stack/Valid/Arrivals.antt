-- ===== src/Stack/Valid/Arrivals.antt =====
-- The unsolicited events and the timer keep the invariant of the receive buffers.
use mbed_ce_st87m.Common.{ℕ, Option, none, some, List, [], ◌∷◌, ℤ, below}
use mbed_ce_st87m.At.Keeps.{Keeps-if, Keeps-bind, Keeps-modify, Keeps-pure, keeps_rules}
use mbed_ce_st87m.Stack.Types.{RxBuffer, Env, max_sockets}
use mbed_ce_st87m.Stack.Slots.{reset}
use mbed_ce_st87m.Stack.Valid.{BufferLaws, reset-IsBuffer}
use mbed_ce_st87m.Stack.Valid.Operations.{Safe}
use mbed_ce_st87m.Stack.Events.{
  notify_socket, count_arrival, urc_iprecv, reset_found, reset_slot, mark_closed, urc_socketclosed,
  wake_socket, wake_sockets, txfull_event_timeout,
}
use mbed_ce_st87m.Stack.Valid.Segment.{set_rx_buf-SafeOpen}
use mbed_ce_st87m.Stack.Valid.Reception.{Ends, Ends-Safe, Safe-Ends}

module _ {P : Type 0} (env : Env P) (room : P → ℕ) (laws : BufferLaws env room) where
  notify_socket-Safe : (h : ℕ) → Safe env room laws (notify_socket env h)
  unfolding notify_socket
  notify_socket-Safe h = search keeps_rules depth 20

  count_arrival-Safe : (h : Option ℕ) → Safe env room laws (count_arrival env h)
  unfolding count_arrival
  count_arrival-Safe none = search keeps_rules
  count_arrival-Safe (some h) = search (keeps_rules, notify_socket-Safe) depth 20

  pub urc_iprecv-Safe : Safe env room laws (urc_iprecv env)
  unfolding urc_iprecv
  urc_iprecv-Safe = search (keeps_rules, count_arrival-Safe) depth 20

  reset_found-Ends : (k : ℤ) (b : Option RxBuffer) → Ends env room laws k b (reset_found env k b)
  unfolding reset_found
  reset_found-Ends k none = Ends-Safe env room laws k none _ (Keeps-pure _)
  reset_found-Ends k (some b) = record {
    from = λ s t v e.
        let w = reset-IsBuffer env room b (v.buffers k b e).whole in
        ((Keeps-modify _ (set_rx_buf-SafeOpen env room laws k (reset b) w)).at s t (v, (b, e))).0;
  }

  reset_slot-Safe : (k : ℤ) → Safe env room laws (reset_slot env k)
  unfolding reset_slot
  reset_slot-Safe k =
      Keeps-if (below k max_sockets) _ _
        (Safe-Ends env room laws k _ (λ s. reset_found-Ends k (s.rx_buf k))) (Keeps-pure _)

  mark_closed-Safe : (k : ℤ) (h : Option ℕ) → Safe env room laws (mark_closed env k h)
  unfolding mark_closed
  mark_closed-Safe k none = search keeps_rules
  mark_closed-Safe k (some h) = search (keeps_rules, reset_slot-Safe, notify_socket-Safe) depth 20

  pub urc_socketclosed-Safe : Safe env room laws (urc_socketclosed env)
  unfolding urc_socketclosed
  urc_socketclosed-Safe = search (keeps_rules, mark_closed-Safe) depth 20

  wake_socket-Safe : (slot : Option ℕ) → Safe env room laws (wake_socket env slot)
  unfolding wake_socket
  wake_socket-Safe none = search keeps_rules
  wake_socket-Safe (some h) = search keeps_rules depth 20

  wake_sockets-Safe : (slots : List (Option ℕ)) → Safe env room laws (wake_sockets env slots)
  unfolding wake_sockets
  wake_sockets-Safe [] = search keeps_rules
  wake_sockets-Safe (slot ∷ slots) =
      Keeps-bind _ _ (wake_socket-Safe slot) (λ _. wake_sockets-Safe slots)

  pub txfull_event_timeout-Safe : Safe env room laws (txfull_event_timeout env)
  unfolding txfull_event_timeout
  txfull_event_timeout-Safe = search (keeps_rules, wake_sockets-Safe) depth 20
