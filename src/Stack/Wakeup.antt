-- ===== src/Stack/Wakeup.antt =====
-- txfull_event_timeout of src/ST87M01_CellularStack.cpp wakes every socket that waits for room.
pub mod Blocked
use mbed_ce_st87m.Common.{
  ℕ, ◌+◌, ◌≤◌, ◌<◌, ◌≡◌, refl, ap, ◌∙◌, Bool, true, false, ◌&&◌, ◌||◌, Option, none, some, List, [],
  ◌∷◌, arith, ◌==◌, ==_iff, if◌then◌else◌, Bool-cases, inl, inr,
}
use mbed_ce_st87m.At.{AtCall, notify, mutex_lock, Trace, ◌>>=◌}
use mbed_ce_st87m.At.Keeps.{Keeps, Keeps-bind, keeps_rules}
use mbed_ce_st87m.Stack.Types.{Stack, Env}
use mbed_ce_st87m.Stack.Events.{wake_socket, wake_sockets, txfull_event_timeout}

-- The socket stands in the table.
unfoldable pub has_slot : List (Option ℕ) → ℕ → Bool
has_slot [] h = false
has_slot (none ∷ slots) h = has_slot slots h
has_slot (some j ∷ slots) h = (j == h) || has_slot slots h

-- How often the socket's callback has been called.
abbrev notifies : ℕ → AtCall → ℕ
notifies h (notify j) = if j == h then 1 else 0
notifies h _ = 0

unfoldable pub notified : ℕ → Trace → ℕ
notified h [] = 0
notified h (c ∷ t) = notifies h c + notified h t

module _ {P : Type 0} (env : Env P) (h n : ℕ) where
  -- It waits, and has been called at most `n` times more than it has.
  record IsWaiting (s : Stack P) (t : Trace) : Type 0 where
    callback : (s.sockets h).has_cb ≡ true
    marked : (s.sockets h).txfull_event ≡ true
    count : n ≤ notified h t

  record IsWoken (s : Stack P) (t : Trace) : Type 0 where
    cleared : (s.sockets h).txfull_event ≡ false
    called : n < notified h t

  wake_socket-IsWoken :
      (slot : Option ℕ) (s : Stack P) (t : Trace)
      → IsWoken s t
      → IsWoken (wake_socket env slot s t).1 (wake_socket env slot s t).2
  unfolding wake_socket ◌>>=◌ notified
  wake_socket-IsWoken none s t w = w
  wake_socket-IsWoken (some j) s t w =
      elim (Bool-cases ((s.sockets j).has_cb && (s.sockets j).txfull_event)) [
        | inl wakes ↦
            rw wakes
              (record { cleared = ground (arith, w.cleared); called = ground (arith, w.called) })
        | inr sleeps ↦ rw sleeps w
      ]

  -- The socket itself wakes.
  wake_socket-wakes :
      (j : ℕ) (s : Stack P) (t : Trace)
      → (j == h) ≡ true
      → IsWaiting s t
      → IsWoken (wake_socket env (some j) s t).1 (wake_socket env (some j) s t).2
  unfolding wake_socket ◌>>=◌ notified
  wake_socket-wakes j s t same w =
      let e = (==_iff j h).0 same in
      let callback : (s.sockets j).has_cb ≡ true = ap (λ i. (s.sockets i).has_cb) e ∙ w.callback in
      let marked : (s.sockets j).txfull_event ≡ true =
        ap (λ i. (s.sockets i).txfull_event) e ∙ w.marked in
      rw (callback, marked)
        (record { cleared = rw same refl; called = rw same (omega (arith, w.count)) })

  wake_socket-waits :
      (j : ℕ) (s : Stack P) (t : Trace)
      → (j == h) ≡ false
      → IsWaiting s t
      → IsWaiting (wake_socket env (some j) s t).1 (wake_socket env (some j) s t).2
  unfolding wake_socket ◌>>=◌ notified
  wake_socket-waits j s t other w =
      elim (Bool-cases ((s.sockets j).has_cb && (s.sockets j).txfull_event)) [
        | inl wakes ↦ rw wakes (record {
          callback = rw other w.callback;
          marked = rw other w.marked;
          count = ground (arith, w.count);
        })
        | inr sleeps ↦ rw sleeps w
      ]

  wake_sockets-IsWoken :
      (slots : List (Option ℕ)) (s : Stack P) (t : Trace)
      → IsWoken s t
      → IsWoken (wake_sockets env slots s t).1 (wake_sockets env slots s t).2
  unfolding wake_sockets ◌>>=◌
  wake_sockets-IsWoken [] s t w = w
  wake_sockets-IsWoken (slot ∷ slots) s t w =
      wake_sockets-IsWoken slots (wake_socket env slot s t).1 (wake_socket env slot s t).2
        (wake_socket-IsWoken slot s t w)

  wake_sockets-wakes :
      (slots : List (Option ℕ)) (s : Stack P) (t : Trace)
      → has_slot slots h ≡ true
      → IsWaiting s t
      → IsWoken (wake_sockets env slots s t).1 (wake_sockets env slots s t).2
  unfolding wake_sockets has_slot ◌>>=◌ wake_socket
  wake_sockets-wakes [] s t there w = absurd (ground (arith, there))
  wake_sockets-wakes (none ∷ slots) s t there w = wake_sockets-wakes slots s t there w
  wake_sockets-wakes (some j ∷ slots) s t there w = elim (Bool-cases (j == h)) [
    | inl same ↦
        wake_sockets-IsWoken slots (wake_socket env (some j) s t).1 (wake_socket env (some j) s t).2
          (wake_socket-wakes j s t same w)
    | inr other ↦
        wake_sockets-wakes slots (wake_socket env (some j) s t).1 (wake_socket env (some j) s t).2
          (ground (arith, there, other)) (wake_socket-waits j s t other w)
  ]

module _ {P : Type 0} (env : Env P) where
  wake_socket-idle : (slot : Option ℕ) → Keeps (λ s. s.txfull_event_id ≡ 0) (wake_socket env slot)
  unfolding wake_socket
  wake_socket-idle none = search keeps_rules
  wake_socket-idle (some j) = search keeps_rules depth 20

  wake_sockets-idle :
      (slots : List (Option ℕ)) → Keeps (λ s. s.txfull_event_id ≡ 0) (wake_sockets env slots)
  unfolding wake_sockets
  wake_sockets-idle [] = search keeps_rules
  wake_sockets-idle (slot ∷ slots) =
      Keeps-bind _ _ (wake_socket-idle slot) (λ _. wake_sockets-idle slots)

  -- When the TX-full timer fires, every socket of the table that is marked as waiting for room and has a
  -- callback is called, its mark is cleared, and the timer's id is free again for the next socket.
  pub txfull_event_timeout-wakes :
      (h : ℕ) (s : Stack P) (t : Trace)
      → has_slot s.socket_slots h ≡ true
      → (s.sockets h).has_cb ≡ true
      → (s.sockets h).txfull_event ≡ true
      → (notified h t < notified h (txfull_event_timeout env s t).2)
        × (((txfull_event_timeout env s t).1.sockets h).txfull_event ≡ false)
        × ((txfull_event_timeout env s t).1.txfull_event_id ≡ 0)
  unfolding txfull_event_timeout notified ◌>>=◌
  txfull_event_timeout-wakes h s t there callback marked =
      let s' : Stack P = record s { txfull_event_id = 0 } in
      let w =
        wake_sockets-wakes env h (notified h t) s.socket_slots s' (mutex_lock ∷ t) there
          (record { callback = callback; marked = marked; count = omega arith }) in
      (
        omega (arith, w.called),
        w.cleared,
        (wake_sockets-idle s.socket_slots).at s' (mutex_lock ∷ t) refl,
      )
