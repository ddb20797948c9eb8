-- ===== src/Stack/Trials.antt =====
-- The queue of a TCP socket, the timer, one socket beside another, and the end of a stack, at
-- concrete inputs.
use mbed_ce_st87m.Common.{
  ℕ, ◌<◌, ◌≡◌, refl, sym, ◌∙◌, ℤ, Option, List, Bool-cases, inl, inr, Bool, true, false, none, some,
  [], ◌∷◌, arith, pos, ◌==ℤ◌, ◌==◌, if◌then◌else◌,
}
use mathlib.Core.Path.{subst}
use mathlib.Core.Option.{some-injective, none-ne-some}
use mbed_ce_st87m.At.{device_error, is_ok, ◌>>=◌}
use mbed_ce_st87m.Stack.Types.{RxBuffer, Socket, Stack, Env}
use mbed_ce_st87m.Stack.Send.{
  socket_sendto_impl, send_with, send_loop, exchange, settle, raise_txfull, schedule_txfull,
  is_congestion, send_header,
}
use mbed_ce_st87m.Stack.Wakeup.Blocked.{is_blocked, socket_sendto_impl-wakes}
use mbed_ce_st87m.Stack.Slots.Pool.{used}
use mbed_ce_st87m.Stack.Receive.{socket_recvfrom_impl}
use mbed_ce_st87m.Stack.Events.{txfull_event_timeout}
use mbed_ce_st87m.Stack.Valid.{IsBuffer, IsValid}
use mbed_ce_st87m.Stack.Stream.{queue, IsQueueStep}
use mbed_ce_st87m.Stack.Stream.Refinement.{socket_recvfrom_impl-refines}
use mbed_ce_st87m.Stack.Isolation.Uses.{Use, use_all, use_all-isolates}
use mbed_ce_st87m.Stack.Tests.{test_env, test_stack, test_socket, test_laws, room}
use mbed_ce_st87m.Stack.Wakeup.{has_slot, notified, txfull_event_timeout-wakes}

-- Two of its four bytes wait.
abbrev filled_buffer : RxBuffer
filled_buffer = record { bytes = 7 ∷ 8 ∷ 9 ∷ 0 ∷ []; head = 1; tail = 3 }

-- The socket has the id 0 and waits for room.
abbrev waiting_stack : Stack ℕ
waiting_stack = record test_stack {
  rx_buf = λ k. if k ==ℤ pos 0 then some filled_buffer else none;
  rx_pool = 6;
  sockets = λ h. record test_socket { id = pos 0; connected = true; txfull_event = true };
}

filled_buffer-IsBuffer : IsBuffer 4 filled_buffer
filled_buffer-IsBuffer = record { ordered = omega arith; inside = omega arith; whole = refl }

only_one :
    (c : Bool) (b : RxBuffer) → (if c then some filled_buffer else none) ≡ some b → IsBuffer 4 b
only_one true b e =
    subst (λ (x : RxBuffer). IsBuffer 4 x) (some-injective _ _ e) filled_buffer-IsBuffer
only_one false b e = absurd (none-ne-some _ e)

waiting_stack-IsValid : IsValid test_env room waiting_stack
unfolding used
waiting_stack-IsValid = record { accounted = refl; buffers = λ k b e. only_one (k ==ℤ pos 0) b e }

socket_recvfrom_impl-refines_example :
    IsQueueStep test_env.modem []
      (queue (pos 0) waiting_stack)
      1
      (pos 0)
      (socket_recvfrom_impl test_env 0 1 waiting_stack [])
socket_recvfrom_impl-refines_example =
    socket_recvfrom_impl-refines test_env 0 room test_laws 1 waiting_stack [] waiting_stack-IsValid
      refl (omega arith)

first-has_slot : has_slot waiting_stack.socket_slots 0 ≡ true
unfolding has_slot
first-has_slot = refl

txfull_event_timeout-wakes_example :
    (notified 0 [] < notified 0 (txfull_event_timeout test_env waiting_stack []).2)
    × (((txfull_event_timeout test_env waiting_stack []).1.sockets 0).txfull_event ≡ false)
    × ((txfull_event_timeout test_env waiting_stack []).1.txfull_event_id ≡ 0)
txfull_event_timeout-wakes_example =
    txfull_event_timeout-wakes test_env 0 waiting_stack [] first-has_slot refl refl

-- The uplink is busy: every command fails with the error 159.
abbrev busy_env : Env ℕ
busy_env = record test_env {
  modem = record test_env.modem {
    last_error = λ t. device_error;
    device_error_at = λ t. record { cme = true; err_code = pos 159 };
  };
}

-- A connected TCP socket, and nothing waits.
abbrev free_stack : Stack ℕ
free_stack = record test_stack {
  sockets = λ h. record test_socket { id = pos 0; connected = true };
}

blocked_there :
    is_blocked (socket_sendto_impl busy_env 0 test_socket.remote_address (1 ∷ []) free_stack []).0
    ≡ true
unfolding socket_sendto_impl send_with send_loop exchange settle raise_txfull schedule_txfull
    is_congestion send_header is_ok ◌>>=◌
blocked_there = refl

socket_sendto_impl-wakes_example :
    let s' = (socket_sendto_impl busy_env 0 test_socket.remote_address (1 ∷ []) free_stack []).1 in
    ((s'.txfull_event_id == 0) ≡ false)
    × (notified 0 [] < notified 0 (txfull_event_timeout busy_env s' []).2)
    × (((txfull_event_timeout busy_env s' []).1.sockets 0).txfull_event ≡ false)
    × ((txfull_event_timeout busy_env s' []).1.txfull_event_id ≡ 0)
socket_sendto_impl-wakes_example =
    socket_sendto_impl-wakes busy_env (λ t. refl) 0 test_socket.remote_address (1 ∷ []) free_stack
      [] []
      (record {
        stream = refl;
        listed = first-has_slot;
        callback = refl;
        unmarked = refl;
        no_timer = refl;
      })
      blocked_there

-- find_socket of the tests finds what it is asked for.
find_from-finds :
    (k : ℤ) (slots : List (Option ℕ)) (sockets : ℕ → Socket) (h : ℕ)
    → test_env.find_socket slots sockets k ≡ some h
    → ((sockets h).id ==ℤ k) ≡ true
find_from-finds k [] sockets h e = absurd (none-ne-some h e)
find_from-finds k (none ∷ slots) sockets h e = find_from-finds k slots sockets h e
find_from-finds k (some h' ∷ slots) sockets h e = elim (Bool-cases ((sockets h').id ==ℤ k)) [
  | inl hit ↦
      subst (λ n. ((sockets n).id ==ℤ k) ≡ true) (some-injective _ _ (sym (rw hit refl) ∙ e)) hit
  | inr miss ↦ find_from-finds k slots sockets h (sym (rw miss refl) ∙ e)
]

abbrev two_stack : Stack ℕ
two_stack = record test_stack {
  socket_slots = some 0 ∷ some 1 ∷ [];
  sockets = λ j. record test_socket { id = if j == 0 then pos 0 else pos 1; connected = true };
}

use_all-isolates_example :
    let after =
      (use_all test_env 0
        (pos 0)
        (Use.receive 2 ∷ Use.send test_socket.remote_address (1 ∷ []) ∷ Use.close ∷ [])
        two_stack
        []).1 in
    (after.sockets 1 ≡ two_stack.sockets 1)
    × (after.rx_buf (pos 1) ≡ two_stack.rx_buf (pos 1))
    × (after.socket_sslctx (pos 1) ≡ two_stack.socket_sslctx (pos 1))
use_all-isolates_example =
    use_all-isolates test_env (λ slots sockets k h e. find_from-finds k slots sockets h e) 0 (pos 0)
      two_stack (λ j ne. ground arith)
      (Use.receive 2 ∷ Use.send test_socket.remote_address (1 ∷ []) ∷ Use.close ∷ []) [] 1 (pos 1)
      refl refl refl refl

-- The timer runs when the stack ends.
abbrev pub timed_stack : Stack ℕ
timed_stack = record waiting_stack { txfull_event_id = 5 }

pub timed_stack-IsValid : IsValid test_env room timed_stack
timed_stack-IsValid = record {
  accounted = waiting_stack-IsValid.accounted;
  buffers = waiting_stack-IsValid.buffers;
}
