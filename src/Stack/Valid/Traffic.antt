-- ===== src/Stack/Valid/Traffic.antt =====
-- Sending, receiving and the unsolicited events keep the invariant of the receive buffers.
use mbed_ce_st87m.Common.{
  ℕ, zero, suc, ◌≤◌, Bool, Option, none, some, List, arith, length, length-append, length-drop,
  drop,
}
use mbed_ce_st87m.At.{AtCall, Action, SizeOrError}
use mbed_ce_st87m.At.Keeps.{Keeps, Keeps-bind, keeps_rules}
use mbed_ce_st87m.Stack.Types.{RxBuffer, Stack, Env, Address}
use mbed_ce_st87m.Stack.Valid.{IsBuffer, BufferLaws, IsValid}
use mbed_ce_st87m.Stack.Valid.Operations.{create_socket_impl-Safe, socket_close_impl-Safe}
use mbed_ce_st87m.Stack.Send.{
  schedule_txfull, raise_txfull, exchange, settle, send_loop, send_with, capture_peer,
  socket_sendto_impl,
}
use mbed_ce_st87m.Stack.Receive.{reset_if_empty, advanced, filled}

module _ (n : ℕ) (b : RxBuffer) where
  pub advanced-IsBuffer : (want : ℕ) → IsBuffer n b → IsBuffer n (advanced b want)
  unfolding advanced reset_if_empty
  advanced-IsBuffer want w = ground arith

  pub filled-IsBuffer : (got : List ℕ) → length got ≤ n → IsBuffer n b → IsBuffer n (filled b got)
  unfolding filled
  filled-IsBuffer got fit w = record {
    ordered = omega arith;
    inside = omega (arith, length-append got (drop (length got) b.bytes));
    whole = omega (
      arith,
      length-append got (drop (length got) b.bytes),
      length-drop (length got) b.bytes,
      w.whole,
    );
  }

module _ {P : Type 0} (env : Env P) (room : P → ℕ) (laws : BufferLaws env room) where
  abbrev Safe : {A : Type 0} → Action (Stack P) A → Type 0
  Safe = Keeps (IsValid env room)

  schedule_txfull-Safe : Safe (schedule_txfull env)
  unfolding schedule_txfull
  schedule_txfull-Safe = record { at = λ s t v. v }

  raise_txfull-Safe : (h : ℕ) → Safe (raise_txfull env h)
  unfolding raise_txfull
  raise_txfull-Safe h = search (keeps_rules, schedule_txfull-Safe) depth 20

  exchange-Safe : (header : List AtCall) (payload : List ℕ) → Safe (exchange env header payload)
  unfolding exchange
  exchange-Safe header payload = search keeps_rules depth 20

  settle-Safe :
      (h : ℕ) (payload : List ℕ) (again : Action (Stack P) SizeOrError) (sent : Bool)
      → Safe again
      → Safe (settle env h payload again sent)
  unfolding settle
  settle-Safe h payload again sent safe = search (keeps_rules, raise_txfull-Safe) depth 20

  send_loop-Safe :
      (n h : ℕ) (header : List AtCall) (payload : List ℕ) → Safe (send_loop env n h header payload)
  unfolding send_loop
  send_loop-Safe zero h header payload =
      Keeps-bind _ _ (exchange-Safe header payload)
        (λ sent. settle-Safe h payload _ sent (search keeps_rules))
  send_loop-Safe (suc n) h header payload = Keeps-bind _ _ (exchange-Safe header payload) (λ sent.
      settle-Safe h payload _ sent
        (Keeps-bind _ _ (search keeps_rules) (λ _. send_loop-Safe n h header payload)))

  send_with-Safe :
      (h : ℕ) (payload : List ℕ) (header : Option (List AtCall))
      → Safe (send_with env h payload header)
  unfolding send_with
  send_with-Safe h payload none = search keeps_rules depth 20
  send_with-Safe h payload (some header) = send_loop-Safe 3 h header payload

  capture_peer-Safe : (h : ℕ) (address : Address) → Safe (capture_peer env h address)
  unfolding capture_peer
  capture_peer-Safe h address =
      let close = socket_close_impl-Safe env room laws in
      let create = create_socket_impl-Safe env room laws in
      search (keeps_rules, close, create) depth 30

  pub socket_sendto_impl-Safe :
      (h : ℕ) (address : Address) (payload : List ℕ)
      → Safe (socket_sendto_impl env h address payload)
  unfolding socket_sendto_impl
  socket_sendto_impl-Safe h address payload =
      search (keeps_rules, capture_peer-Safe, send_with-Safe) depth 20
