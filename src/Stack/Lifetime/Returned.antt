-- ===== src/Stack/Lifetime/Returned.antt =====
-- The destructor of a stack gives back what the stack holds.
use mathlib.Core.Path.{subst}
use mbed_ce_st87m.Common.{
  ℕ, zero, suc, ◌+◌, ◌≤◌, ◌<◌, ◌≡◌, refl, Bool, true, false, Option, none, [], ◌∷◌, ◌==◌, ◌==ℤ◌,
  ==_iff, if◌then◌else◌, List, Bool-cases, Option-cases, inl, inr, ◌⊎◌, ℤ, pos, below, arith,
}
use mbed_ce_st87m.At.{
  Urc, urc_of_iprecv, urc_of_nb_sent, urc_of_socketclosed, Trace, cancel, set_urc_handler, ◌>>=◌,
  append_calls,
}
use mbed_ce_st87m.Stack.Types.{RxBuffer, Stack, Env, update_at, update_at_self, max_sockets}
use mbed_ce_st87m.Stack.Slots.{free_rx_buffer, free_slot, free_rx_buffer_cases}
use mbed_ce_st87m.Stack.Slots.Pool.{PoolLaws, IsAccounted, used, free_rx_buffer-IsAccounted}
use mbed_ce_st87m.Stack.Valid.{BufferLaws, IsValid}
use mbed_ce_st87m.Stack.Valid.Sessions.{start_stack-Safe}
use mbed_ce_st87m.Stack.Valid.Operations.{Safe}
use mbed_ce_st87m.Stack.Valid.Entries.{IsSafeAround, enter_all-Safe}
use mbed_ce_st87m.Stack.Entry.{Around, Entry, enter_all}
use mbed_ce_st87m.At.Keeps.{Keeps-bind}
use mbed_ce_st87m.At.{Action, ◌>>◌}
use mbed_ce_st87m.Stack.Lifetime.{start_stack, set_handlers, free_ids, end_stack}

abbrev same_urc : Urc → Urc → Bool
same_urc urc_of_iprecv urc_of_iprecv = true
same_urc urc_of_nb_sent urc_of_nb_sent = true
same_urc urc_of_socketclosed urc_of_socketclosed = true
same_urc _ _ = false

-- Whether a handler for the code is set after these calls.
unfoldable pub listens : Urc → Trace → Bool
listens u [] = false
listens u (set_urc_handler v b ∷ t) = let before = listens u t in if same_urc u v then b else before
listens u (_ ∷ t) = listens u t

-- Whether the event with this id is in the queue's calls as cancelled.
unfoldable pub cancelled : ℕ → Trace → Bool
cancelled n [] = false
cancelled n (cancel m ∷ t) = let before = cancelled n t in if n == m then true else before
cancelled n (_ ∷ t) = cancelled n t

used-none : (n : ℕ) (f : ℤ → Option RxBuffer) → ((j : ℕ) → j < n → f (pos j) ≡ none) → used n f ≡ 0
unfolding used
used-none zero f h = refl
used-none (suc n) f h =
    let rest = used-none n f (λ j l. h j (omega (arith, l))) in
    rw (h n (omega arith)) (omega (arith, rest))

module _ {P : Type 0} (env : Env P) where
  cleared-none : (k j : ℤ) (f : ℤ → Option RxBuffer) → f j ≡ none → update_at f k none j ≡ none
  cleared-none k j f e = elim (Bool-cases (k ==ℤ j)) [
    | inl same ↦ rw same refl
    | inr other ↦ rw other e
  ]

  free-none : (k j : ℤ) (s : Stack P) → s.rx_buf j ≡ none → (free_rx_buffer env k s).rx_buf j ≡ none
  free-none k j s e = elim (free_rx_buffer_cases env k s) [
    | inl same ↦ rw same e
    | inr (b, had, gone) ↦ rw gone (cleared-none k j s.rx_buf e)
  ]

  free-frees :
      (n : ℕ) (s : Stack P) → n < max_sockets → (free_rx_buffer env (pos n) s).rx_buf (pos n) ≡ none
  unfolding free_rx_buffer free_slot
  free-frees n s l =
      let within : below (pos n) max_sockets ≡ true = ground arith in
      elim (Option-cases (s.rx_buf (pos n))) [
        | inl e ↦ rw (within, e, free_slot) e
        | inr (b, e) ↦ rw (within, e, free_slot) (update_at_self s.rx_buf (pos n) none)
      ]

  free_ids-none :
      (rounds first : ℕ) (j : ℤ) (s : Stack P)
      → s.rx_buf j ≡ none
      → (free_ids env rounds first s).rx_buf j ≡ none
  unfolding free_ids
  free_ids-none zero first j s e = e
  free_ids-none (suc rounds) first j s e =
      free_ids-none rounds (first + 1) j _ (free-none (pos first) j s e)

  free_ids-frees :
      (rounds first j : ℕ) (s : Stack P)
      → first ≤ j
      → j < first + rounds
      → first + rounds ≤ max_sockets
      → (free_ids env rounds first s).rx_buf (pos j) ≡ none
  unfolding free_ids
  free_ids-frees zero first j s lo hi top = absurd (omega arith)
  free_ids-frees (suc rounds) first j s lo hi top = elim (Bool-cases (first == j)) [
    | inl same ↦
        let e = (==_iff first j).0 same in
        free_ids-none rounds (first + 1) (pos j) _ (
          subst (λ i. (free_rx_buffer env (pos first) s).rx_buf (pos i) ≡ none) e
            (free-frees first s (omega arith)))
    | inr other ↦ free_ids-frees rounds (first + 1) j _ (ground arith) (omega arith) (omega arith)
  ]

module _ {P : Type 0} (env : Env P) (room : P → ℕ) (laws : PoolLaws env room) where
  free_ids-IsAccounted :
      (rounds first : ℕ) (s : Stack P)
      → IsAccounted env room laws s
      → IsAccounted env room laws (free_ids env rounds first s)
  unfolding free_ids
  free_ids-IsAccounted zero first s inv = inv
  free_ids-IsAccounted (suc rounds) first s inv =
      free_ids-IsAccounted rounds (first + 1) _
        (free_rx_buffer-IsAccounted env room laws (pos first) s inv)

  all_returned :
      (s : Stack P)
      → IsAccounted env room laws s
      → room (free_ids env max_sockets 0 s).rx_pool ≡ max_sockets
  all_returned s inv = omega (
    arith,
    free_ids-IsAccounted max_sockets 0 s inv,
    used-none max_sockets (free_ids env max_sockets 0 s).rx_buf (λ j l.
        free_ids-frees env max_sockets 0 j s (omega arith) (omega (arith, l)) (omega arith)),
  )

  no_handler : (u : Urc) (t : Trace) → listens u (append_calls (set_handlers false) t) ≡ false
  unfolding listens
  no_handler urc_of_iprecv t = refl
  no_handler urc_of_nb_sent t = refl
  no_handler urc_of_socketclosed t = refl

  end_stack-returns :
      (s : Stack P) (t : Trace) (j : ℕ) (u : Urc)
      → IsAccounted env room laws s
      → j < max_sockets
      → let (finished, ended, said) = end_stack env s t in
        (room ended.rx_pool ≡ max_sockets)
        × (ended.rx_buf (pos j) ≡ none)
        × (((s.txfull_event_id == 0) ≡ true) ⊎ (cancelled s.txfull_event_id said ≡ true))
        × (listens u said ≡ false)
  unfolding end_stack ◌>>=◌ cancelled
  end_stack-returns s t j u inv l =
      let pool = all_returned s inv in
      let slot =
        free_ids-frees env max_sockets 0 j s (omega arith) (omega (arith, l)) (omega arith) in
      elim (Bool-cases (s.txfull_event_id == 0)) [
        | inl e ↦ rw e (pool, slot, inl refl, no_handler u t)
        | inr e ↦
            let self = (==_iff s.txfull_event_id s.txfull_event_id).1 refl in
            rw e (pool, slot, inr (rw self refl), no_handler u (cancel s.txfull_event_id ∷ t))
      ]

-- A stack from its constructor up to its destructor.
unfoldable pub live : {P : Type 0} → Env P → Around P → List Entry → Action (Stack P) (Unit {0})
live env around es = do start_stack env; enter_all env around es

module _ {P : Type 0} (env : Env P) (room : P → ℕ) (laws : BufferLaws env room) (around : Around P)
    (safe : IsSafeAround env room around) where
  live-Safe : (es : List Entry) → Safe env room laws (live env around es)
  unfolding live
  live-Safe es =
      Keeps-bind _ _ (start_stack-Safe env room laws)
        (λ _. enter_all-Safe env room laws around safe es)

  -- Whatever public and protected operations of a stack, setsockopt in either build, socket_open
  -- and socket_close of the base class, handlers of unsolicited codes and timer events run, one
  -- after another, between its constructor and its destructor, and whatever the modem answers, in
  -- the end the seven blocks are back in the pool, no id has a receive buffer, the TX-full timer is
  -- cancelled if one was set, and no handler is left for an unsolicited code. It is for a pool and a
  -- read_bytes that keep their laws, a base class whose operations keep the state valid, and fields
  -- that are valid when the constructor's calls begin.
  pub end_stack-returns_all :
      (s : Stack P) (t : Trace) (es : List Entry) (j : ℕ) (u : Urc)
      → IsValid env room s
      → j < max_sockets
      → let (lived, last, before) = live env around es s t in
        let (finished, ended, said) = end_stack env last before in
        (room ended.rx_pool ≡ max_sockets)
        × (ended.rx_buf (pos j) ≡ none)
        × (((last.txfull_event_id == 0) ≡ true) ⊎ (cancelled last.txfull_event_id said ≡ true))
        × (listens u said ≡ false)
  end_stack-returns_all s t es j u valid l =
      let (lived, last, before) = live env around es s t in
      let kept = (live-Safe es).at s t valid in
      end_stack-returns env room laws.pool_laws last before j u kept.accounted l
