-- ===== src/Stack/Slots/Pool.antt =====
-- The pool of receive buffers never runs out: it has as many blocks as there are socket ids, and a
-- block is out exactly while a slot holds it.
use mbed_ce_st87m.Common.{
  ℕ, zero, suc, ◌+◌, ◌≤◌, ◌<◌, ◌≡◌, refl, ap, [], ◌⊎◌, inl, inr, true, false, Option, none, some,
  arith, ltb, ◌==◌, ℤ, pos, negsuc, below, Option-cases, Bool-cases,
}
use mbed_ce_st87m.Stack.Types.{RxBuffer, Stack, Env, update_at, max_sockets}
use mbed_ce_st87m.Stack.Slots.{reset, take_block, allocate_rx_buffer, free_rx_buffer}

-- What a memory pool of fixed blocks promises, with `room` blocks left in it: an allocation
-- succeeds exactly when there is room, takes one block, and a freed block comes back.
pub record PoolLaws {P : Type 0} (env : Env P) (room : P → ℕ) : Type 0 where
  pub alloc_room :
      (p : P)
      → ((env.try_alloc p ≡ none) × (room p ≡ 0))
        ⊎ ((b : RxBuffer) × (q : P) × (env.try_alloc p ≡ some (b, q)) × (room p ≡ room q + 1))
  pub free_room : (b : RxBuffer) (p : P) → room (env.free_block b p) ≡ room p + 1

abbrev pub occupied : Option RxBuffer → ℕ
occupied none = 0
occupied (some b) = 1

-- How many of the ids below `n` have a buffer.
unfoldable pub used : ℕ → (ℤ → Option RxBuffer) → ℕ
used zero f = 0
used (suc n) f = occupied (f (pos n)) + used n f

used-le : (n : ℕ) (f : ℤ → Option RxBuffer) → used n f ≤ n
unfolding used
used-le zero f = omega arith
used-le (suc n) f = ground (arith, used-le n f)

used-update_above :
    (n k : ℕ) (v : Option RxBuffer) (f : ℤ → Option RxBuffer)
    → n ≤ k
    → used n (update_at f (pos k) v) ≡ used n f
unfolding used
used-update_above zero k v f h = omega arith
used-update_above (suc n) k v f h = ground (arith, used-update_above n k v f)

pub used-update :
    (n k : ℕ) (v : Option RxBuffer) (f : ℤ → Option RxBuffer)
    → k < n
    → used n (update_at f (pos k) v) + occupied (f (pos k)) ≡ used n f + occupied v
unfolding used
used-update zero k v f h = absurd (omega arith)
used-update (suc n) k v f h = elim (Bool-cases (k == n)) [
  | inl e ↦ ground (arith, used-update_above n k v f)
  | inr e ↦ ground (arith, used-update n k v f)
]

-- A table with a free id below 7 holds at most 6 buffers.
used_max_free :
    {P : Type 0} (n : ℕ) (s : Stack P)
    → s.rx_buf (pos n) ≡ none
    → n < max_sockets
    → used max_sockets s.rx_buf ≤ 6
used_max_free n s free h =
    let b : RxBuffer = record { bytes = []; head = 0; tail = 0 } in
    omega (
      arith,
      used-update 7 n (some b) s.rx_buf h,
      used-le 7 (update_at s.rx_buf (pos n) (some b)),
      ap occupied free,
    )

module _ {P : Type 0} (env : Env P) (room : P → ℕ) (laws : PoolLaws env room) where
  -- Every block is in the pool or in a slot.
  abbrev pub IsAccounted : Stack P → Type 0
  IsAccounted s = room s.rx_pool + used max_sockets s.rx_buf ≡ max_sockets

  take_block-IsAccounted :
      (n : ℕ) (s : Stack P) (free : s.rx_buf (pos n) ≡ none)
      → n < max_sockets
      → IsAccounted s
      → ((take_block env (pos n) s (env.try_alloc s.rx_pool)).0 ≡ true)
        × IsAccounted (take_block env (pos n) s (env.try_alloc s.rx_pool)).1
  unfolding take_block
  take_block-IsAccounted n s free h inv = elim (laws.alloc_room s.rx_pool) [
    | inl (refused, empty) ↦ absurd (omega (arith, used_max_free n s free h))
    | inr (b, q, e, r) ↦
        rw (e, take_block)
          (refl, omega (arith, used-update 7 n (some (reset b)) s.rx_buf h, ap occupied free))
  ]

  allocate_pos :
      (n : ℕ) (s : Stack P)
      → n < max_sockets
      → IsAccounted s
      → ((allocate_rx_buffer env (pos n) s).0 ≡ true)
        × IsAccounted (allocate_rx_buffer env (pos n) s).1
  unfolding allocate_rx_buffer
  allocate_pos n s h inv = elim (Option-cases (s.rx_buf (pos n))) [
    | inl e ↦ let t = take_block-IsAccounted n s e h inv in ground (arith, t)
    | inr (b, e) ↦ let u = used-update 7 n (some (reset b)) s.rx_buf h in ground arith
  ]

  allocate_outside :
      (k : ℤ) (s : Stack P) → below k max_sockets ≡ false → allocate_rx_buffer env k s ≡ (false, s)
  unfolding allocate_rx_buffer
  allocate_outside k s h = rw h

  -- While the pool keeps its laws and its blocks are accounted for, allocating a receive buffer
  -- succeeds for every socket id from 0 to 6, fails for every other id, and keeps the blocks accounted for.
  pub allocate_rx_buffer-never_exhausted :
      (k : ℤ) (s : Stack P)
      → IsAccounted s
      → ((allocate_rx_buffer env k s).0 ≡ below k max_sockets)
        × IsAccounted (allocate_rx_buffer env k s).1
  allocate_rx_buffer-never_exhausted (negsuc n) s inv =
      rw (allocate_outside (negsuc n) s refl) (refl, inv)
  allocate_rx_buffer-never_exhausted (pos n) s inv = elim (Bool-cases (ltb n 7)) [
    | inl e ↦ rw e (allocate_pos n s (ground arith) inv)
    | inr e ↦ rw (allocate_outside (pos n) s e) (rw e (refl, inv))
  ]

  -- Freeing a receive buffer keeps the blocks accounted for, whatever the id.
  pub free_rx_buffer-IsAccounted :
      (k : ℤ) (s : Stack P) → IsAccounted s → IsAccounted (free_rx_buffer env k s)
  unfolding free_rx_buffer
  free_rx_buffer-IsAccounted (negsuc n) s inv = inv
  free_rx_buffer-IsAccounted (pos n) s inv = elim (Option-cases (s.rx_buf (pos n))) [
    | inl e ↦ ground arith
    | inr (b, e) ↦ elim (Bool-cases (ltb n 7)) [
      | inl l ↦
          let u = used-update 7 n none s.rx_buf (ground arith) in
          let r = laws.free_room b s.rx_pool in ground arith
      | inr l ↦ rw l inv
    ]
  ]
