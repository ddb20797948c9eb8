-- ===== src/Stack/Slots.antt =====
-- SocketRxBuffer's methods, allocate_rx_buffer and free_rx_buffer.
pub mod Pool
use mbed_ce_st87m.Common.{
  ℕ, ◌≡◌, refl, ◌⊎◌, inl, inr, Bool-cases, Option-cases, ◌-◌, Bool, true, false, Option, none, some,
  ℤ, below, leb, if◌then◌else◌, not,
}
use mbed_ce_st87m.At.{Trace, Action}
use mbed_ce_st87m.Stack.Types.{RxBuffer, Stack, Env, update_at, max_sockets}

-- head = tail = 0
abbrev pub reset : RxBuffer → RxBuffer
reset b = record b { head = 0; tail = 0 }

abbrev pub available : RxBuffer → ℕ
available b = b.tail - b.head

-- empty(): head >= tail
abbrev pub is_empty : RxBuffer → Bool
is_empty b = leb b.tail b.head

module _ {P : Type 0} (env : Env P) where
  unfoldable pub take_block : ℤ → Stack P → Option (RxBuffer × P) → Bool × Stack P
  take_block k s none = (false, s)
  take_block k s (some (b, pool)) =
      (true, record s { rx_buf = update_at s.rx_buf k (some (reset b)); rx_pool = pool })

  unfoldable pub allocate_slot : ℤ → Stack P → Option RxBuffer → Bool × Stack P
  unfolding take_block
  allocate_slot k s (some b) = (true, record s { rx_buf = update_at s.rx_buf k (some (reset b)) })
  allocate_slot k s none = take_block k s (env.try_alloc s.rx_pool)

  -- allocate_rx_buffer
  unfoldable pub allocate_rx_buffer : ℤ → Stack P → Bool × Stack P
  unfolding allocate_slot
  allocate_rx_buffer k s =
      if below k max_sockets then allocate_slot k s (s.rx_buf k) else (false, s)

  unfoldable pub free_slot : ℤ → Stack P → Option RxBuffer → Stack P
  free_slot k s none = s
  free_slot k s (some b) = record s {
    rx_buf = update_at s.rx_buf k none;
    rx_pool = env.free_block b s.rx_pool;
  }

  -- free_rx_buffer
  unfoldable pub free_rx_buffer : ℤ → Stack P → Stack P
  unfolding free_slot
  free_rx_buffer k s = if below k max_sockets then free_slot k s (s.rx_buf k) else s

  -- The two ways in which an allocation succeeds: the slot's own buffer, or a new block.
  abbrev pub Granted : ℤ → Stack P → RxBuffer → P → Type 0
  Granted k s b pool =
      (s.rx_buf k ≡ some b) × (pool ≡ s.rx_pool) ⊎ (env.try_alloc s.rx_pool ≡ some (b, pool))

  pub allocate_rx_buffer_cases :
      (k : ℤ) (s : Stack P)
      → (allocate_rx_buffer k s ≡ (false, s))
        ⊎ ((b : RxBuffer) × (pool : P) × Granted k s b pool
            × (allocate_rx_buffer k s ≡ (
              true,
              record s { rx_buf = update_at s.rx_buf k (some (reset b)); rx_pool = pool },
            )))
  unfolding allocate_rx_buffer
  allocate_rx_buffer_cases k s = elim (Bool-cases (below k max_sockets)) [
    | inr out ↦ inl (rw out)
    | inl within ↦ elim (Option-cases (s.rx_buf k)) [
      | inr (b, e) ↦ inr (b, s.rx_pool, inl (e, refl), rw (within, e, allocate_slot))
      | inl e ↦ elim (Option-cases (env.try_alloc s.rx_pool)) [
        | inl full ↦ inl (rw (within, e, allocate_slot, full, take_block))
        | inr ((b, pool), got) ↦
            inr (b, pool, inr got, rw (within, e, allocate_slot, got, take_block))
      ]
    ]
  ]

  pub free_rx_buffer_cases :
      (k : ℤ) (s : Stack P)
      → (free_rx_buffer k s ≡ s)
        ⊎ ((b : RxBuffer) × (s.rx_buf k ≡ some b)
            × (free_rx_buffer k s ≡ record s {
              rx_buf = update_at s.rx_buf k none;
              rx_pool = env.free_block b s.rx_pool;
            }))
  unfolding free_rx_buffer
  free_rx_buffer_cases k s = elim (Bool-cases (below k max_sockets)) [
    | inr out ↦ inl (rw out)
    | inl within ↦ elim (Option-cases (s.rx_buf k)) [
      | inr (b, e) ↦ inr (b, e, rw (within, e, free_slot))
      | inl e ↦ inl (rw (within, e, free_slot))
    ]
  ]
