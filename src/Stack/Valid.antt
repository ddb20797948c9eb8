-- ===== src/Stack/Valid.antt =====
-- The invariant of the receive buffers: every block of the pool is accounted for, and every buffer
-- has its head at most its tail, its tail within the array, and the array its size.
pub mod Operations
pub mod Traffic
pub mod Segment
pub mod Reception
pub mod Arrivals
pub mod Run
pub mod Sessions
pub mod Entries
use mathlib.Core.Path.{subst}
use mathlib.Core.Option.{some-injective, none-ne-some}
use mbed_ce_st87m.Common.{
  ℕ, zero, suc, ◌⊎◌, inl, inr, Bool-cases, negsuc, ◌==ℤ◌, ◌+◌, ◌≤◌, ◌≡◌, refl, Bool, true, false,
  Option, none, some, List, [], ◌∷◌, arith, ℤ, pos, below, length, if◌then◌else◌,
}
use mbed_ce_st87m.At.{Modem, Trace, Action, modify, ◌>>=◌}
use mbed_ce_st87m.At.Keeps.{Keeps, keeps_rules}
use mbed_ce_st87m.Stack.Types.{RxBuffer, Stack, Env, update_at, max_sockets, get_state, set_socket}
use mbed_ce_st87m.Stack.Slots.{
  reset, allocate_rx_buffer, free_rx_buffer, Granted, allocate_rx_buffer_cases,
  free_rx_buffer_cases,
}
use mbed_ce_st87m.Stack.Slots.Pool.{
  PoolLaws, used, allocate_rx_buffer-never_exhausted, free_rx_buffer-IsAccounted,
}
use mbed_ce_st87m.Stack.Ip.{ensure_ip_configured}
use mbed_ce_st87m.Stack.Lifecycle.{
  register, create_on_modem, create_socket_impl, close_on_modem, socket_close_impl,
}

pub record IsBuffer (rx_size : ℕ) (b : RxBuffer) : Type 0 where
  pub ordered : b.head ≤ b.tail
  pub inside : b.tail ≤ length b.bytes
  pub whole : length b.bytes ≡ rx_size

-- What read_bytes(buffer, n) and the pool promise: at most n bytes are read, and a new block has
-- the array's size.
pub record BufferLaws {P : Type 0} (env : Env P) (room : P → ℕ) : Type 0 where
  pub pool_laws : PoolLaws env room
  pub block_size :
      (p q : P) (b : RxBuffer) → env.try_alloc p ≡ some (b, q) → length b.bytes ≡ env.rx_size
  pub read_at_most :
      (n : ℕ) (t : Trace) (got : List ℕ) → env.modem.bytes_param n t ≡ some got → length got ≤ n

module _ {P : Type 0} (env : Env P) (room : P → ℕ) where
  pub record IsRxValid (buf : ℤ → Option RxBuffer) (pool : P) : Type 0 where
    pub accounted : room pool + used max_sockets buf ≡ max_sockets
    pub buffers : (k : ℤ) (b : RxBuffer) → buf k ≡ some b → IsBuffer env.rx_size b

  abbrev pub IsValid : Stack P → Type 0
  IsValid s = IsRxValid s.rx_buf s.rx_pool

used-replace :
    (n : ℕ) (k : ℤ) (b b' : RxBuffer) (f : ℤ → Option RxBuffer)
    → f k ≡ some b
    → used n (update_at f k (some b')) ≡ used n f
unfolding used
used-replace zero k b b' f e = refl
used-replace (suc n) (negsuc m) b b' f e = ground (arith, used-replace n (negsuc m) b b' f e)
used-replace (suc n) (pos m) b b' f e = ground (arith, used-replace n (pos m) b b' f e)

module _ {P : Type 0} (env : Env P) (room : P → ℕ) where
  buffers_update :
      (f : ℤ → Option RxBuffer) (k : ℤ) (v : Option RxBuffer)
      → ((b : RxBuffer) → v ≡ some b → IsBuffer env.rx_size b)
      → ((j : ℤ) (b : RxBuffer) → f j ≡ some b → IsBuffer env.rx_size b)
      → (j : ℤ) (b : RxBuffer) → update_at f k v j ≡ some b
      → IsBuffer env.rx_size b
  buffers_update f k v fresh old j b e = elim (Bool-cases (k ==ℤ j)) [
    | inl same ↦ fresh b (rw same at e)
    | inr other ↦ old j b (rw other at e)
  ]

  -- The buffer of a slot may be exchanged for another well-formed one.
  pub IsRxValid-replace :
      (f : ℤ → Option RxBuffer) (pool : P) (k : ℤ) (b b' : RxBuffer)
      → f k ≡ some b
      → IsBuffer env.rx_size b'
      → IsRxValid env room f pool
      → IsRxValid env room (update_at f k (some b')) pool
  IsRxValid-replace f pool k b b' e w v = record {
    accounted = omega (arith, v.accounted, used-replace 7 k b b' f e);
    buffers = buffers_update f k (some b') (λ c q. ground (arith, w)) v.buffers;
  }

  pub reset-IsBuffer :
      (b : RxBuffer) → length b.bytes ≡ env.rx_size → IsBuffer env.rx_size (reset b)
  reset-IsBuffer b e = record { ordered = omega arith; inside = omega arith; whole = e }

module _ {P : Type 0} (env : Env P) (room : P → ℕ) (laws : BufferLaws env room) where
  Granted-size :
      (k : ℤ) (s : Stack P) (b : RxBuffer) (pool : P)
      → IsValid env room s
      → Granted env k s b pool
      → length b.bytes ≡ env.rx_size
  Granted-size k s b pool v (inl (e, _)) = (v.buffers k b e).whole
  Granted-size k s b pool v (inr e) = laws.block_size s.rx_pool pool b e

  -- Allocating a receive buffer keeps the invariant, whatever the id and the outcome.
  pub allocate_rx_buffer-IsValid :
      (k : ℤ) (s : Stack P) → IsValid env room s → IsValid env room (allocate_rx_buffer env k s).1
  allocate_rx_buffer-IsValid k s v =
      let a = (allocate_rx_buffer-never_exhausted env room laws.pool_laws k s v.accounted).1 in
      elim (allocate_rx_buffer_cases env k s) [
        | inl e ↦ rw e v
        | inr (b, pool, g, e) ↦ rw e (record {
          accounted = rw e at a;
          buffers =
              buffers_update env room s.rx_buf k (some (reset b))
                (λ c q.
                  subst (IsBuffer env.rx_size) (some-injective _ _ q)
                    (reset-IsBuffer env room b (Granted-size k s b pool v g)))
                v.buffers;
        })
      ]

  -- Freeing a receive buffer keeps the invariant, whatever the id.
  pub free_rx_buffer-IsValid :
      (k : ℤ) (s : Stack P) → IsValid env room s → IsValid env room (free_rx_buffer env k s)
  free_rx_buffer-IsValid k s v =
      let a = free_rx_buffer-IsAccounted env room laws.pool_laws k s v.accounted in
      elim (free_rx_buffer_cases env k s) [
        | inl e ↦ rw e v
        | inr (b, h, e) ↦ rw e (record {
          accounted = rw e at a;
          buffers =
              buffers_update env room s.rx_buf k none (λ c q. absurd (none-ne-some c q)) v.buffers;
        })
      ]
