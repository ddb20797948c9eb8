-- ===== src/Stack/Polling.antt =====
-- The polling loop of socket_connect comes to an end.
use mbed_ce_st87m.Common.{
  ℕ, zero, suc, ◌+◌, ◌*◌, ◌≤◌, ◌≡◌, refl, sym, ◌⊎◌, inl, inr, Bool, true, false, ◌&&◌, ◌∷◌, arith,
  ltb, ℤ, ◌==ℤ◌,
}
use mbed_ce_st87m.At.{Trace, Action, sleep_for, call, pure, ◌>>=◌, ◌>>◌}
use mbed_ce_st87m.At.Later.{Ticks, Later, later_rules}
use mbed_ce_st87m.Stack.Types.{Stack, Env}
use mbed_ce_st87m.Stack.Connect.{
  connecting, poll_interval, status_line, query_tcp_status, poll, await_connect,
}

module _ {P : Type 0} (env : Env P) (ticks : Ticks env.modem) where
  query_tcp_status-Later : (k : ℤ) → Later env.modem (query_tcp_status env k)
  unfolding query_tcp_status status_line
  query_tcp_status-Later k = search (later_rules, ticks) depth 20

  -- A poll that ends has an answer, or the deadline has passed.
  abbrev pub IsDecided : ℕ → ℤ × Stack P × Trace → Type 0
  IsDecided deadline r = ((r.0 ==ℤ connecting) ≡ false) ⊎ (deadline ≤ env.modem.clock_ms r.2)

  stopped :
      (waiting early : Bool) (deadline now : ℕ)
      → early ≡ ltb now deadline
      → waiting && early ≡ false
      → (waiting ≡ false) ⊎ (deadline ≤ now)
  stopped true early deadline now e h = inr (ground arith)
  stopped false early deadline now e h = inl refl

  abbrev run : Action (Stack P) ℤ → Stack P → Trace → ℤ × Stack P × Trace
  run m s t = m s t

  -- One round of the loop, by whether it goes on.
  poll_round :
      (more : Bool) (k : ℤ) (deadline : ℕ) (status : ℤ) (s : Stack P) (t : Trace)
      (rest : ℤ → Action (Stack P) ℤ)
      → more ≡ ((status ==ℤ connecting) && ltb (env.modem.clock_ms t) deadline)
      → ((status' : ℤ) (s' : Stack P) (t' : Trace)
          → env.modem.clock_ms t + 500 ≤ env.modem.clock_ms t'
          → IsDecided deadline (rest status' s' t'))
      → IsDecided deadline (
          run
            (elim more [
              | true ↦ (do
                call (sleep_for poll_interval)
                status' ← query_tcp_status env k
                rest status')
              | false ↦ pure status
            ])
            s
            t)
  unfolding ◌>>=◌
  poll_round true k deadline status s t rest e ih =
      let slept = ticks.on_sleep 500 t in
      let asked = (query_tcp_status-Later k).at s (sleep_for 500 ∷ t) in
      ih _ _ _ (omega (arith, slept, asked))
  poll_round false k deadline status s t rest e ih =
      stopped (status ==ℤ connecting) (ltb (env.modem.clock_ms t) deadline) deadline _ refl (sym e)

  poll-IsDecided :
      (n : ℕ) (k : ℤ) (deadline : ℕ) (status : ℤ) (s : Stack P) (t : Trace)
      → deadline ≤ env.modem.clock_ms t + n * 500
      → IsDecided deadline (poll env n k deadline status s t)
  unfolding poll ◌>>=◌
  poll-IsDecided zero k deadline status s t fit = inr (omega arith)
  poll-IsDecided (suc n) k deadline status s t fit =
      poll_round _ k deadline status s t (λ status'. poll env n k deadline status') refl
        (λ status' s' t' later. poll-IsDecided n k deadline status' s' t' (omega (arith, later)))

  -- When the clock does not run back and a sleep lasts as long as it was asked to, the wait for a
  -- connection in flight ends with a state other than connecting, or once its time is up: the
  -- bound on the number of polls never ends it earlier.
  pub await_connect-IsDecided :
      (timeout_ms : ℕ) (k status : ℤ) (s : Stack P) (t : Trace)
      → IsDecided (env.modem.clock_ms t + timeout_ms) (await_connect env timeout_ms k status s t)
  unfolding await_connect ◌>>=◌
  await_connect-IsDecided timeout_ms k status s t = poll-IsDecided _ k _ status s t (omega arith)
