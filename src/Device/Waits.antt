-- ===== src/Device/Waits.antt =====
-- How long the driver waits for the modem's application processor, in milliseconds.
use mbed_ce_st87m.Common.{
  ℕ, zero, suc, ◌+◌, ◌*◌, ◌≤◌, not, ◌&&◌, [], ◌∷◌, arith, ℤ, pos, ◌==ℤ◌, minus_one, Bool-cases, inl,
  inr,
}
use mbed_ce_st87m.At.{
  NsapiError, is_ok, Trace, AtCall, lock, unlock, clear_error, flush, sleep_for, at_cmd_int, sync,
  at_cmd_discard, ◌>>=◌,
}
use mbed_ce_st87m.Device.{Device, Board, drain_rx, sim_attempts, get_sim_state}
use mbed_ce_st87m.Device.Ready.{probe, wait_for_app_ready, await_app, soft_reset, is_booting}

-- The time slept and the number of #SIMST queries.
abbrev pub slept_by : AtCall → ℕ
slept_by (sleep_for ms) = ms
slept_by _ = 0

unfoldable pub slept : Trace → ℕ
slept [] = 0
slept (c ∷ t) = slept_by c + slept t

module _ (board : Board) where
  probe-slept :
      (n : ℕ) (err : NsapiError) (d : Device) (t : Trace)
      → slept (probe board n err d t).2 ≤ slept t + n * 1000
  unfolding probe ◌>>=◌ slept
  probe-slept zero err d t = omega arith
  probe-slept (suc n) err d t =
      let asked : Trace = at_cmd_int "#SIMST" "?" ∷ clear_error ∷ t in
      elim (Bool-cases (is_ok (board.lib.modem.query_error asked))) [
        | inl answered ↦ rw answered (omega arith)
        | inr failed ↦ elim (Bool-cases (is_booting (board.lib.modem.device_error_at asked))) [
          | inl booting ↦
              rw (failed, booting)
                (omega (
                  arith,
                  probe-slept n (board.lib.modem.query_error asked) d
                      (lock ∷ sleep_for 1000 ∷ unlock ∷ asked),
                ))
          | inr other ↦ rw (failed, other) (omega arith)
        ]
      ]

  await_app-slept :
      (n : ℕ) (err : NsapiError) (d : Device) (t : Trace)
      → slept (await_app board n err d t).2 ≤ slept t + n * 1000
  unfolding await_app ◌>>=◌ slept
  await_app-slept zero err d t = omega arith
  await_app-slept (suc n) err d t =
      let asked : Trace = at_cmd_int "#SIMST" "?" ∷ clear_error ∷ t in
      elim (Bool-cases (is_ok (board.lib.modem.query_error asked))) [
        | inl answered ↦ rw answered (omega arith)
        | inr failed ↦ elim (Bool-cases (is_booting (board.lib.modem.device_error_at asked))) [
          | inl booting ↦
              rw (failed, booting) (omega (arith, await_app-slept n err d (sleep_for 1000 ∷ asked)))
          | inr other ↦ rw (failed, other) (omega arith)
        ]
      ]

  soft_reset-slept : (d : Device) (t : Trace) → slept (soft_reset board d t).2 ≤ slept t + 38000
  unfolding soft_reset drain_rx ◌>>=◌ slept
  soft_reset-slept d t =
      let drained : Trace =
        sync 1000
        ∷ clear_error
        ∷ flush
        ∷ sleep_for 5000
        ∷ flush
        ∷ sleep_for 3000
        ∷ at_cmd_discard "#RESET" "=1" []
        ∷ t in
      elim (Bool-cases (board.lib.modem.synced drained)) [
        | inl synced ↦ rw synced (omega (arith, await_app-slept 30 _ d drained))
        | inr silent ↦ rw silent (omega arith)
      ]

  sim_attempts-slept :
      (n : ℕ) (err : NsapiError) (status : ℤ) (d : Device) (t : Trace)
      → slept (sim_attempts board n err status d t).2 ≤ slept t + n * 500
  unfolding sim_attempts ◌>>=◌ slept
  sim_attempts-slept zero err status d t = omega arith
  sim_attempts-slept (suc n) err status d t =
      let asked : Trace = at_cmd_int "#SIMST" "?" ∷ t in
      elim (Bool-cases (is_ok (board.lib.modem.query_error asked))) [
        | inl answered ↦ rw answered (omega arith)
        | inr failed ↦
            elim (Bool-cases (
              not (board.lib.modem.device_error_at asked).cme
              && not ((board.lib.modem.device_error_at asked).err_code ==ℤ pos 1120))) [
                | inl given_up ↦ rw (failed, given_up) (omega arith)
                | inr retried ↦
                    rw (failed, retried)
                      (omega (
                        arith,
                        sim_attempts-slept n (board.lib.modem.query_error asked)
                            (board.lib.modem.int_param asked) d (sleep_for 500 ∷ asked),
                      ))
              ]
      ]

  get_sim_state-slept :
      (d : Device) (t : Trace) → slept (get_sim_state board d t).2 ≤ slept t + 5000
  unfolding get_sim_state ◌>>=◌ slept
  get_sim_state-slept d t =
      omega (arith, sim_attempts-slept 10 NsapiError.ok minus_one d (flush ∷ lock ∷ t))

  -- However the modem answers, wait_for_app_ready sleeps for at most a second per attempt, soft_reset for at
  -- most 38 seconds, its 8 seconds after the reset included, and get_sim_state for at most 5 seconds.
  pub waits_bounds :
      (attempts : ℕ) (d : Device) (t : Trace)
      → (slept (wait_for_app_ready board attempts d t).2 ≤ slept t + attempts * 1000)
        × (slept (soft_reset board d t).2 ≤ slept t + 38000)
        × (slept (get_sim_state board d t).2 ≤ slept t + 5000)
  unfolding wait_for_app_ready
  waits_bounds attempts d t = (
    probe-slept attempts NsapiError.device_error d t,
    soft_reset-slept d t,
    get_sim_state-slept d t,
  )
