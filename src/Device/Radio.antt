-- ===== src/Device/Radio.antt =====
-- ensure_cfun1 of src/ST87M01.cpp switches the radio on once.
use mbed_ce_st87m.Common.{
  ◌≡◌, refl, Bool, true, false, [], ◌∷◌, arith, pos, ◌==ℤ◌, Bool-cases, inl, inr,
}
use mbed_ce_st87m.At.{
  ok, is_ok, Modem, Trace, lock, unlock, clear_error, at_cmd_int, at_cmd_discard, set_at_timeout,
  restore_at_timeout, ◌>>=◌,
}
use mbed_ce_st87m.Device.{Device, Board, ensure_cfun1}

-- The calls that ask for the radio's mode, and those that switch it on.
abbrev pub asked : Trace → Trace
asked t = at_cmd_int "+CFUN" "?" ∷ clear_error ∷ lock ∷ t

abbrev pub switched_on : Trace → Trace
switched_on t =
    at_cmd_discard "+CFUN" "=" (pos 1 ∷ []) ∷ set_at_timeout 16000 false ∷ lock ∷ unlock ∷ t

-- A modem that answers truly: `is_on` says after which calls the radio is on. The query reports it
-- and changes nothing, a switch that succeeds puts it on, and the handler's own calls do not
-- change it.
pub record Reports (modem : Modem) (is_on : Trace → Bool) : Type 0 where
  pub reported :
      (t : Trace)
      → is_on t ≡ true
      → (modem.query_error (asked t) ≡ ok) × (modem.int_param (asked t) ≡ pos 1)
  pub seen :
      (t : Trace)
      → is_ok (modem.query_error (asked t)) ≡ true
      → (modem.int_param (asked t) ==ℤ pos 1) ≡ true
      → is_on (unlock ∷ asked t) ≡ true
  pub switched :
      (t : Trace)
      → is_ok (modem.discard_error (switched_on (asked t))) ≡ true
      → is_on (unlock ∷ restore_at_timeout ∷ switched_on (asked t)) ≡ true

module _ (board : Board) (is_on : Trace → Bool) (reports : Reports board.lib.modem is_on) where
  ensure_cfun1-on :
      (d : Device) (t : Trace)
      → is_ok (ensure_cfun1 board d t).0 ≡ true
      → is_on (ensure_cfun1 board d t).2 ≡ true
  unfolding ensure_cfun1 ◌>>=◌
  ensure_cfun1-on d t h = elim (Bool-cases (is_ok (board.lib.modem.query_error (asked t)))) [
    | inl answered ↦ elim (Bool-cases (board.lib.modem.int_param (asked t) ==ℤ pos 1)) [
      | inl on ↦ rw (answered, on) (reports.seen t answered on)
      | inr off ↦ rw (answered, off) (reports.switched t (ground (arith, h, answered, off)))
    ]
    | inr failed ↦ absurd (ground (arith, h, failed))
  ]

  ensure_cfun1-when_on :
      (d : Device) (t : Trace) → is_on t ≡ true → ensure_cfun1 board d t ≡ (ok, d, unlock ∷ asked t)
  unfolding ensure_cfun1 ◌>>=◌ is_ok
  ensure_cfun1-when_on d t h = rw ((reports.reported t h).0, (reports.reported t h).1) refl

  -- Once ensure_cfun1 has succeeded, calling it again succeeds and only asks for the mode: the
  -- command that would drop the IP stack is not sent a second time. It is for a modem that reports
  -- the mode as it is.
  pub ensure_cfun1-twice :
      (d : Device) (t : Trace)
      → is_ok (ensure_cfun1 board d t).0 ≡ true
      → ensure_cfun1 board (ensure_cfun1 board d t).1 (ensure_cfun1 board d t).2
        ≡ (ok, (ensure_cfun1 board d t).1, unlock ∷ asked (ensure_cfun1 board d t).2)
  ensure_cfun1-twice d t h = ensure_cfun1-when_on _ _ (ensure_cfun1-on d t h)
