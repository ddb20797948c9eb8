-- ===== src/Stack/Sent.antt =====
-- What a send reports as sent, and what it has written by then.
use mbed_ce_st87m.Common.{ℕ, ◌≡◌, true, false, List, [], ◌∷◌, ◌++◌, length}
use mbed_ce_st87m.At.{
  Modem, SizeOrError, size, failed, is_ok, AtCall, Trace, write_bytes, cmd_stop, resp_start,
  resp_stop, restore_at_timeout, set_at_timeout, append_calls, Action,
}
use mbed_ce_st87m.Codec.Hex.{encode}
use mbed_ce_st87m.Stack.Types.{Stack, Env}
use mbed_ce_st87m.Stack.Send.{payload_calls}

-- The bytes that a row of calls writes to the modem.
unfoldable pub written : List AtCall → List ℕ
written [] = []
written (write_bytes bs ∷ cs) = bs ++ written cs
written (_ ∷ cs) = written cs

-- The last thing that was said to the modem is a comma and the payload in hexadecimal; then its
-- answer was read to the end.
abbrev pub IsSaid : List ℕ → Trace → Type 0
IsSaid payload t =
    (cs : List AtCall) × (u : Trace) × (written cs ≡ encode payload)
    × (t
        ≡ append_calls (cmd_stop ∷ resp_start "" ∷ resp_stop ∷ restore_at_timeout ∷ [])
            (append_calls cs (write_bytes (b',' ∷ []) ∷ u)))

-- A result is an error other than OK, or the number of all bytes of the payload, which the modem
-- has been sent and has answered with OK.
abbrev pub IsWhole : Modem → List ℕ → SizeOrError → Trace → Type 0
IsWhole modem payload (size k) t =
    (k ≡ length payload) × (is_ok (modem.last_error t) ≡ true) × IsSaid payload t
IsWhole modem payload (failed e) t = is_ok e ≡ false

module _ {P : Type 0} (env : Env P) (payload : List ℕ) where
  record Sends (m : Action (Stack P) SizeOrError) : Type 0 where
    at : (s : Stack P) (t : Trace) → IsWhole env.modem payload (m s t).0 (m s t).2

  -- The trace behind an exchange.
  abbrev asked : List AtCall → Trace → Trace
  asked header t = append_calls (cmd_stop ∷ resp_start "" ∷ resp_stop ∷ restore_at_timeout ∷ []) (
      append_calls (payload_calls payload)
        (write_bytes (b',' ∷ []) ∷ append_calls header (set_at_timeout 15000 false ∷ t)))
