-- ===== src/Stack/Lifetime.antt =====
-- What ST87M01_CellularStack's constructor and destructor do beside setting its fields.
pub mod Returned
use mbed_ce_st87m.Common.{
  ℕ, zero, suc, ◌+◌, Bool, true, false, List, [], ◌∷◌, ◌==◌, if◌then◌else◌, pos,
}
use mbed_ce_st87m.At.{
  Urc, urc_of_iprecv, urc_of_nb_sent, urc_of_socketclosed, AtCall, cancel, set_urc_handler, Action,
  pure, modify, call, calls, ◌>>=◌, ◌>>◌,
}
use mbed_ce_st87m.Stack.Types.{Stack, Env, get_state, max_sockets}
use mbed_ce_st87m.Stack.Slots.{free_rx_buffer}
use mbed_ce_st87m.Stack.Lifecycle.{reap_orphan_sockets}

-- set_urc_handler for the three codes: a handler, or none.
abbrev pub set_handlers : Bool → List AtCall
set_handlers b =
    set_urc_handler urc_of_iprecv b
    ∷ set_urc_handler urc_of_nb_sent b
    ∷ set_urc_handler urc_of_socketclosed b
    ∷ []

module _ {P : Type 0} (env : Env P) where
  unfoldable pub start_stack : Action (Stack P) (Unit {0})
  start_stack = do calls (set_handlers true); reap_orphan_sockets env

  -- for (i = first; i < first + rounds; i++) free_rx_buffer(i)
  unfoldable pub free_ids : ℕ → ℕ → Stack P → Stack P
  free_ids zero first s = s
  free_ids (suc rounds) first s = free_ids rounds (first + 1) (free_rx_buffer env (pos first) s)

  -- ~ST87M01_CellularStack
  unfoldable pub end_stack : Action (Stack P) (Unit {0})
  end_stack = do
    s ← get_state
    if s.txfull_event_id == 0 then pure tt else call (cancel s.txfull_event_id)
    modify (free_ids max_sockets 0)
    calls (set_handlers false)
