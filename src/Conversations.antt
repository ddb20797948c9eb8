-- ===== src/Conversations.antt =====
-- The conversations with the modem, and the agreement of session and client, at concrete inputs.
use mbed_ce_st87m.Common.{
  ℕ, ◌≡◌, ◌⊎◌, ◌==◌, none, minus_one, refl, arith, inl, true, false, some, List, [], ◌∷◌, ℤ, pos,
}
use mbed_ce_st87m.At.{Trace, lock, ok, pure, urc_of_iprecv}
use mbed_ce_st87m.Stack.Trials.{timed_stack, timed_stack-IsValid}
use mbed_ce_st87m.Stack.Lifetime.{end_stack}
use mbed_ce_st87m.Stack.Lifetime.Returned.{listens, cancelled, live, end_stack-returns_all}
use mbed_ce_st87m.Stack.Valid.Entries.{IsSafeAround}
use mbed_ce_st87m.At.Keeps.{Keeps-pure}
use mbed_ce_st87m.At.Talk.{talk, quiet, Moves-pure}
use mbed_ce_st87m.Examples.{empty_response, host, test_outside, test_context}
use mbed_ce_st87m.Stack.Tests.{
  test_env, test_stack, test_socket, test_laws, test_stack-IsValid, room,
}
use mbed_ce_st87m.Stack.Valid.{IsValid}
use mbed_ce_st87m.Stack.Slots.Pool.{used}
use mbed_ce_st87m.Context.{new_stack}
use mbed_ce_st87m.Context.Choice.{PdpType}
use mbed_ce_st87m.Context.Valid.{IsFit, IsSound}
use mbed_ce_st87m.Context.Valid.Run.{run_all-IsFit}
use mbed_ce_st87m.Stack.Types.{Stack}
use mbed_ce_st87m.Stack.Entry.{Around, Entry, enter}
use mbed_ce_st87m.Stack.Talk.Entry.{IsPoliteAround, enter-talk}
use mbed_ce_st87m.Tls.Tests.{test_lib}
use mbed_ce_st87m.Device.Tests.{test_board, test_device}
use mbed_ce_st87m.Device.Calls.{call_init, issue}
use mbed_ce_st87m.Device.Talk.Start.{issue-talk}
use mbed_ce_st87m.Network.Tests.{test_carrier, test_network, test_plmn}
use mbed_ce_st87m.Network.Talk.{Identity, register_on, request, identify, request-talk}
use mbed_ce_st87m.Context.Calls.{ContextCall, run_all}
use mbed_ce_st87m.Context.Talk.{IsPolite}
use mbed_ce_st87m.Context.Talk.Choose.{run_all-talk}
use mbed_ce_st87m.Context.Consistent.{IsConsistent}
use mbed_ce_st87m.Context.Consistent.Run.{run_all-IsConsistent}

nothing_said : talk [] ≡ quiet 0
unfolding talk
nothing_said = refl

abbrev locked : Trace
locked = lock ∷ []

lock_said : talk locked ≡ quiet 1
unfolding talk
lock_said = refl

-- Its socket has the id 0.
abbrev open_stack : Stack ℕ
open_stack = record test_stack {
  sockets = λ h. record test_socket { id = pos 0; connected = true };
}

abbrev pub test_around : Around ℕ
test_around = record {
  base = test_outside.base;
  base_setsockopt = λ h level name value. pure ok;
  lib = test_lib;
}

test_around-IsPoliteAround : IsPoliteAround test_around
test_around-IsPoliteAround = record {
  polite_base = record { opens = λ n proto. Moves-pure _; closes = λ n h. Moves-pure _ };
  polite_options = λ n h level name value. Moves-pure _;
}

enter-talk_example :
    talk
      (enter test_env test_around
        (Entry.send 0 test_socket.remote_address (1 ∷ 2 ∷ []))
        open_stack
        locked).2
    ≡ quiet 1
enter-talk_example =
    enter-talk test_env test_around test_around-IsPoliteAround
      (Entry.send 0 test_socket.remote_address (1 ∷ 2 ∷ [])) 0 open_stack locked lock_said

issue-talk_example : talk (issue test_board call_init test_device []).2 ≡ quiet 0
issue-talk_example = issue-talk test_board call_init test_device [] (Moves-pure tt) nothing_said

test_outside-IsPolite : IsPolite test_outside
test_outside-IsPolite = record {
  polite_open = λ n proto. Moves-pure _;
  polite_close = λ n h. Moves-pure _;
  polite_context = λ n. Moves-pure _;
  polite_active = λ n cid. Moves-pure _;
}

abbrev a_session : List ContextCall
a_session =
    ContextCall.choose
    ∷ ContextCall.open_http (some host) 80 false
    ∷ ContextCall.fetch host [] empty_response
    ∷ ContextCall.close_http
    ∷ []

run_all-talk_example : talk (run_all test_outside a_session test_context []).2 ≡ quiet 0
run_all-talk_example =
    run_all-talk test_outside test_outside-IsPolite a_session test_context [] nothing_said

run_all-IsConsistent_example : IsConsistent (run_all test_outside a_session test_context []).1
run_all-IsConsistent_example =
    run_all-IsConsistent test_outside
      (record { aside_context = Keeps-pure _; aside_active = λ cid. Keeps-pure _ }) a_session
      test_context [] (inl (refl, tt))

-- A new stack has no buffer, and its seven blocks are in the pool.
new_stack-IsValid :
    (cid : ℤ) (pdp : PdpType) → IsValid test_env room (new_stack test_outside cid pdp)
unfolding new_stack used
new_stack-IsValid cid pdp = record { accounted = refl; buffers = λ k b e. ground arith }

test_outside-IsSound : IsSound test_outside room
test_outside-IsSound = record {
  sound_base = record { safe_open = λ p. Keeps-pure _; safe_close = λ h. Keeps-pure _ };
  sound_new = new_stack-IsValid;
  sound_context = Keeps-pure _;
  sound_active = λ cid. Keeps-pure _;
}

run_all-IsFit_example : IsFit test_outside room (run_all test_outside a_session test_context []).1
run_all-IsFit_example =
    run_all-IsFit test_outside room test_laws test_outside-IsSound a_session test_context []
      test_stack-IsValid

request-talk_example :
    (talk (request test_carrier (register_on test_plmn) test_network locked).2 ≡ quiet 1)
    × (talk (identify test_carrier.modem Identity.model 16 test_network locked).2 ≡ quiet 1)
request-talk_example =
    request-talk test_carrier (register_on test_plmn) Identity.model 16 0 test_network locked
      (record {
        polite_mode = λ n. Moves-pure _;
        polite_clear = λ n. Moves-pure _;
        polite_attach = λ n. Moves-pure _;
      })
      lock_said

test_around-IsSafeAround : IsSafeAround test_env room test_around
test_around-IsSafeAround = record {
  safe_base = record { safe_open = λ p. Keeps-pure _; safe_close = λ h. Keeps-pure _ };
  safe_options = λ h level name value. Keeps-pure _;
}

abbrev some_life : List Entry
some_life =
    Entry.create (some 0) minus_one
    ∷ Entry.data_arrived
    ∷ Entry.receive 0 1
    ∷ Entry.open_tcp (some host) 80 false
    ∷ []

end_stack-returns_all_example :
    let (lived, last, before) = live test_env test_around some_life timed_stack [] in
    let (finished, ended, said) = end_stack test_env last before in
    (room ended.rx_pool ≡ 7)
    × (ended.rx_buf (pos 0) ≡ none)
    × (((last.txfull_event_id == 0) ≡ true) ⊎ (cancelled last.txfull_event_id said ≡ true))
    × (listens urc_of_iprecv said ≡ false)
end_stack-returns_all_example =
    end_stack-returns_all test_env room test_laws test_around test_around-IsSafeAround timed_stack
      [] some_life 0 urc_of_iprecv timed_stack-IsValid (omega arith)
