-- ===== src/Stack/Valid/Run.antt =====
-- Sequences of the stack's operations, of the events that the modem raises and of the timer.
-- Each runs to its end before the next.
use mbed_ce_st87m.Common.{ℕ, Option, List, ℤ}
use mbed_ce_st87m.At.{Trace, Action}
use mbed_ce_st87m.Stack.Types.{Address, Stack, Env}
use mbed_ce_st87m.Stack.Lifecycle.{
  create_socket_impl, create_tls_socket, socket_close_impl, close_all_sockets,
}
use mbed_ce_st87m.Stack.Connect.{socket_connect}
use mbed_ce_st87m.Stack.Send.{socket_sendto_impl}
use mbed_ce_st87m.Stack.Receive.{socket_recvfrom_impl}
use mbed_ce_st87m.Stack.Events.{urc_iprecv, urc_socketclosed, txfull_event_timeout}
use mbed_ce_st87m.Stack.Valid.{BufferLaws, IsValid}
use mbed_ce_st87m.Stack.Valid.Operations.{
  create_socket_impl-Safe, create_tls_socket-Safe, socket_close_impl-Safe, close_all_sockets-Safe,
  socket_connect-Safe,
}
use mbed_ce_st87m.Stack.Valid.Traffic.{socket_sendto_impl-Safe}
use mbed_ce_st87m.Stack.Valid.Reception.{socket_recvfrom_impl-Safe}
use mbed_ce_st87m.Stack.Valid.Arrivals.{
  urc_iprecv-Safe, urc_socketclosed-Safe, txfull_event_timeout-Safe,
}

-- The fields and the calls made so far.
abbrev pub Moment : Type 0 → Type 0
Moment S = S × Trace

abbrev pub after : {S A : Type 0} → Action S A → Moment S → Moment S
after m (s, t) = let (a, s', t') = m s t in (s', t')

module _ {P : Type 0} (env : Env P) where
  pub data Step : Moment (Stack P) → Moment (Stack P) → Type 0 where
    create :
        (h : Option ℕ) (ctx : ℤ) (m : Moment (Stack P))
        → Step m (after (create_socket_impl env h ctx) m)
    create_tls :
        (h : Option ℕ) (ctx : ℤ) (m : Moment (Stack P))
        → Step m (after (create_tls_socket env h ctx) m)
    connect :
        (h : Option ℕ) (address : Address) (m : Moment (Stack P))
        → Step m (after (socket_connect env h address) m)
    sendto :
        (h : ℕ) (address : Address) (payload : List ℕ) (m : Moment (Stack P))
        → Step m (after (socket_sendto_impl env h address payload) m)
    recvfrom :
        (h want : ℕ) (m : Moment (Stack P)) → Step m (after (socket_recvfrom_impl env h want) m)
    close : (k : ℤ) (m : Moment (Stack P)) → Step m (after (socket_close_impl env k) m)
    close_all : (m : Moment (Stack P)) → Step m (after (close_all_sockets env) m)
    data_arrived : (m : Moment (Stack P)) → Step m (after (urc_iprecv env) m)
    socket_closed : (m : Moment (Stack P)) → Step m (after (urc_socketclosed env) m)
    timer_fired : (m : Moment (Stack P)) → Step m (after (txfull_event_timeout env) m)

  -- Any number of steps.
  pub data Steps : Moment (Stack P) → Moment (Stack P) → Type 0 where
    done : (m : Moment (Stack P)) → Steps m m
    and_then : (l m n : Moment (Stack P)) → Step l m → Steps m n → Steps l n

  module _ (room : P → ℕ) (laws : BufferLaws env room) where
    Step-IsValid : (m n : Moment (Stack P)) → Step m n → IsValid env room m.0 → IsValid env room n.0
    Step-IsValid _ _ (create h ctx (s, t)) v =
        (create_socket_impl-Safe env room laws h ctx).at s t v
    Step-IsValid _ _ (create_tls h ctx (s, t)) v =
        (create_tls_socket-Safe env room laws h ctx).at s t v
    Step-IsValid _ _ (connect h address (s, t)) v =
        (socket_connect-Safe env room laws h address).at s t v
    Step-IsValid _ _ (sendto h address payload (s, t)) v =
        (socket_sendto_impl-Safe env room laws h address payload).at s t v
    Step-IsValid _ _ (recvfrom h want (s, t)) v =
        (socket_recvfrom_impl-Safe env room laws h want).at s t v
    Step-IsValid _ _ (close k (s, t)) v = (socket_close_impl-Safe env room laws k).at s t v
    Step-IsValid _ _ (close_all (s, t)) v = (close_all_sockets-Safe env room laws).at s t v
    Step-IsValid _ _ (data_arrived (s, t)) v = (urc_iprecv-Safe env room laws).at s t v
    Step-IsValid _ _ (socket_closed (s, t)) v = (urc_socketclosed-Safe env room laws).at s t v
    Step-IsValid _ _ (timer_fired (s, t)) v = (txfull_event_timeout-Safe env room laws).at s t v

    -- When the memory pool and read_bytes keep their laws, then whatever the modem answers and
    -- whichever operations, unsolicited events and timer events run, one after another, from a valid
    -- state, the state stays valid: the blocks in the pool and the ids with a receive buffer are
    -- seven together, and every receive buffer has its head at most its tail, its tail within its
    -- array, and an array of the configured size.
    pub run-IsValid :
        (m n : Moment (Stack P)) → Steps m n → IsValid env room m.0 → IsValid env room n.0
    run-IsValid m _ (done _) v = v
    run-IsValid l n (and_then _ m _ step rest) v = run-IsValid m n rest (Step-IsValid l m step v)
