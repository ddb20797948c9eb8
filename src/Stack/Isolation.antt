-- ===== src/Stack/Isolation.antt =====
-- What the operations of one TCP socket leave alone: every other socket, and what the stack keeps
-- for other ids. Here, receiving.
pub mod Uses
use mathlib.Core.Path.{subst}
use mathlib.Core.Bool.{false≢true}
use mbed_ce_st87m.Common.{
  ℕ, zero, suc, ◌≡◌, refl, sym, ap, ◌∙◌, Bool, true, false, Option, none, some, List, [], ◌∷◌, ◌==◌,
  ==_iff, if◌then◌else◌, Bool-cases, Option-cases, inl, inr, ℤ, ◌==ℤ◌, arith, minus_one, below,
}
use mbed_ce_st87m.At.{Trace, Action, pure, modify, ◌>>=◌, ◌>>◌}
use mbed_ce_st87m.At.Keeps.{
  Keeps, Keeps-if, Keeps-bind, Keeps-pure, Keeps-state, Keeps-modify, keeps_rules,
}
use mbed_ce_st87m.Stack.Types.{
  Proto, Address, is_udp, Socket, RxBuffer, Stack, Env, update_at, max_sockets, find, set_socket,
}
use mbed_ce_st87m.Stack.Slots.{reset, free_slot, free_rx_buffer}
use mbed_ce_st87m.Stack.Lifecycle.{release_slot, close_on_modem, close_found, socket_close_impl}
use mbed_ce_st87m.Stack.Send.{
  raise_txfull, schedule_txfull, exchange, settle, send_loop, send_with, socket_sendto_impl,
}
use mbed_ce_st87m.Stack.Receive.{
  set_rx_buf, set_pending, take_buffered, ipread, accept_datagram, accept_segment, drop_segment,
  give_up, conclude, read_segment, read_datagram, read_modem, drain, socket_recvfrom_impl,
}

module _ {P : Type 0} (h : ℕ) (k : ℤ) (before : Stack P) where
  -- The socket is a TCP socket with the id `k`, and all else is as in `before`.
  pub record IsApart (s : Stack P) : Type 0 where
    pub own_id : (s.sockets h).id ≡ k
    pub own_proto : (s.sockets h).proto ≡ Proto.tcp
    pub other_sockets : (j : ℕ) → (h == j) ≡ false → s.sockets j ≡ before.sockets j
    pub other_buffers : (j : ℤ) → (k ==ℤ j) ≡ false → s.rx_buf j ≡ before.rx_buf j
    pub other_profiles : (j : ℤ) → (k ==ℤ j) ≡ false → s.socket_sslctx j ≡ before.socket_sslctx j

  -- No other socket has the id.
  abbrev pub IsAlone : Type 0
  IsAlone = (j : ℕ) → (h == j) ≡ false → ((before.sockets j).id ==ℤ k) ≡ false

  set_socket-IsApart :
      (sock : Socket) (s : Stack P)
      → sock.id ≡ k
      → sock.proto ≡ Proto.tcp
      → IsApart s
      → IsApart (set_socket h sock s)
  set_socket-IsApart sock s i p a =
      let self = (==_iff h h).1 refl in
      record {
        own_id = rw self i;
        own_proto = rw self p;
        other_sockets = λ j ne. rw ne (a.other_sockets j ne);
        other_buffers = a.other_buffers;
        other_profiles = a.other_profiles;
      }

  pub set_rx_buf-IsApart :
      (b : Option RxBuffer) (pool : P) (s : Stack P)
      → IsApart s
      → IsApart (record s { rx_buf = update_at s.rx_buf k b; rx_pool = pool })
  set_rx_buf-IsApart b pool s a = record {
    own_id = a.own_id;
    own_proto = a.own_proto;
    other_sockets = a.other_sockets;
    other_buffers = λ j ne. rw ne (a.other_buffers j ne);
    other_profiles = a.other_profiles;
  }

  pub set_profile-IsApart :
      (ctx : ℤ) (s : Stack P)
      → IsApart s
      → IsApart (record s { socket_sslctx = update_at s.socket_sslctx k ctx })
  set_profile-IsApart ctx s a = record {
    own_id = a.own_id;
    own_proto = a.own_proto;
    other_sockets = a.other_sockets;
    other_buffers = a.other_buffers;
    other_profiles = λ j ne. rw ne (a.other_profiles j ne);
  }

  pub set_timer-IsApart :
      (n : ℕ) (s : Stack P) → IsApart s → IsApart (record s { txfull_event_id = n })
  set_timer-IsApart n s a = record {
    own_id = a.own_id;
    own_proto = a.own_proto;
    other_sockets = a.other_sockets;
    other_buffers = a.other_buffers;
    other_profiles = a.other_profiles;
  }

  abbrev pub Apart : {A : Type 0} → Action (Stack P) A → Type 0
  Apart = Keeps IsApart

  -- A step that changes the socket, but neither its id nor its protocol.
  pub modify_socket-Apart :
      (f : Stack P → Socket)
      → ((s : Stack P) → (f s).id ≡ (s.sockets h).id)
      → ((s : Stack P) → (f s).proto ≡ (s.sockets h).proto)
      → Apart (modify (λ s. set_socket h (f s) s))
  modify_socket-Apart f i p =
      Keeps-modify _ λ s a. set_socket-IsApart (f s) s (i s ∙ a.own_id) (p s ∙ a.own_proto) a

  modify_buffer-Apart :
      (b : Option RxBuffer) → Apart (modify (λ s. record s { rx_buf = update_at s.rx_buf k b }))
  modify_buffer-Apart b = Keeps-modify _ λ s a. set_rx_buf-IsApart b s.rx_pool s a

  module _ (env : Env P) where
    take_buffered-Apart : (b : RxBuffer) (want : ℕ) → Apart (take_buffered env k b want)
    unfolding take_buffered
    take_buffered-Apart b want = Keeps-bind _ _ (modify_buffer-Apart _) (λ _. Keeps-pure _)

    set_pending-Apart : (f : Stack P → ℕ) → Apart (modify (λ s. set_pending env h (f s) s))
    unfolding set_pending
    set_pending-Apart f = modify_socket-Apart _ (λ s. refl) (λ s. refl)

    drop_segment-Apart : (udp : Bool) (b : Option RxBuffer) → Apart (drop_segment env k udp b)
    unfolding drop_segment
    drop_segment-Apart udp none = Keeps-pure _
    drop_segment-Apart udp (some b) = Keeps-if udp _ _ (Keeps-pure _) (modify_buffer-Apart _)

    clear_pending-Apart : Apart (modify (set_pending env h 0))
    clear_pending-Apart = set_pending-Apart (λ s. 0)

    ruleset slot_rules = (
      keeps_rules, take_buffered-Apart, modify_buffer-Apart, drop_segment-Apart, set_pending-Apart,
      clear_pending-Apart,
    )

    give_up-Apart : (udp : Bool) → Apart (give_up env h k udp)
    unfolding give_up
    give_up-Apart udp = search slot_rules depth 20

    conclude-Apart :
        (udp : Bool) (copied : List ℕ) (source : Option Address)
        → Apart (conclude env h k udp copied source)
    unfolding conclude
    conclude-Apart udp copied source = search (slot_rules, give_up-Apart) depth 20

    accept_segment-Apart :
        (b : RxBuffer) (data_len want : ℕ) (read : Option (List ℕ))
        → Apart (accept_segment env k b data_len want read)
    unfolding accept_segment
    accept_segment-Apart b data_len want none = search slot_rules
    accept_segment-Apart b data_len want (some got) = search slot_rules depth 30

    read_segment-Apart :
        (data_len want : ℕ) (b : Option RxBuffer) → Apart (read_segment env h k data_len want b)
    unfolding read_segment
    read_segment-Apart data_len want none = search slot_rules depth 20
    read_segment-Apart data_len want (some b) =
        search (slot_rules, accept_segment-Apart, conclude-Apart) depth 20

    accept_datagram-Apart :
        (data_len : ℕ) (read : Option (List ℕ)) → Apart (accept_datagram env h data_len read)
    unfolding accept_datagram
    accept_datagram-Apart data_len none = search keeps_rules
    accept_datagram-Apart data_len (some got) = search keeps_rules depth 20

    read_datagram-Apart : (data_len want : ℕ) → Apart (read_datagram env h k data_len want)
    unfolding read_datagram
    read_datagram-Apart data_len want = Keeps-bind _ _ (search keeps_rules) λ read.
        Keeps-bind _ _ (accept_datagram-Apart data_len read)
          λ (copied, source). conclude-Apart true copied source

    read_modem-Apart : (want : ℕ) → Apart (read_modem env h k want)
    unfolding read_modem ipread
    read_modem-Apart want = search (keeps_rules, read_datagram-Apart, read_segment-Apart) depth 30

    drain-Apart : (want : ℕ) (b : Option RxBuffer) → Apart (drain env h k want b)
    unfolding drain
    drain-Apart want none = read_modem-Apart want
    drain-Apart want (some b) = search (slot_rules, read_modem-Apart) depth 30

    pub socket_recvfrom_impl-Apart : (want : ℕ) → Apart (socket_recvfrom_impl env h want)
    unfolding socket_recvfrom_impl
    socket_recvfrom_impl-Apart want =
        Keeps-state _ λ s a. rw a.own_id (search (keeps_rules, drain-Apart) depth 20)
