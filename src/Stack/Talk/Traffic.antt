-- ===== src/Stack/Talk/Traffic.antt =====
-- The conversations of sending, receiving and of the unsolicited events.
use mbed_ce_st87m.Common.{
  ℕ, zero, suc, ◌≡◌, refl, Bool, not, ◌||◌, ltb, pos_part, Option, none, some, List, [], ◌∷◌, ℤ,
  below,
}
use mbed_ce_st87m.At.{SizeOrError, Action, AtCall, is_ok}
use mbed_ce_st87m.At.Talk.{
  Talk, talk, Moves-bind, quiet, writing, reading, say_all, Moves, Stays, Moves-if, Moves-pure,
  Moves-calls, Moves-call_then, Moves-calls_then, Moves-back_then, Moves-gets, Moves-get_last_error,
  Moves-get_last_device_error, talk_rules,
}
use mbed_ce_st87m.Stack.Types.{Proto, is_udp, Address, RxBuffer, Stack, Env, max_sockets}
use mbed_ce_st87m.Stack.Send.{
  send_header, payload_calls, schedule_txfull, raise_txfull, exchange, settle, send_loop, send_with,
  capture_peer, is_congestion, socket_sendto_impl,
}
use mbed_ce_st87m.Stack.Receive.{
  take_buffered, ipread, accept_datagram, accept_segment, drop_segment, give_up, conclude,
  read_segment, read_datagram, read_modem, drain, socket_recvfrom_impl,
}
use mbed_ce_st87m.Stack.Events.{
  count_arrival, notify_socket, urc_iprecv, reset_found, reset_slot, mark_closed, urc_socketclosed,
}
use mbed_ce_st87m.Stack.Talk.{create_socket_impl-Stays, socket_close_impl-Stays}

payload_calls-say : (bs : List ℕ) (n : ℕ) → say_all (payload_calls bs) (writing n) ≡ writing n
unfolding payload_calls
payload_calls-say [] n = refl
payload_calls-say (b ∷ bs) n = payload_calls-say bs n

-- The header begins a command, whatever the socket's protocol.
abbrev Begins : Option (List AtCall) → Type 0
Begins none = Unit {0}
Begins (some header) = (n : ℕ) → say_all header (quiet (suc n)) ≡ writing (suc n)

send_header-Begins :
    (cid : ℤ) (proto : Proto) (k : ℤ) (address : Address) → Begins (send_header cid proto k address)
unfolding send_header
send_header-Begins cid Proto.udp k address = λ n. refl
send_header-Begins cid Proto.tcp k address = λ n. refl
send_header-Begins cid Proto.other_proto k address = tt

module _ {P : Type 0} (env : Env P) {p : Talk} where
  schedule_txfull-Stays : Stays p (schedule_txfull env)
  unfolding schedule_txfull talk
  schedule_txfull-Stays = record { at = λ s t h. h }

module _ {P : Type 0} (env : Env P) {n : ℕ} where
  raise_txfull-Stays : (h : ℕ) → Stays (quiet (suc n)) (raise_txfull env h)
  unfolding raise_txfull
  raise_txfull-Stays h = search (talk_rules, schedule_txfull-Stays) depth 20

  exchange-Stays :
      (header : List AtCall) (payload : List ℕ)
      → Begins (some header)
      → Stays (quiet (suc n)) (exchange env header payload)
  unfolding exchange
  exchange-Stays header payload begins = Moves-call_then _ _ (
      Moves-bind _ _ (Moves-calls header (begins n)) λ _. Moves-call_then _ _ (
        Moves-back_then _ _
          (Moves-calls (payload_calls payload) (payload_calls-say payload (suc n)))
          (λ _. search talk_rules depth 20)))

  settle-Stays :
      (h : ℕ) (payload : List ℕ) (again : Action (Stack P) SizeOrError) (done : Bool)
      → Stays (quiet (suc n)) again
      → Stays (quiet (suc n)) (settle env h payload again done)
  unfolding settle
  settle-Stays h payload again done retry = Moves-if done _ _ (Moves-pure _) (
      Moves-back_then _ _ (Moves-get_last_device_error env.modem) λ dev_err.
        Moves-back_then _ _ (Moves-get_last_error env.modem) λ e.
          Moves-back_then _ _ (Moves-gets _) λ s.
            Moves-if (not (is_congestion dev_err)) _ _ (Moves-pure _)
              (Moves-if (is_udp (s.sockets h).proto) _ _ retry (raise_txfull-Stays h)))

  send_loop-Stays :
      (left h : ℕ) (header : List AtCall) (payload : List ℕ)
      → Begins (some header)
      → Stays (quiet (suc n)) (send_loop env left h header payload)
  unfolding send_loop
  send_loop-Stays zero h header payload begins =
      Moves-back_then _ _ (exchange-Stays header payload begins)
        (λ done. settle-Stays h payload _ done (Moves-pure _))
  send_loop-Stays (suc left) h header payload begins =
      Moves-back_then _ _ (exchange-Stays header payload begins) (λ done.
        settle-Stays h payload _ done
          (Moves-calls_then _ _ (send_loop-Stays left h header payload begins)))

  send_with-Stays :
      (h : ℕ) (payload : List ℕ) (header : Option (List AtCall))
      → Begins header
      → Stays (quiet (suc n)) (send_with env h payload header)
  unfolding send_with
  send_with-Stays h payload none begins = search talk_rules depth 10
  send_with-Stays h payload (some header) begins = send_loop-Stays 3 h header payload begins

  capture_peer-Stays :
      (h : ℕ) (address : Address) → Stays (quiet (suc n)) (capture_peer env h address)
  unfolding capture_peer
  capture_peer-Stays h address =
      search (talk_rules, create_socket_impl-Stays, socket_close_impl-Stays) depth 20

  pub socket_sendto_impl-Stays :
      (h : ℕ) (address : Address) (payload : List ℕ)
      → Stays (quiet (suc n)) (socket_sendto_impl env h address payload)
  unfolding socket_sendto_impl
  socket_sendto_impl-Stays h address payload =
      search (talk_rules, capture_peer-Stays, send_with-Stays, send_header-Begins) depth 20

  ipread-reads : (k : ℤ) → Moves (quiet (suc n)) (reading (suc n)) (ipread env k)
  unfolding ipread
  ipread-reads k = search talk_rules depth 20

module _ {P : Type 0} (env : Env P) {p : Talk} where
  take_buffered-Stays : (k : ℤ) (b : RxBuffer) (want : ℕ) → Stays p (take_buffered env k b want)
  unfolding take_buffered
  take_buffered-Stays k b want = search talk_rules depth 10

  drop_segment-Stays :
      (k : ℤ) (udp : Bool) (b : Option RxBuffer) → Stays p (drop_segment env k udp b)
  unfolding drop_segment
  drop_segment-Stays k udp none = search talk_rules
  drop_segment-Stays k udp (some b) = search talk_rules depth 10

  notify_socket-Stays : (h : ℕ) → Stays p (notify_socket env h)
  unfolding notify_socket
  notify_socket-Stays h = search talk_rules depth 10

module _ {P : Type 0} (env : Env P) {n : ℕ} where
  accept_datagram-Stays :
      (h data_len : ℕ) (got : Option (List ℕ))
      → Stays (reading n) (accept_datagram env h data_len got)
  unfolding accept_datagram
  accept_datagram-Stays h data_len none = search talk_rules
  accept_datagram-Stays h data_len (some got) = search talk_rules depth 20

  accept_segment-Stays :
      (k : ℤ) (b : RxBuffer) (data_len want : ℕ) (got : Option (List ℕ))
      → Stays (reading n) (accept_segment env k b data_len want got)
  unfolding accept_segment
  accept_segment-Stays k b data_len want none = search talk_rules depth 10
  accept_segment-Stays k b data_len want (some got) =
      search (talk_rules, take_buffered-Stays) depth 20

  give_up-Stays : (h : ℕ) (k : ℤ) (udp : Bool) → Stays (quiet n) (give_up env h k udp)
  unfolding give_up
  give_up-Stays h k udp = search (talk_rules, drop_segment-Stays) depth 20

  conclude-ends :
      (h : ℕ) (k : ℤ) (udp : Bool) (copied : List ℕ) (source : Option Address)
      → Moves (reading n) (quiet n) (conclude env h k udp copied source)
  unfolding conclude
  conclude-ends h k udp copied source = search (talk_rules, give_up-Stays) depth 20

  read_segment-ends :
      (h : ℕ) (k : ℤ) (data_len want : ℕ) (b : Option RxBuffer)
      → Moves (reading n) (quiet n) (read_segment env h k data_len want b)
  unfolding read_segment
  read_segment-ends h k data_len want none = search talk_rules depth 20
  read_segment-ends h k data_len want (some b) =
      search (talk_rules, accept_segment-Stays, conclude-ends) depth 20

  read_datagram-ends :
      (h : ℕ) (k : ℤ) (data_len want : ℕ)
      → Moves (reading n) (quiet n) (read_datagram env h k data_len want)
  unfolding read_datagram
  read_datagram-ends h k data_len want =
      search (talk_rules, accept_datagram-Stays, conclude-ends) depth 20

  -- An unsolicited result code is read where it arrives.
  count_arrival-Stays : (h : Option ℕ) → Stays (reading n) (count_arrival env h)
  unfolding count_arrival
  count_arrival-Stays none = search talk_rules
  count_arrival-Stays (some h) = search (talk_rules, notify_socket-Stays) depth 10

  pub urc_iprecv-Stays : Stays (reading n) (urc_iprecv env)
  unfolding urc_iprecv
  urc_iprecv-Stays = search (talk_rules, count_arrival-Stays) depth 20

  reset_found-Stays : (k : ℤ) (b : Option RxBuffer) → Stays (reading n) (reset_found env k b)
  unfolding reset_found
  reset_found-Stays k none = search talk_rules
  reset_found-Stays k (some b) = search talk_rules depth 10

  reset_slot-Stays : (k : ℤ) → Stays (reading n) (reset_slot env k)
  unfolding reset_slot
  reset_slot-Stays k =
      Moves-if (below k max_sockets) _ _
        (Moves-back_then _ _ (Moves-gets _) (λ s. reset_found-Stays k (s.rx_buf k))) (Moves-pure _)

  mark_closed-Stays : (k : ℤ) (h : Option ℕ) → Stays (reading n) (mark_closed env k h)
  unfolding mark_closed
  mark_closed-Stays k none = search talk_rules
  mark_closed-Stays k (some h) = search (talk_rules, reset_slot-Stays, notify_socket-Stays) depth 10

  pub urc_socketclosed-Stays : Stays (reading n) (urc_socketclosed env)
  unfolding urc_socketclosed
  urc_socketclosed-Stays = search (talk_rules, mark_closed-Stays) depth 20

-- Receiving, while the caller holds the lock.
module _ {P : Type 0} (env : Env P) {n : ℕ} where
  read_modem-Stays : (h : ℕ) (k : ℤ) (want : ℕ) → Stays (quiet (suc n)) (read_modem env h k want)
  unfolding read_modem
  read_modem-Stays h k want = Moves-back_then _ _ (Moves-gets _) λ s.
      Moves-if _ _ _ (Moves-pure _) (
        Moves-bind _ _ (ipread-reads env k) λ data_len.
          Moves-back_then _ _ (Moves-get_last_error env.modem) λ e.
            Moves-if (not (is_ok e) || not (ltb 0 (pos_part data_len))) _ _
              (search talk_rules depth 10)
              (Moves-if (is_udp (s.sockets h).proto) _ _
                (read_datagram-ends env h k (pos_part data_len) want)
                (read_segment-ends env h k (pos_part data_len) want (s.rx_buf k))))

  drain-Stays :
      (h : ℕ) (k : ℤ) (want : ℕ) (b : Option RxBuffer)
      → Stays (quiet (suc n)) (drain env h k want b)
  unfolding drain
  drain-Stays h k want none = read_modem-Stays h k want
  drain-Stays h k want (some b) =
      search (talk_rules, read_modem-Stays, take_buffered-Stays) depth 20

  pub socket_recvfrom_impl-Stays :
      (h want : ℕ) → Stays (quiet (suc n)) (socket_recvfrom_impl env h want)
  unfolding socket_recvfrom_impl
  socket_recvfrom_impl-Stays h want = Moves-back_then _ _ (Moves-gets _) λ s.
      Moves-if (not (below (s.sockets h).id max_sockets)) _ _ (Moves-pure _)
        (Moves-if (s.sockets h).closed _ _ (Moves-pure _) (drain-Stays h _ want _))
