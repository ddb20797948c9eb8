-- ===== src/Stack/Tests.antt =====
-- A modem and a stack to try the operations on, and the properties at concrete inputs.
use mbed_ce_st87m.Common.{
  ℕ, zero, suc, ◌+◌, ◌≤◌, ◌≡◌, refl, ◌⊎◌, inl, inr, true, false, Option, none, some, List, [], ◌∷◌,
  ◌++◌, arith, ℤ, pos, minus_one, ◌==ℤ◌, if◌then◌else◌, take, length, length-take,
}
use mathlib.Core.Path.{subst}
use mathlib.Core.Option.{some-injective, none-ne-some}
use mbed_ce_st87m.At.{ok, Modem, Trace, is_ok, each_line, ◌>>=◌, AtCall, sleep_for}
use mbed_ce_st87m.Stack.Types.{Proto, IpVersion, Address, Socket, RxBuffer, Stack, Env, max_sockets}
use mbed_ce_st87m.Stack.Slots.{allocate_rx_buffer, allocate_slot, take_block}
use mbed_ce_st87m.Stack.Slots.Pool.{PoolLaws, IsAccounted, used, allocate_rx_buffer-never_exhausted}
use mbed_ce_st87m.Stack.Lifecycle.{register, socket_close_impl}
use mbed_ce_st87m.Stack.Receive.{copied_from, advanced}
use mbed_ce_st87m.At.Later.{Ticks}
use mbed_ce_st87m.Stack.Connect.{await_connect}
use mbed_ce_st87m.Stack.Polling.{IsDecided, await_connect-IsDecided}
use mbed_ce_st87m.Stack.Valid.{BufferLaws, IsBuffer, IsValid}
use mbed_ce_st87m.Stack.Valid.Run.{
  Moment, create, data_arrived, recvfrom, close, done, and_then, after, run-IsValid,
}
use mbed_ce_st87m.Stack.Lifecycle.{
  create_socket_impl, create_typed, create_on_modem, allocate, start_socket, socket_type,
}
use mbed_ce_st87m.Stack.Ip.{ensure_ip_configured, configure_ip, ipcfg_line, cgpaddr, before_mask}
use mbed_ce_st87m.Stack.Events.{urc_iprecv, count_arrival, notify_socket}
use mbed_ce_st87m.Stack.Receive.{
  socket_recvfrom_impl, drain, read_modem, read_segment, ipread, accept_segment, take_buffered,
  conclude, set_pending, filled, reset_if_empty,
}
use mbed_ce_st87m.Stack.Guarantees.{
  unread, copied_from-advanced, IsRegistered, register-ok, socket_close_impl-releases,
}

abbrev the_bytes : List ℕ
the_bytes = 1 ∷ 2 ∷ 3 ∷ []

-- Only sleeping takes time.
abbrev duration : AtCall → ℕ
duration (sleep_for n) = n
duration _ = 0

abbrev elapsed : Trace → ℕ
elapsed [] = 0
elapsed (c ∷ t) = elapsed t + duration c

-- It answers OK to everything, with one line for each answer, the number 1, and three bytes.
abbrev pub test_modem : Modem
test_modem = record {
  last_error = λ t. ok;
  device_error_at = λ t. record { cme = false; err_code = pos 0 };
  discard_error = λ t. ok;
  query_error = λ t. ok;
  synced = λ t. true;
  has_line = λ t. true;
  int_param = λ t. pos 1;
  string_param = λ n t. take n (b'1' ∷ b'.' ∷ b'2' ∷ []);
  bytes_param = λ n t. some (take n the_bytes);
  clock_ms = elapsed;
  line_limit = 2;
}

test_modem-Ticks : Ticks test_modem
test_modem-Ticks = record { on_call = λ c t. omega arith; on_sleep = λ n t. omega arith }

abbrev pub fresh : RxBuffer
fresh = record { bytes = 0 ∷ 0 ∷ 0 ∷ 0 ∷ []; head = 0; tail = 0 }

-- The pool is the number of blocks in it.
abbrev test_alloc : ℕ → Option (RxBuffer × ℕ)
test_alloc zero = none
test_alloc (suc n) = some (fresh, n)

abbrev test_find : List (Option ℕ) → (ℕ → Socket) → ℤ → Option ℕ
test_find [] sockets k = none
test_find (none ∷ slots) sockets k = test_find slots sockets k
test_find (some h ∷ slots) sockets k =
    if (sockets h).id ==ℤ k then some h else test_find slots sockets k

abbrev nowhere : Address
nowhere = record { ip = []; port = 0; version = IpVersion.ipv4 }

abbrev pub test_env : Env ℕ
test_env = record {
  modem = test_modem;
  try_alloc = test_alloc;
  free_block = λ b n. n + 1;
  find_socket = test_find;
  event_id = λ t. 1;
  parse_address = λ text. record { ip = text; port = 0; version = IpVersion.ipv4 };
  ip_size = 16;
  apn_size = 64;
  rx_size = 4;
  default_sslctx = pos 0;
}

abbrev pub test_socket : Socket
test_socket = record {
  id = minus_one;
  proto = Proto.tcp;
  local_port = 0;
  remote_address = nowhere;
  connected = false;
  started = false;
  closed = false;
  tls_socket = false;
  txfull_event = false;
  pending_bytes = 0;
  has_cb = true;
}

abbrev pub test_stack : Stack ℕ
test_stack = record {
  cid = pos 1;
  ip_ver_sendto = IpVersion.ipv4;
  sslctx_id = pos 0;
  ip_configured = false;
  txfull_event_id = 0;
  socket_sslctx = λ k. minus_one;
  rx_buf = λ k. none;
  rx_pool = 7;
  socket_slots = some 0 ∷ none ∷ [];
  sockets = λ h. test_socket;
}

abbrev pub room : ℕ → ℕ
room n = n

pub test_alloc-room :
    (p : ℕ)
    → ((test_alloc p ≡ none) × (room p ≡ 0))
      ⊎ ((b : RxBuffer) × (q : ℕ) × (test_alloc p ≡ some (b, q)) × (room p ≡ room q + 1))
test_alloc-room zero = inl (refl, refl)
test_alloc-room (suc n) = inr (fresh, n, refl, omega arith)

abbrev test_pool_laws : PoolLaws test_env room
test_pool_laws = record { alloc_room = test_alloc-room; free_room = λ b p. refl }

pub test_block_size : (p q : ℕ) (b : RxBuffer) → test_alloc p ≡ some (b, q) → length b.bytes ≡ 4
test_block_size zero q b e = absurd (none-ne-some _ e)
test_block_size (suc n) q b e =
    subst (λ (x : RxBuffer × ℕ). length x.0.bytes ≡ 4) (some-injective _ _ e) refl

pub test_read_at_most :
    (n : ℕ) (t : Trace) (got : List ℕ) → test_modem.bytes_param n t ≡ some got → length got ≤ n
test_read_at_most n t got e =
    subst (λ (x : List ℕ). length x ≤ n) (some-injective _ _ e)
      (omega (arith, length-take n (the_bytes)))

abbrev pub test_laws : BufferLaws test_env room
test_laws = record {
  pool_laws = test_pool_laws;
  block_size = test_block_size;
  read_at_most = test_read_at_most;
}

test_stack-IsAccounted : room 7 + used max_sockets (λ k. none) ≡ max_sockets
unfolding used
test_stack-IsAccounted = refl

pub test_stack-IsValid : IsValid test_env room test_stack
test_stack-IsValid = record {
  accounted = test_stack-IsAccounted;
  buffers = λ k b e. absurd (none-ne-some b e);
}

abbrev at_start : Moment (Stack ℕ)
at_start = (test_stack, [])

abbrev created_moment : Moment (Stack ℕ)
created_moment = after (create_socket_impl test_env (some 0) minus_one) at_start

abbrev arrived_moment : Moment (Stack ℕ)
arrived_moment = after (urc_iprecv test_env) created_moment

abbrev received_moment : Moment (Stack ℕ)
received_moment = after (socket_recvfrom_impl test_env 0 2) arrived_moment

abbrev closed_moment : Moment (Stack ℕ)
closed_moment = after (socket_close_impl test_env (pos 1)) received_moment

run-IsValid_example : IsValid test_env room closed_moment.0
run-IsValid_example =
    run-IsValid test_env room test_laws at_start closed_moment
      (and_then _ _ _ (create (some 0) minus_one _) (
        and_then _ _ _ (data_arrived _)
          (and_then _ _ _ (recvfrom 0 2 _) (and_then _ _ _ (close (pos 1) _) (done _)))))
      test_stack-IsValid

abbrev half_read : RxBuffer
half_read = record { bytes = 5 ∷ 6 ∷ 7 ∷ 8 ∷ []; head = 1; tail = 3 }

await_connect-IsDecided_example :
    IsDecided test_env test_modem-Ticks
      (elapsed [] + 1200)
      (await_connect test_env 1200 (pos 1) (pos 4) test_stack [])
await_connect-IsDecided_example =
    await_connect-IsDecided test_env test_modem-Ticks 1200 (pos 1) (pos 4) test_stack []

half_read-IsBuffer : IsBuffer 4 half_read
half_read-IsBuffer = record { ordered = omega arith; inside = omega arith; whole = refl }

copied_from-advanced_example :
    (copied_from half_read 1 ++ unread (advanced half_read 1) ≡ 6 ∷ 7 ∷ [])
    × (length (copied_from half_read 1) ≡ 1)
copied_from-advanced_example = copied_from-advanced half_read 1 4 half_read-IsBuffer

register-ok_example :
    IsRegistered test_env 0
      (pos 3)
      (register test_env 0 minus_one (pos 3) test_stack []).0
      (register test_env 0 minus_one (pos 3) test_stack []).1
register-ok_example =
    register-ok test_env room test_pool_laws 0 minus_one (pos 3) test_stack []
      test_stack-IsAccounted

allocate_rx_buffer_example :
    ((allocate_rx_buffer test_env (pos 6) test_stack).0 ≡ true)
    × IsAccounted test_env room test_pool_laws (allocate_rx_buffer test_env (pos 6) test_stack).1
allocate_rx_buffer_example =
    allocate_rx_buffer-never_exhausted test_env room test_pool_laws (pos 6) test_stack
      test_stack-IsAccounted

socket_close_impl-releases_example :
    ((socket_close_impl test_env (pos 2) test_stack []).1.rx_buf (pos 2) ≡ none)
    × ((socket_close_impl test_env (pos 2) test_stack []).1.socket_sslctx (pos 2) ≡ minus_one)
socket_close_impl-releases_example =
    socket_close_impl-releases test_env (pos 2) test_stack [] refl (λ h e. refl)

-- A segment of one byte arrives on a new socket, and is taken.
received_run :
    (socket_recvfrom_impl test_env 0 2 arrived_moment.0 arrived_moment.1).0.copied ≡ 1 ∷ []
unfolding create_socket_impl create_typed create_on_modem register allocate start_socket socket_type
    ensure_ip_configured configure_ip ipcfg_line cgpaddr before_mask allocate_rx_buffer
    allocate_slot take_block urc_iprecv count_arrival notify_socket socket_recvfrom_impl drain
    read_modem read_segment ipread accept_segment take_buffered conclude set_pending filled
    copied_from advanced reset_if_empty each_line is_ok ◌>>=◌
received_run = refl
