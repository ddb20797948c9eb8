-- ===== src/Stack/Isolation/Uses.antt =====
-- Sending on a TCP socket and closing it leave every other socket alone.
use mathlib.Core.Bool.{false≢true}
use mbed_ce_st87m.Common.{
  ℕ, zero, suc, ◌≡◌, refl, sym, ap, ◌∙◌, Bool, true, false, Option, none, some, List, [], ◌∷◌, ◌==◌,
  ==_iff, Bool-cases, inl, inr, ℤ, ◌==ℤ◌, minus_one,
}
use mbed_ce_st87m.At.{SizeOrError, Trace, AtCall, Action, pure, modify, ◌>>=◌, ◌>>◌}
use mbed_ce_st87m.At.Keeps.{
  Keeps-if, Keeps-bind, Keeps-pure, Keeps-state, Keeps-modify, keeps_rules,
}
use mbed_ce_st87m.Stack.Types.{Proto, Address, Socket, Stack, Env, find, set_socket}
use mbed_ce_st87m.Stack.Slots.{free_rx_buffer, free_rx_buffer_cases}
use mbed_ce_st87m.Stack.Lifecycle.{release_slot, close_on_modem, close_found, socket_close_impl}
use mbed_ce_st87m.Stack.Send.{
  raise_txfull, schedule_txfull, exchange, settle, send_loop, send_with, socket_sendto_impl,
}
use mbed_ce_st87m.Stack.Receive.{socket_recvfrom_impl}
use mbed_ce_st87m.Stack.Isolation.{
  IsApart, IsAlone, Apart, modify_socket-Apart, set_rx_buf-IsApart, set_profile-IsApart,
  set_timer-IsApart, socket_recvfrom_impl-Apart,
}

-- What an application does with an open socket.
pub data Use : Type 0 where
  receive : ℕ → Use
  send : Address → List ℕ → Use
  close : Use

module _ {P : Type 0} (env : Env P) (h : ℕ) (k : ℤ) where
  unfoldable pub use_socket : Use → Action (Stack P) (Unit {0})
  use_socket (Use.receive want) = do _ ← socket_recvfrom_impl env h want; pure tt
  use_socket (Use.send address payload) = do _ ← socket_sendto_impl env h address payload; pure tt
  use_socket Use.close = do _ ← socket_close_impl env k; pure tt

  unfoldable pub use_all : List Use → Action (Stack P) (Unit {0})
  use_all [] = pure tt
  use_all (u ∷ us) = do use_socket u; use_all us

module _ {P : Type 0} (env : Env P) (h : ℕ) (k : ℤ) (before : Stack P) where
  abbrev Here : {A : Type 0} → Action (Stack P) A → Type 0
  Here = Apart h k before

  schedule_txfull-Apart : Here (schedule_txfull env)
  unfolding schedule_txfull
  schedule_txfull-Apart = record { at = λ s t a. set_timer-IsApart h k before _ s a }

  mark-Apart :
      (b : Bool)
      → Here (modify (λ s'. set_socket h (record (s'.sockets h) { txfull_event = b }) s'))
  mark-Apart b = modify_socket-Apart h k before _ (λ s. refl) (λ s. refl)

  raise_txfull-Apart : Here (raise_txfull env h)
  unfolding raise_txfull
  raise_txfull-Apart = search (keeps_rules, mark-Apart, schedule_txfull-Apart) depth 20

  settle-Apart :
      (payload : List ℕ) (again : Action (Stack P) SizeOrError) (done : Bool)
      → Here again
      → Here (settle env h payload again done)
  unfolding settle
  settle-Apart payload again done keep = search (keeps_rules, raise_txfull-Apart) depth 20

  send_loop-Apart :
      (left : ℕ) (header : List AtCall) (payload : List ℕ)
      → Here (send_loop env left h header payload)
  unfolding send_loop exchange
  send_loop-Apart zero header payload =
      Keeps-bind _ _ (search keeps_rules depth 20)
        (λ done. settle-Apart payload _ done (Keeps-pure _))
  send_loop-Apart (suc left) header payload = Keeps-bind _ _ (search keeps_rules depth 20) λ done.
      settle-Apart payload _ done
        (Keeps-bind _ _ (search keeps_rules) (λ _. send_loop-Apart left header payload))

  send_with-Apart :
      (payload : List ℕ) (header : Option (List AtCall)) → Here (send_with env h payload header)
  unfolding send_with
  send_with-Apart payload none = search keeps_rules
  send_with-Apart payload (some header) = send_loop-Apart 3 header payload

  socket_sendto_impl-Apart :
      (address : Address) (payload : List ℕ) → Here (socket_sendto_impl env h address payload)
  unfolding socket_sendto_impl
  socket_sendto_impl-Apart address payload = Keeps-state _ λ s a.
      Keeps-if (s.sockets h).closed _ _ (Keeps-pure _) (
        Keeps-bind _ _ (rw a.own_proto (Keeps-pure tt))
          (λ _. search (keeps_rules, send_with-Apart) depth 20))

  free_rx_buffer-IsApart :
      (s : Stack P) → IsApart h k before s → IsApart h k before (free_rx_buffer env k s)
  free_rx_buffer-IsApart s a = elim (free_rx_buffer_cases env k s) [
    | inl e ↦ rw e a
    | inr (b, had, e) ↦ rw e (set_rx_buf-IsApart h k before none _ s a)
  ]

  release_slot-Apart : Here (release_slot env k)
  unfolding release_slot
  release_slot-Apart =
      Keeps-if _ _ _
        (Keeps-modify _
          (λ s a. free_rx_buffer-IsApart _ (set_profile-IsApart h k before minus_one s a)))
        (Keeps-pure _)

  close_on_modem-Apart : Here (close_on_modem env k)
  unfolding close_on_modem
  close_on_modem-Apart = search (keeps_rules, release_slot-Apart) depth 20

  close_found-Apart :
      (o : Option ℕ) → ((h' : ℕ) → o ≡ some h' → h' ≡ h) → Here (close_found env k o)
  unfolding close_found
  close_found-Apart none own = close_on_modem-Apart
  close_found-Apart (some h') own =
      rw (own h' refl) (search (keeps_rules, mark-Apart, close_on_modem-Apart) depth 20)

-- What mbed's find_socket promises: the socket that it finds has the id that it is asked for.
abbrev pub IsFinder : {P : Type 0} → Env P → Type 0
IsFinder env =
    (slots : List (Option ℕ)) (sockets : ℕ → Socket) (k : ℤ) (h : ℕ)
    → env.find_socket slots sockets k ≡ some h
    → ((sockets h).id ==ℤ k) ≡ true

module _ {P : Type 0} (env : Env P) (finds : IsFinder env) (h : ℕ) (k : ℤ) (before : Stack P)
    (alone : IsAlone h k before) where
  found-own : (s : Stack P) → IsApart h k before s → (h' : ℕ) → find env s k ≡ some h' → h' ≡ h
  found-own s a h' e = elim (Bool-cases (h == h')) [
    | inl same ↦ sym ((==_iff h h').0 same)
    | inr other ↦ absurd (
        false≢true (
          sym (alone h' other)
          ∙ ap (λ x. x.id ==ℤ k) (sym (a.other_sockets h' other))
          ∙ finds _ _ k h' e))
  ]

  use_socket-Apart : (u : Use) → Apart h k before (use_socket env h k u)
  unfolding use_socket socket_close_impl
  use_socket-Apart (Use.receive want) =
      Keeps-bind _ _ (socket_recvfrom_impl-Apart h k before env want) (λ _. Keeps-pure tt)
  use_socket-Apart (Use.send address payload) =
      Keeps-bind _ _ (socket_sendto_impl-Apart env h k before address payload) (λ _. Keeps-pure tt)
  use_socket-Apart Use.close =
      Keeps-bind _ _ (Keeps-state _ (λ s a. close_found-Apart env h k before _ (found-own s a)))
        (λ _. Keeps-pure tt)

  use_all-Apart : (us : List Use) → Apart h k before (use_all env h k us)
  unfolding use_all
  use_all-Apart [] = Keeps-pure _
  use_all-Apart (u ∷ us) = Keeps-bind _ _ (use_socket-Apart u) (λ _. use_all-Apart us)

  -- However an application receives on a TCP socket, sends on it and closes it, and whatever the
  -- modem answers, every other socket stays as it was, and so do the receive buffer and the TLS
  -- profile of every other id. It is for a socket whose id no other socket has, and a find_socket
  -- that finds a socket with the id asked for.
  pub use_all-isolates :
      (us : List Use) (t : Trace) (j : ℕ) (i : ℤ)
      → (before.sockets h).id ≡ k
      → (before.sockets h).proto ≡ Proto.tcp
      → (h == j) ≡ false
      → (k ==ℤ i) ≡ false
      → let after = (use_all env h k us before t).1 in
        (after.sockets j ≡ before.sockets j)
        × (after.rx_buf i ≡ before.rx_buf i)
        × (after.socket_sslctx i ≡ before.socket_sslctx i)
  use_all-isolates us t j i own tcp_socket other_handle other_id =
      let a = (use_all-Apart us).at before t (record {
        own_id = own;
        own_proto = tcp_socket;
        other_sockets = λ j ne. refl;
        other_buffers = λ j ne. refl;
        other_profiles = λ j ne. refl;
      }) in
      (a.other_sockets j other_handle, a.other_buffers i other_id, a.other_profiles i other_id)
