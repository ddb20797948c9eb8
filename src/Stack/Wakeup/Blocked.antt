-- ===== src/Stack/Wakeup/Blocked.antt =====
-- A send on a TCP socket that the modem has no room for, and the call that ends the wait.
use mathlib.Core.Path.{subst}
use mathlib.Core.Bool.{false≢true}
use mbed_ce_st87m.Common.{
  ℕ, zero, suc, ◌<◌, ◌≡◌, refl, sym, ap, ◌∙◌, Bool, true, false, not, List, ◌∷◌, ◌==◌,
  if◌then◌else◌, Bool-cases, inl, inr, ==_iff, Option, none, some,
}
use mbed_ce_st87m.At.{
  NsapiError, SizeOrError, size, failed, AtCall, mutex_lock, call_in, Trace, Action, pure, ◌>>=◌,
  get_last_error,
}
use mbed_ce_st87m.At.Keeps.{Keeps, Keeps-pure, keeps_rules}
use mbed_ce_st87m.At.Gives.{
  Gives, Gives-pure, Gives-if, Gives-state, Gives-keep, Gives-then, Gives-from,
}
use mbed_ce_st87m.Stack.Types.{Proto, Address, is_udp, Stack, Env}
use mbed_ce_st87m.Stack.Send.{
  raise_txfull, schedule_txfull, exchange, settle, send_loop, send_with, is_congestion,
  capture_peer, socket_sendto_impl,
}
use mbed_ce_st87m.Stack.Events.{txfull_event_timeout}
use mbed_ce_st87m.Stack.Wakeup.{has_slot, notified, txfull_event_timeout-wakes}

abbrev pub is_would_block : NsapiError → Bool
is_would_block NsapiError.would_block = true
is_would_block _ = false

abbrev pub is_blocked : SizeOrError → Bool
is_blocked (size n) = false
is_blocked (failed e) = is_would_block e

module _ {P : Type 0} (h : ℕ) where
  -- A TCP socket of the table with a callback, while nothing waits for room.
  pub record IsFree (s : Stack P) : Type 0 where
    pub stream : (s.sockets h).proto ≡ Proto.tcp
    pub listed : has_slot s.socket_slots h ≡ true
    pub callback : (s.sockets h).has_cb ≡ true
    pub unmarked : (s.sockets h).txfull_event ≡ false
    pub no_timer : s.txfull_event_id ≡ 0

  -- The socket waits, and a timer runs.
  pub record IsBlocked (s : Stack P) : Type 0 where
    pub still_listed : has_slot s.socket_slots h ≡ true
    pub still_callback : (s.sockets h).has_cb ≡ true
    pub marked : (s.sockets h).txfull_event ≡ true
    pub armed : (s.txfull_event_id == 0) ≡ false

  abbrev Outcome : SizeOrError → Stack P → Type 0
  Outcome r s = is_blocked r ≡ true → IsBlocked s

-- What mbed's handler never reports as its last error.
abbrev pub IsHonest : {P : Type 0} → Env P → Type 0
IsHonest env = (t : Trace) → is_would_block (env.modem.last_error t) ≡ false

module _ {P : Type 0} (env : Env P) (h : ℕ) where
  raise_txfull-arms : Gives (IsFree h) (Outcome h) (raise_txfull env h)
  unfolding raise_txfull schedule_txfull ◌>>=◌
  raise_txfull-arms = record {
    at = λ s t f.
        let self = (==_iff h h).1 refl in
        elim (Bool-cases (env.event_id (call_in 1000 ∷ mutex_lock ∷ t) == 0)) [
          | inl none_left ↦ rw (f.unmarked, f.no_timer) (rw none_left (λ e. absurd (false≢true e)))
          | inr scheduled ↦
              rw (f.unmarked, f.no_timer)
                (rw scheduled (λ e. record {
                  still_listed = f.listed;
                  still_callback = rw self f.callback;
                  marked = rw self refl;
                  armed = scheduled;
                }))
        ];
  }

module _ {P : Type 0} (env : Env P) (honest : IsHonest env) (h : ℕ) where
  last_error-honest :
      Gives
        (IsFree {P = P} h)
        (λ e s. (is_would_block e ≡ false) × IsFree {P = P} h s)
        (get_last_error env.modem)
  unfolding get_last_error
  last_error-honest = record { at = λ s t f. (honest t, f) }

  settle-arms :
      (payload : List ℕ) (again : Action (Stack P) SizeOrError) (done : Bool)
      → Gives (IsFree h) (Outcome h) (settle env h payload again done)
  unfolding settle
  settle-arms payload again done =
      Gives-if done _ _ (λ _. Gives-pure _ (λ s f e. absurd (false≢true e)))
        λ _. Gives-keep _ _ (search keeps_rules) λ dev_err. Gives-then _ _ _ last_error-honest λ e.
          Gives-state _ λ s (plain, f).
            Gives-from (IsFree h) _ (λ s' q. subst (IsFree h) (sym q) f)
              (Gives-if (not (is_congestion dev_err)) _ _
                (λ _. Gives-pure _ (λ s' f' b. absurd (false≢true (sym plain ∙ b))))
                (λ _.
                  Gives-if (is_udp (s.sockets h).proto) _ _
                    (λ udp. absurd (false≢true (sym (ap is_udp f.stream) ∙ udp)))
                    (λ _. raise_txfull-arms env h)))

  send_loop-arms :
      (left : ℕ) (header : List AtCall) (payload : List ℕ)
      → Gives (IsFree h) (Outcome h) (send_loop env left h header payload)
  unfolding send_loop exchange
  send_loop-arms zero header payload =
      Gives-keep _ _ (search keeps_rules depth 20) (λ done. settle-arms payload _ done)
  send_loop-arms (suc left) header payload =
      Gives-keep _ _ (search keeps_rules depth 20) (λ done. settle-arms payload _ done)

  send_with-arms :
      (payload : List ℕ) (header : Option (List AtCall))
      → Gives (IsFree h) (Outcome h) (send_with env h payload header)
  unfolding send_with
  send_with-arms payload none =
      Gives-keep _ _ (search keeps_rules) (λ _. Gives-pure _ (λ s f e. absurd (false≢true e)))
  send_with-arms payload (some header) = send_loop-arms 3 header payload

  socket_sendto_impl-arms :
      (address : Address) (payload : List ℕ)
      → Gives (IsFree h) (Outcome h) (socket_sendto_impl env h address payload)
  unfolding socket_sendto_impl
  socket_sendto_impl-arms address payload = Gives-state _ λ s f.
      Gives-from (IsFree h) _ (λ s' q. subst (IsFree h) (sym q) f)
        (Gives-if (s.sockets h).closed _ _ (λ _. Gives-pure _ (λ s' f' e. absurd (false≢true e)))
          λ _.
            Gives-keep _ _ (stays (is_udp (s.sockets h).proto) address (ap is_udp f.stream))
              λ _. Gives-keep _ _ (search keeps_rules) λ s'. send_with-arms _ _)
    where
      -- A stream does not take its peer from a send.
      stays :
          (udp : Bool) (address' : Address)
          → udp ≡ false
          → Keeps (IsFree {P = P} h) (if udp then capture_peer env h address' else pure tt)
      stays udp address' e = rw e (Keeps-pure tt)

  -- A TCP socket that the modem has no room for is called again. When nothing else waits for room,
  -- and a send on a socket of the table with a callback ends with would-block, then the
  -- timer runs, and when it fires, at whatever time, the socket's callback is called, its mark is
  -- cleared, and the timer is free for the next wait. It is for a handler whose last error is never
  -- would-block, which mbed's is not.
  pub socket_sendto_impl-wakes :
      (address : Address) (payload : List ℕ) (s : Stack P) (t later : Trace)
      → IsFree h s
      → is_blocked (socket_sendto_impl env h address payload s t).0 ≡ true
      → let s' = (socket_sendto_impl env h address payload s t).1 in
        ((s'.txfull_event_id == 0) ≡ false)
        × (notified h later < notified h (txfull_event_timeout env s' later).2)
        × (((txfull_event_timeout env s' later).1.sockets h).txfull_event ≡ false)
        × ((txfull_event_timeout env s' later).1.txfull_event_id ≡ 0)
  socket_sendto_impl-wakes address payload s t later free blocked =
      let b = (socket_sendto_impl-arms address payload).at s t free blocked in
      let (called, cleared, idle) =
        txfull_event_timeout-wakes env h (socket_sendto_impl env h address payload s t).1 later
          b.still_listed b.still_callback b.marked in
      (b.armed, called, cleared, idle)
