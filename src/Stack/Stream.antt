-- ===== src/Stack/Stream.antt =====
-- A TCP socket's receive buffer as what it promises: a queue of bytes.
pub mod Reads
pub mod Refinement
use Prim.Native.Nat.{min}
use mathlib.Core.Path.{subst}
use mbed_ce_st87m.Common.{
  ℕ, zero, suc, ◌+◌, ◌-◌, ◌≤◌, ◌<◌, ◌≡◌, refl, ap, sym, ◌∙◌, ◌⊎◌, inl, inr, Bool, true, false, not,
  ◌&&◌, ◌||◌, Option, none, some, List, [], ◌∷◌, ◌++◌, arith, ltb, ◌==◌, if◌then◌else◌, length,
  pos_part, append-nil, take, drop, ℤ, Bool-cases, Option-cases,
}
use mbed_ce_st87m.At.{
  NsapiError, would_block, SizeOrError, size, failed, is_ok, AtCall, Trace, Action, resp_stop,
  mutex_lock, ◌>>=◌, ◌>>◌,
}
use mbed_ce_st87m.Stack.Types.{Address, RxBuffer, Stack, Env, update_at, update_at_self}
use mbed_ce_st87m.Stack.Slots.{reset, is_empty}
use mbed_ce_st87m.Stack.Receive.{
  Received, refused, copied_from, advanced, filled, set_pending, take_buffered, accept_segment,
  drop_segment, give_up, conclude, read_segment, ipread, read_modem, drain, socket_recvfrom_impl,
}
use mbed_ce_st87m.At.{
  Modem, pure, modify, call, gets, bytes_of, read_bytes, get_last_error, parameter, connection_lost,
  no_memory,
}
use mbed_ce_st87m.At.Leads.{After}
use mbed_ce_st87m.At.Keeps.{
  Keeps, Keeps-modify, Keeps-call, Keeps-calls, Keeps-get_last_error, Keeps-if, Keeps-pure,
  keeps_rules,
}
use mbed_ce_st87m.At.Gives.{
  Gives, Gives-pure, Gives-if, Gives-from, Gives-state, Gives-keep, Gives-then,
}
use mbed_ce_st87m.Stack.Types.{get_state, is_udp}
use mbed_ce_st87m.Stack.Valid.{IsBuffer, BufferLaws, IsValid}
use mbed_ce_st87m.Stack.Valid.Traffic.{filled-IsBuffer}
use mbed_ce_st87m.Stack.Guarantees.{unread, take-length-append, copied_from-advanced}

-- What waits for the caller.
abbrev pub waiting : Option RxBuffer → List ℕ
waiting none = []
waiting (some b) = unread b

-- Nothing, or the bytes with which the modem answers a read that is made between `start` and
-- `final`.
abbrev pub IsFresh : Modem → Trace → Trace → List ℕ → Type 0
IsFresh modem start final xs =
    (xs ≡ [])
    ⊎ ((n : ℕ) × (t : Trace) × After start t
        × After (read_bytes n ∷ t) final
        × (modem.bytes_param n (read_bytes n ∷ t) ≡ some xs))

-- A receive that succeeds hands out the front of the queue, behind which new bytes may have arrived: at least
-- one byte, and no more than were asked for.
pub record IsDelivered (F : List ℕ → Type 0) (before : List ℕ) (want : ℕ) (r : Received)
    (after : List ℕ) : Type 0 where
  pub arrived : List ℕ
  pub fresh : F arrived
  pub in_order : before ++ arrived ≡ r.copied ++ after
  pub told : r.result ≡ size (length r.copied)
  pub any : 0 < length r.copied
  pub at_most : length r.copied ≤ want

-- A receive that fails hands out nothing and leaves the queue as it was.
pub record IsRefused (before : List ℕ) (r : Received) (after : List ℕ) : Type 0 where
  pub nothing : r.copied ≡ []
  pub error : (e : NsapiError) × (r.result ≡ failed e)
  pub same : after ≡ before

module _ {P : Type 0} where
  abbrev pub queue : ℤ → Stack P → List ℕ
  queue k s = waiting (s.rx_buf k)

  abbrev pub IsQueueStep : Modem → Trace → List ℕ → ℕ → ℤ → Received × Stack P × Trace → Type 0
  IsQueueStep modem t before want k r =
      IsDelivered (IsFresh modem t r.2) before want r.0 (queue k r.1)
      ⊎ IsRefused before r.0 (queue k r.1)

-- `F` is what is known of the bytes that arrive.
module _ {P : Type 0} (env : Env P) (h : ℕ) (k : ℤ) (F : List ℕ → Type 0) where
  unread-reset : (b : RxBuffer) → unread (reset b) ≡ []
  unread-reset b = refl

  unread-filled : (b : RxBuffer) (got : List ℕ) → unread (filled b got) ≡ got
  unfolding filled
  unread-filled b got =
      ap (λ n. take n (got ++ drop (length got) b.bytes)) (omega arith)
      ∙ take-length-append got (drop (length got) b.bytes)

  -- A failed read empties the slot.
  give_up-clears :
      (s : Stack P) (t : Trace) (o : Option RxBuffer)
      → s.rx_buf k ≡ o
      → IsRefused [] (give_up env h k false s t).0 (queue k (give_up env h k false s t).1)
  unfolding give_up drop_segment ◌>>=◌ set_pending
  give_up-clears s t none e = record {
    nothing = refl;
    error = (would_block, refl);
    same = rw e (ap waiting e);
  }
  give_up-clears s t (some b) e = record {
    nothing = refl;
    error = (would_block, refl);
    same = rw e (ap waiting (update_at_self s.rx_buf k (some (reset b))));
  }

  abbrev pub Post : List ℕ → ℕ → Received → Stack P → Type 0
  Post before want r s = IsDelivered F before want r (queue k s) ⊎ IsRefused before r (queue k s)

  -- What a segment leaves: nothing, or a buffer of which the front is copied.
  abbrev pub Taken : ℕ → List ℕ → Stack P → Type 0
  Taken want copied s =
      (copied ≡ [])
      ⊎ ((b : RxBuffer) × (n : ℕ) × IsBuffer n b
          × F (unread b)
          × (copied ≡ copied_from b want)
          × (s.rx_buf k ≡ some (advanced b want)))

  delivered :
      (want : ℕ) (copied : List ℕ) (s : Stack P)
      → (length copied == 0) ≡ false
      → Taken want copied s
      → IsDelivered F [] want
          (record { result = size (length copied); copied = copied; source = none })
          (queue k s)
  delivered want copied s some_bytes (inl e) =
      absurd (ground (arith, ap (λ c. length c) e, some_bytes))
  delivered want copied s some_bytes (inr (b, n, w, new, e, kept)) = record {
    arrived = unread b;
    fresh = new;
    in_order = sym (copied_from-advanced b want n w).0 ∙ rw (e, kept) refl;
    told = refl;
    any = ground (arith, some_bytes);
    at_most = omega (arith, ap (λ c. length c) e, (copied_from-advanced b want n w).1);
  }

  conclude-Gives :
      (want : ℕ) (copied : List ℕ)
      → Gives (Taken want copied) (Post [] want) (conclude env h k false copied none)
  unfolding conclude set_pending
  conclude-Gives want copied = Gives-keep _ _ (Keeps-call _) λ _.
      Gives-keep _ _ (Keeps-get_last_error env.modem) λ e.
        Gives-if (not (is_ok e) || (length copied == 0)) _ _
          (λ failed'. record { at = λ s t i. inr (give_up-clears s t (s.rx_buf k) refl) })
          (λ fine. Gives-keep _ _ (Keeps-call _) λ _.
            Gives-keep _ _ (Keeps-modify _ (λ s' i. i)) λ _.
              Gives-keep _ _ (Keeps-call _)
                λ _. Gives-pure _ λ s i. inl (delivered want copied s (ground (arith, fine)) i))

  take_buffered-Gives :
      (n want : ℕ) (b : RxBuffer)
      → IsBuffer n b
      → F (unread b)
      → Gives (λ s. Unit {0}) (Taken want) (take_buffered env k b want)
  unfolding take_buffered ◌>>=◌
  take_buffered-Gives n want b w new = record {
    at = λ s t i. inr (b, n, w, new, refl, update_at_self s.rx_buf k (some (advanced b want)));
  }

  accept_segment-Gives :
      (data_len want : ℕ) (b : RxBuffer) (read : Option (List ℕ))
      → IsBuffer env.rx_size b
      → ((got : List ℕ) → read ≡ some got → (length got ≤ env.rx_size) × F got)
      → Gives (λ s. Unit {0}) (Taken want) (accept_segment env k b data_len want read)
  unfolding accept_segment
  accept_segment-Gives data_len want b none w fit =
      Gives-keep _ _ (Keeps-modify _ (λ s i. tt)) (λ _. Gives-pure [] (λ s i. inl refl))
  accept_segment-Gives data_len want b (some got) w fit =
      Gives-keep _ _ (Keeps-modify _ (λ s i. tt)) λ _.
        Gives-keep _ _ (Keeps-get_last_error env.modem) λ e.
          Gives-if (not (ltb 0 (length got) && is_ok e)) _ _
            (λ empty. Gives-pure [] (λ s i. inl refl))
            (λ fine. Gives-keep _ _ (Keeps-modify _ (λ s i. tt)) λ _.
              Gives-keep _ _
                (Keeps-if (ltb env.rx_size data_len) _ _ (Keeps-call _) (Keeps-pure tt))
                λ _. Gives-keep _ _ (Keeps-call _) λ _.
                  Gives-keep _ _ (Keeps-get_last_error env.modem) λ e'.
                    Gives-if (is_ok e') _ _
                      (λ ok'.
                        take_buffered-Gives env.rx_size want (filled b got)
                          (filled-IsBuffer env.rx_size b got (fit got refl).0 w)
                          (subst F (sym (unread-filled b got)) (fit got refl).1))
                      (λ failed'. Gives-pure [] (λ s i. inl refl)))

  -- The queue is empty.
  abbrev pub IsIdle : Stack P → Type 0
  IsIdle s = queue k s ≡ []

  pub refused-Gives : (want : ℕ) (e : NsapiError) → Gives IsIdle (Post [] want) (pure (refused e))
  refused-Gives want e =
      Gives-pure (refused e)
        λ s idle. inr (record { nothing = refl; error = (e, refl); same = idle })

  module _ (room : P → ℕ) (laws : BufferLaws env room) where
    -- From a point of the trace at which what is read next is known.
    pub read_segment-step :
        (data_len want : ℕ) (slot : Option RxBuffer) (s : Stack P) (t : Trace)
        → ((b : RxBuffer) → slot ≡ some b → IsBuffer env.rx_size b)
        → ((b : RxBuffer) (got : List ℕ)
            → slot ≡ some b
            → let n = min data_len env.rx_size in
              env.modem.bytes_param n (read_bytes n ∷ t) ≡ some got → F got)
        → IsIdle s
        → let r = read_segment env h k data_len want slot s t in Post [] want r.0 r.1
    unfolding read_segment set_pending ◌>>=◌
    read_segment-step data_len want none s t w new idle =
        inr (record { nothing = refl; error = (no_memory, refl); same = idle })
    read_segment-step data_len want (some b) s t w new idle =
        let n : ℕ = min data_len env.rx_size in
        (Gives-then (Taken want) _ _
            (accept_segment-Gives data_len want b (env.modem.bytes_param n (read_bytes n ∷ t))
              (w b refl)
              (λ got e.
                (omega (arith, laws.read_at_most n (read_bytes n ∷ t) got e), new b got refl e)))
            (conclude-Gives want)).at
          s (read_bytes n ∷ t) tt
