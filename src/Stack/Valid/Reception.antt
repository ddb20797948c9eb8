-- ===== src/Stack/Valid/Reception.antt =====
-- Receiving keeps the invariant of the receive buffers, whatever was read.
use mathlib.Core.Path.{subst}
use mbed_ce_st87m.Common.{
  ℕ, ◌≡◌, refl, ap, sym, ◌∙◌, Bool, true, false, Option, none, some, List, arith, ℤ, below,
  if◌then◌else◌, not, pos_part,
}
use mbed_ce_st87m.At.{
  Action, ◌>>=◌, Trace, modify, gets, parameter, connection_lost, get_last_error,
}
use mbed_ce_st87m.At.Keeps.{Keeps-bind, Keeps-pure, Keeps-call, keeps_rules}
use mbed_ce_st87m.Stack.Types.{RxBuffer, Stack, Env, Address, max_sockets, get_state}
use mbed_ce_st87m.Stack.Slots.{reset, is_empty}
use mbed_ce_st87m.Stack.Valid.{IsBuffer, BufferLaws, IsValid, reset-IsBuffer}
use mbed_ce_st87m.Stack.Valid.Operations.{Safe}
use mbed_ce_st87m.Stack.Receive.{
  refused, set_rx_buf, set_pending, ipread, accept_datagram, drop_segment, give_up, conclude,
  read_segment, read_datagram, read_modem, drain, socket_recvfrom_impl,
}
use mbed_ce_st87m.Stack.Valid.Segment.{
  SafeOpen, set_rx_buf-SafeOpen, take_buffered-SafeOpen, read_segment-SafeOpen,
}

module _ {P : Type 0} (env : Env P) (room : P → ℕ) (laws : BufferLaws env room) where
  -- A datagram socket's give_up leaves the buffers alone.
  drop_datagram-Safe :
      (k : ℤ) (b : Option RxBuffer) → Safe env room laws (drop_segment env k true b)
  unfolding drop_segment
  drop_datagram-Safe k none = search keeps_rules
  drop_datagram-Safe k (some b) = search keeps_rules

  give_up_datagram-Safe : (h : ℕ) (k : ℤ) → Safe env room laws (give_up env h k true)
  unfolding give_up set_pending
  give_up_datagram-Safe h k = search (keeps_rules, drop_datagram-Safe) depth 20

  conclude_datagram-Safe :
      (h : ℕ) (k : ℤ) (copied : List ℕ) (source : Option Address)
      → Safe env room laws (conclude env h k true copied source)
  unfolding conclude set_pending
  conclude_datagram-Safe h k copied source = search (keeps_rules, give_up_datagram-Safe) depth 20

  accept_datagram-Safe :
      (h data_len : ℕ) (read : Option (List ℕ))
      → Safe env room laws (accept_datagram env h data_len read)
  unfolding accept_datagram
  accept_datagram-Safe h data_len none = search keeps_rules
  accept_datagram-Safe h data_len (some got) = search keeps_rules depth 20

  read_datagram-Safe :
      (h : ℕ) (k : ℤ) (data_len want : ℕ) → Safe env room laws (read_datagram env h k data_len want)
  unfolding read_datagram
  read_datagram-Safe h k data_len want = Keeps-bind _ _ (search keeps_rules) λ read.
      Keeps-bind _ _ (accept_datagram-Safe h data_len read)
        λ (copied, source). conclude_datagram-Safe h k copied source

  -- `m` ends in a valid state if it starts in one where slot `k` holds `o`.
  pub record Ends (k : ℤ) (o : Option RxBuffer) {A : Type 0} (m : Action (Stack P) A) : Type 0 where
    pub from :
        (s : Stack P) (t : Trace) → IsValid env room s → s.rx_buf k ≡ o → IsValid env room (m s t).1

  module _ (k : ℤ) (o : Option RxBuffer) {A : Type 0} where
    pub Ends-Safe : (m : Action (Stack P) A) → Safe env room laws m → Ends k o m
    Ends-Safe m keep = record { from = λ s t v e. keep.at s t v }

    Ends-if :
        (b : Bool) (m n : Action (Stack P) A)
        → Ends k o m
        → Ends k o n
        → Ends k o (if b then m else n)
    Ends-if true m n em en = em
    Ends-if false m n em en = en

  Ends-bind :
      (k : ℤ) (o : Option RxBuffer) {A B : Type 0} (m : Action (Stack P) A)
      (f : A → Action (Stack P) B)
      → ((s : Stack P) (t : Trace) → (m s t).1 ≡ s)
      → ((a : A) → Ends k o (f a))
      → Ends k o (m >>= f)
  unfolding ◌>>=◌
  Ends-bind k o m f same ends = record {
    from = λ s t v e.
        let (a, s', t') = m s t in
        (ends a).from s' t' (subst (IsValid env room) (sym (same s t)) v)
          (ap (λ (q : Stack P). q.rx_buf k) (same s t) ∙ e);
  }

  read_segment-Ends :
      (h : ℕ) (k : ℤ) (data_len want : ℕ) (o : Option RxBuffer)
      → Ends k o (read_segment env h k data_len want o)
  unfolding read_segment set_pending
  read_segment-Ends h k data_len want none = Ends-Safe k none _ (search keeps_rules depth 20)
  read_segment-Ends h k data_len want (some b) = record {
    from = λ s t v e.
        ((read_segment-SafeOpen env room laws k h data_len want b (v.buffers k b e)).at s t
          (v, (b, e))).0;
  }

  ipread-same : (k : ℤ) (s : Stack P) (t : Trace) → (ipread env k s t).1 ≡ s
  unfolding ipread ◌>>=◌
  ipread-same k s t = ground arith

  pub Safe-Ends :
      (k : ℤ) {A : Type 0} (f : Stack P → Action (Stack P) A)
      → ((s : Stack P) → Ends k (s.rx_buf k) (f s))
      → Safe env room laws (get_state >>= f)
  unfolding ◌>>=◌
  Safe-Ends k f ends = record { at = λ s t v. (ends s).from s t v refl }

  read_modem-Safe : (h : ℕ) (k : ℤ) (want : ℕ) → Safe env room laws (read_modem env h k want)
  unfolding read_modem
  read_modem-Safe h k want = Safe-Ends k _ λ s.
      let o = s.rx_buf k in
      Ends-if k o _ _ _ (Ends-Safe k o _ (Keeps-pure _)) (
        Ends-bind k o _ _ (ipread-same k) λ data_len. Ends-bind k o _ _ (error-same) λ e.
          Ends-if k o _ _ _ (Ends-Safe k o _ (Keeps-bind _ _ (Keeps-call _) (λ _. Keeps-pure _))) (
            Ends-if k o _ _ _ (Ends-Safe k o _ (read_datagram-Safe h k (pos_part data_len) want))
              (read_segment-Ends h k (pos_part data_len) want o)))
    where
      error-same : (s : Stack P) (t : Trace) → (get_last_error {S = Stack P} env.modem s t).1 ≡ s
      error-same s t = unfold get_last_error in refl

  module _ (k : ℤ) (b : RxBuffer) (w : IsBuffer env.rx_size b) where
    -- The slot's buffer is reset, and the action goes on from there.
    reset-Ends :
        {A : Type 0} (m : Action (Stack P) A)
        → Safe env room laws m
        → Ends k (some b) (modify (set_rx_buf env k (some (reset b))) >>= λ _. m)
    unfolding ◌>>=◌
    reset-Ends m keep = record {
      from = λ s t v e.
          let w' = reset-IsBuffer env room b w.whole in
          keep.at _ t (set_rx_buf-SafeOpen env room laws k (reset b) w' s (v, (b, e))).0;
    }

    Ends-SafeOpen :
        {A : Type 0} (m : Action (Stack P) A) → SafeOpen env room laws k m → Ends k (some b) m
    Ends-SafeOpen m keep = record { from = λ s t v e. (keep.at s t (v, (b, e))).0 }

    drain_open-Ends : (h want : ℕ) → Ends k (some b) (drain env h k want (some b))
    unfolding drain
    drain_open-Ends h want =
        Ends-bind k (some b) _ _ (λ s t. unfold gets in refl)
          λ s.
            Ends-if k (some b) (is_empty b) _ _ (Ends-Safe k (some b) _ (read_modem-Safe h k want))
              (Ends-if k (some b) _ _ _ (reset-Ends _ (read_modem-Safe h k want)) (
                Ends-SafeOpen _ (
                  Keeps-bind _ _ (take_buffered-SafeOpen env room laws k b want w)
                    (λ copied. Keeps-pure _))))

  drain-Ends : (h : ℕ) (k : ℤ) (want : ℕ) (o : Option RxBuffer) → Ends k o (drain env h k want o)
  unfolding drain
  drain-Ends h k want none = Ends-Safe k none _ (read_modem-Safe h k want)
  drain-Ends h k want (some b) = record {
    from = λ s t v e. (drain_open-Ends k b (v.buffers k b e) h want).from s t v e;
  }

  -- socket_recvfrom_impl keeps the invariant.
  pub socket_recvfrom_impl-Safe :
      (h want : ℕ) → Safe env room laws (socket_recvfrom_impl env h want)
  unfolding socket_recvfrom_impl ◌>>=◌
  socket_recvfrom_impl-Safe h want = record {
    at = λ s t v.
        let k = (s.sockets h).id in
        (Ends-if k (s.rx_buf k) (not (below k max_sockets)) _ _
            (Ends-Safe k _ _ (Keeps-pure (refused parameter)))
            (Ends-if k (s.rx_buf k) (s.sockets h).closed _ _
              (Ends-Safe k _ _ (Keeps-pure (refused connection_lost)))
              (drain-Ends h k want (s.rx_buf k)))).from
          s t v refl;
  }
