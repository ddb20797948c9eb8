-- ===== src/Stack/Stream/Refinement.antt =====
-- Receiving on a TCP socket refines taking from a queue of bytes.
use mathlib.Core.Path.{subst}
use mbed_ce_st87m.Common.{
  ℕ, ◌-◌, ◌<◌, ◌≡◌, refl, ap, sym, ◌∙◌, inl, inr, true, false, not, ◌||◌, Option, none, some, List,
  [], ◌∷◌, ◌++◌, arith, ltb, below, ◌==◌, length, pos_part, append-nil, take, drop, ℤ, Bool-cases,
}
use mbed_ce_st87m.At.Leads.{
  same, more, Passes, Passes-call, Passes-get_last_error, Leads, Leads-Gives, Leads-if, Leads-from,
  Leads-state, Leads-pass,
}
use mbed_ce_st87m.At.{
  next_line, int_of, calls, call, info_resp, resp_start, cmd_start_stop, NsapiError, would_block,
  size, is_ok, Trace, ◌>>=◌,
}
use mbed_ce_st87m.Stack.Types.{RxBuffer, Stack, Env, update_at_self}
use mbed_ce_st87m.Stack.Slots.{is_empty}
use mbed_ce_st87m.Stack.Receive.{
  refused, copied_from, advanced, take_buffered, ipread, read_modem, drain, socket_recvfrom_impl,
}
use mbed_ce_st87m.At.{pure, parameter, connection_lost}
use mbed_ce_st87m.At.Gives.{Gives, Gives-from}
use mbed_ce_st87m.Stack.Types.{is_udp, max_sockets}
use mbed_ce_st87m.Stack.Valid.{IsBuffer, BufferLaws, IsValid}
use mbed_ce_st87m.Stack.Guarantees.{unread, copied_from-advanced}
use mbed_ce_st87m.Stack.Stream.{
  waiting, queue, IsQueueStep, Post, IsIdle, refused-Gives, read_segment-step, IsFresh,
}
use mbed_ce_st87m.Stack.Stream.Reads.{read_segment-After}
use Prim.Native.Nat.{min}
use mbed_ce_st87m.At.Leads.{After}

module _ {P : Type 0} (env : Env P) (h : ℕ) (k : ℤ) (room : P → ℕ)
    (laws : BufferLaws env room) where
  -- A valid state of a TCP socket.
  abbrev pub IsStream : Stack P → Type 0
  IsStream s = IsValid env room s × (is_udp (s.sockets h).proto ≡ false)

  -- ipread makes calls, and leaves the fields alone.
  ipread-Passes : Passes (ipread env k)
  unfolding ipread ◌>>=◌ next_line int_of calls call
  ipread-Passes = record {
    at = λ s t.
        elim (Bool-cases (
          env.modem.has_line (
            info_resp
            ∷ resp_start "#IPREAD:"
            ∷ cmd_start_stop "#IPREAD" "=" (s.cid ∷ k ∷ [])
            ∷ t))) [
              | inl line ↦
                  rw line
                    (refl, more _ _ (more _ _ (more _ _ (more _ _ (more _ _ (more _ _ same))))))
              | inr none_left ↦ rw none_left (refl, more _ _ (more _ _ (more _ _ same)))
            ];
  }

  module _ (start final : Trace) where
    abbrev Fresh : List ℕ → Type 0
    Fresh = IsFresh env.modem start final

    refused-Leads :
        (want : ℕ) (e : NsapiError)
        → Leads start final (IsIdle env h k Fresh) (Post env h k Fresh [] want) (pure (refused e))
    refused-Leads want e = Leads-Gives start final _ (refused-Gives env h k Fresh want e)

    read_modem-Leads :
        (want : ℕ)
        → Leads start final
            (λ s. IsStream s × IsIdle env h k Fresh s)
            (Post env h k Fresh [] want)
            (read_modem env h k want)
    unfolding read_modem
    read_modem-Leads want = Leads-state start final _ λ s (stream, idle).
        let from : (s' : Stack P) → s' ≡ s → IsIdle env h k Fresh s' =
          λ s' e. ap (queue k) e ∙ idle in
        Leads-if start final ((s.sockets h).pending_bytes == 0) _ _
          (Leads-from start final _ from (refused-Leads want would_block))
          (Leads-pass start final _ _ ipread-Passes λ data_len.
            Leads-pass start final _ _ (Passes-get_last_error env.modem) λ e.
              Leads-if start final (not (is_ok e) || not (ltb 0 (pos_part data_len))) _ _
                (Leads-pass start final _ _ (Passes-call _)
                  λ _. Leads-from start final _ from (refused-Leads want would_block))
                (rw (stream.1) (record {
                  at = λ s' t later ends same_state.
                      read_segment-step env h k Fresh room laws (pos_part data_len) want
                        (s.rx_buf k) s' t (λ b e'. stream.0.buffers k b e')
                        (λ b got slot answer. inr (
                          min (pos_part data_len) env.rx_size,
                          t,
                          later,
                          subst (After _) ends (
                              rw slot (read_segment-After env h k (pos_part data_len) want b s' t)),
                          answer,
                        ))
                        (from s' same_state);
                })))

  unread-empty : (b : RxBuffer) → is_empty b ≡ true → unread b ≡ []
  unread-empty b empty =
      nothing_left (b.tail - b.head) (drop b.head b.bytes) (ground (arith, empty))
    where
      nothing_left : (n : ℕ) (xs : List ℕ) → n ≡ 0 → take n xs ≡ []
      nothing_left n xs e = rw e refl

  take-Gives :
      (start final : Trace) (n want : ℕ) (b : RxBuffer)
      → IsBuffer n b
      → 0 < want
      → is_empty b ≡ false
      → Gives
          (λ s. Unit {0})
          (Post env h k (IsFresh env.modem start final) (unread b) want)
          (do
            copied ← take_buffered env k b want
            pure (record { result = size (length copied); copied = copied; source = none }))
  unfolding take_buffered ◌>>=◌
  take-Gives start final n want b w some_wanted full =
      let split = copied_from-advanced b want n w in
      let left : 0 < b.tail - b.head = ground (arith, full) in
      record {
        at = λ s t i. inl (record {
          arrived = [];
          fresh = inl refl;
          in_order =
              append-nil (unread b)
              ∙ sym split.0
              ∙ ap (λ (u : List ℕ). copied_from b want ++ u)
                  (sym (ap waiting (update_at_self s.rx_buf k (some (advanced b want)))));
          told = refl;
          any = omega (arith, split.1, left, some_wanted);
          at_most = omega (arith, split.1);
        });
      }

  drain-Leads :
      (start final : Trace) (want : ℕ) (slot : Option RxBuffer)
      → 0 < want
      → Leads start final
          (λ s. IsStream s × (s.rx_buf k ≡ slot))
          (Post env h k (IsFresh env.modem start final) (waiting slot) want)
          (drain env h k want slot)
  unfolding drain
  drain-Leads start final want none some_wanted =
      Leads-from start final _ (λ s (stream, e). (stream, ap waiting e))
        (read_modem-Leads start final want)
  drain-Leads start final want (some b) some_wanted = Leads-state start final _ λ s (stream, e).
      elim (Bool-cases (is_empty b)) [
        | inl empty ↦ rw empty (
            subst
              (λ (q : List ℕ).
                Leads start final (λ s'. s' ≡ s)
                  (Post env h k (IsFresh env.modem start final) q want) (read_modem env h k want))
              (sym (unread-empty b empty))
              (Leads-from start final _
                (λ s' e'.
                  subst (λ s''. IsStream s'' × IsIdle env h k (IsFresh env.modem start final) s'')
                    (sym e') (stream, ap waiting e ∙ unread-empty b empty))
                (read_modem-Leads start final want)))
        | inr full ↦
            rw (full, stream.1)
              (Leads-Gives start final _ (
                Gives-from (λ s'. Unit {0}) _ (λ s' e'. tt)
                  (take-Gives start final env.rx_size want b (stream.0.buffers k b e) some_wanted
                    full)))
      ]

module _ {P : Type 0} (env : Env P) (h : ℕ) (room : P → ℕ) (laws : BufferLaws env room) where
  -- Receiving on a TCP socket refines a queue of bytes. In a valid state, when at least one byte is
  -- asked for: a receive that succeeds hands out the front of what was waiting, followed, if
  -- anything arrives, by the modem's answer to a read that the receive makes, the whole of it and
  -- in order; it hands out at least one byte and no more than were asked for, reports their number,
  -- and leaves the rest waiting; a receive that fails hands out nothing and leaves what was waiting.
  -- It is for a pool and a read_bytes that keep their laws.
  pub socket_recvfrom_impl-refines :
      (want : ℕ) (s : Stack P) (t : Trace)
      → IsValid env room s
      → is_udp (s.sockets h).proto ≡ false
      → 0 < want
      → IsQueueStep env.modem t
          (queue (s.sockets h).id s)
          want
          (s.sockets h).id
          (socket_recvfrom_impl env h want s t)
  unfolding socket_recvfrom_impl ◌>>=◌
  socket_recvfrom_impl-refines want s t valid tcp some_wanted =
      elim (Bool-cases (below (s.sockets h).id max_sockets)) [
        | inr outside ↦
            rw outside (inr (record { nothing = refl; error = (parameter, refl); same = refl }))
        | inl inside ↦ elim (Bool-cases (s.sockets h).closed) [
          | inl closed ↦
              rw (inside, closed)
                (inr (record { nothing = refl; error = (connection_lost, refl); same = refl }))
          | inr alive ↦
              rw (inside, alive)
                ((drain-Leads env h (s.sockets h).id room laws t
                    (drain env h (s.sockets h).id want (s.rx_buf (s.sockets h).id) s t).2 want
                    (s.rx_buf (s.sockets h).id) some_wanted).at
                  s t same refl ((valid, tcp), refl))
        ]
      ]
