-- ===== src/Stack/Valid/Segment.antt =====
-- Reading a segment into the buffer of its slot keeps the invariant of the receive buffers.
use Prim.Native.Nat.{min}
use mbed_ce_st87m.Common.{
  ℕ, ◌≤◌, ◌≡◌, refl, Bool, false, Option, none, some, List, ◌∷◌, arith, ℤ, length,
}
use mbed_ce_st87m.At.{Action, ◌>>=◌, bytes_of, read_bytes}
use mbed_ce_st87m.At.Keeps.{
  Keeps, Keeps-if, Keeps-bind, Keeps-modify, Keeps-pure, Keeps-state, Keeps-call,
  Keeps-get_last_error, keeps_rules,
}
use mbed_ce_st87m.Stack.Types.{RxBuffer, Stack, Env, Address, update_at_self}
use mbed_ce_st87m.Stack.Slots.{reset}
use mbed_ce_st87m.Stack.Valid.{IsBuffer, BufferLaws, IsValid, IsRxValid-replace, reset-IsBuffer}
use mbed_ce_st87m.Stack.Valid.Traffic.{advanced-IsBuffer, filled-IsBuffer}
use mbed_ce_st87m.Stack.Receive.{
  filled, set_rx_buf, set_pending, take_buffered, accept_segment, drop_segment, give_up, conclude,
  read_segment,
}

module _ {P : Type 0} (env : Env P) (room : P → ℕ) (laws : BufferLaws env room) where
  -- The invariant while slot `k` has a buffer.
  abbrev pub IsOpen : ℤ → Stack P → Type 0
  IsOpen k s = IsValid env room s × ((b : RxBuffer) × (s.rx_buf k ≡ some b))

  abbrev pub SafeOpen : ℤ → {A : Type 0} → Action (Stack P) A → Type 0
  SafeOpen k = Keeps (IsOpen k)

  pub set_rx_buf-SafeOpen :
      (k : ℤ) (b : RxBuffer)
      → IsBuffer env.rx_size b
      → (s : Stack P) → IsOpen k s
      → IsOpen k (set_rx_buf env k (some b) s)
  set_rx_buf-SafeOpen k b w s (v, (c, e)) = (
    IsRxValid-replace env room s.rx_buf s.rx_pool k c b e w v,
    (b, update_at_self s.rx_buf k (some b)),
  )

  -- The bytes that were read fit where they are put.
  bytes_of-bind :
      {A : Type 0} (k : ℤ) (n : ℕ) (f : Option (List ℕ) → Action (Stack P) A)
      → ((read : Option (List ℕ))
          → ((got : List ℕ) → read ≡ some got → length got ≤ n)
          → SafeOpen k (f read))
      → SafeOpen k (bytes_of env.modem n >>= f)
  unfolding ◌>>=◌
  bytes_of-bind k n f keep = record {
    at = λ s t v.
        (keep (env.modem.bytes_param n (read_bytes n ∷ t))
            (λ got e. laws.read_at_most n (read_bytes n ∷ t) got e)).at
          s (read_bytes n ∷ t) v;
  }

  module _ (k : ℤ) where
    pub take_buffered-SafeOpen :
        (b : RxBuffer) (want : ℕ) → IsBuffer env.rx_size b → SafeOpen k (take_buffered env k b want)
    unfolding take_buffered
    take_buffered-SafeOpen b want w =
        Keeps-bind _ _
          (Keeps-modify _ (set_rx_buf-SafeOpen k _ (advanced-IsBuffer env.rx_size b want w)))
          (λ _. Keeps-pure _)

    accept_segment-SafeOpen :
        (b : RxBuffer) (data_len want : ℕ) (read : Option (List ℕ))
        → IsBuffer env.rx_size b
        → ((got : List ℕ) → read ≡ some got → length got ≤ env.rx_size)
        → SafeOpen k (accept_segment env k b data_len want read)
    unfolding accept_segment
    accept_segment-SafeOpen b data_len want none w fit =
        let w' = reset-IsBuffer env room b w.whole in
        Keeps-bind _ _ (Keeps-modify _ (set_rx_buf-SafeOpen k _ w')) (λ _. Keeps-pure _)
    accept_segment-SafeOpen b data_len want (some got) w fit =
        let w' = reset-IsBuffer env room b w.whole in
        let f = filled-IsBuffer env.rx_size b got (fit got refl) w in
        let cleared = Keeps-modify _ (set_rx_buf-SafeOpen k (reset b) w') in
        let stored = Keeps-modify _ (set_rx_buf-SafeOpen k (filled b got) f) in
        let taken = take_buffered-SafeOpen (filled b got) want f in
        Keeps-bind _ _ cleared λ _. Keeps-bind _ _ (Keeps-get_last_error env.modem) λ e.
          Keeps-if _ _ _ (Keeps-pure _) (
            Keeps-bind _ _ stored λ _. Keeps-bind _ _ (search keeps_rules) λ _.
              Keeps-bind _ _ (Keeps-call _) λ _.
                Keeps-bind _ _ (Keeps-get_last_error env.modem)
                  λ e'. Keeps-if _ _ _ taken (Keeps-pure _))

    drop_segment-SafeOpen :
        (udp : Bool) (b : RxBuffer)
        → IsBuffer env.rx_size b
        → SafeOpen k (drop_segment env k udp (some b))
    unfolding drop_segment
    drop_segment-SafeOpen udp b w =
        let cleared = set_rx_buf-SafeOpen k (reset b) (reset-IsBuffer env room b w.whole) in
        search (keeps_rules, cleared) depth 20

    give_up-SafeOpen : (h : ℕ) (udp : Bool) → SafeOpen k (give_up env h k udp)
    unfolding give_up set_pending
    give_up-SafeOpen h udp = Keeps-state _ λ s (v, (b, e)).
        Keeps-bind _ _ (rw e (drop_segment-SafeOpen udp b (v.buffers k b e)))
          (λ _. search keeps_rules depth 20)

    conclude-SafeOpen :
        (h : ℕ) (udp : Bool) (copied : List ℕ) (source : Option Address)
        → SafeOpen k (conclude env h k udp copied source)
    unfolding conclude set_pending
    conclude-SafeOpen h udp copied source = search (keeps_rules, give_up-SafeOpen) depth 20

    pub read_segment-SafeOpen :
        (h data_len want : ℕ) (b : RxBuffer)
        → IsBuffer env.rx_size b
        → SafeOpen k (read_segment env h k data_len want (some b))
    unfolding read_segment
    read_segment-SafeOpen h data_len want b w =
        bytes_of-bind k (min data_len env.rx_size) _ λ read fit.
          Keeps-bind _ _
            (accept_segment-SafeOpen b data_len want read w (λ got e. omega (arith, fit got e)))
            (λ copied. conclude-SafeOpen h false copied none)
