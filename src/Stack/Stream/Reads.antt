-- ===== src/Stack/Stream/Reads.antt =====
-- Where in the trace a receive reads: what it reads is part of the calls that it has made in the end.
use Prim.Native.Nat.{min}
use mbed_ce_st87m.Common.{ℕ, Bool, false, Option, none, some, List, ◌∷◌, ℤ}
use mbed_ce_st87m.At.{Trace, read_bytes, ◌>>=◌}
use mbed_ce_st87m.At.Leads.{After, Extends, Extends-bind, extends_rules}
use mbed_ce_st87m.Stack.Types.{RxBuffer, Stack, Env, Address}
use mbed_ce_st87m.Stack.Receive.{
  take_buffered, accept_segment, drop_segment, give_up, conclude, read_segment,
}

module _ {P : Type 0} (env : Env P) (h : ℕ) (k : ℤ) where
  take_buffered-Extends : (b : RxBuffer) (want : ℕ) → Extends (take_buffered env k b want)
  unfolding take_buffered
  take_buffered-Extends b want = search extends_rules

  accept_segment-Extends :
      (b : RxBuffer) (data_len want : ℕ) (read : Option (List ℕ))
      → Extends (accept_segment env k b data_len want read)
  unfolding accept_segment
  accept_segment-Extends b data_len want none = search extends_rules
  accept_segment-Extends b data_len want (some got) =
      search (extends_rules, take_buffered-Extends) depth 30

  drop_segment-Extends : (udp : Bool) (b : Option RxBuffer) → Extends (drop_segment env k udp b)
  unfolding drop_segment
  drop_segment-Extends udp none = search extends_rules
  drop_segment-Extends udp (some b) = search extends_rules

  give_up-Extends : (udp : Bool) → Extends (give_up env h k udp)
  unfolding give_up
  give_up-Extends udp = search (extends_rules, drop_segment-Extends) depth 20

  conclude-Extends :
      (udp : Bool) (copied : List ℕ) (source : Option Address)
      → Extends (conclude env h k udp copied source)
  unfolding conclude
  conclude-Extends udp copied source = search (extends_rules, give_up-Extends) depth 20

  pub read_segment-After :
      (data_len want : ℕ) (b : RxBuffer) (s : Stack P) (t : Trace)
      → After
          (read_bytes (min data_len env.rx_size) ∷ t)
          (read_segment env h k data_len want (some b) s t).2
  unfolding read_segment ◌>>=◌
  read_segment-After data_len want b s t =
      (Extends-bind _ _
          (accept_segment-Extends b data_len want (
            env.modem.bytes_param (min data_len env.rx_size)
              (read_bytes (min data_len env.rx_size) ∷ t)))
          (λ copied. conclude-Extends false copied none)).at
        s (read_bytes (min data_len env.rx_size) ∷ t)
