-- ===== src/At/Later.antt =====
-- The clock under an action: it does not run back, and a sleep takes its time.
use mbed_ce_st87m.Common.{
  ℕ, zero, suc, ◌+◌, ◌≤◌, arith, Bool, true, false, List, [], ◌∷◌, if◌then◌else◌, Bool-cases, inl,
  inr,
}
use mbed_ce_st87m.At.{
  Modem, Trace, AtCall, sleep_for, info_resp, append_calls, Action, pure, gets, call, calls, ◌>>=◌,
  get_last_error, int_of, each_line,
}

pub record Ticks (modem : Modem) : Type 0 where
  pub on_call : (c : AtCall) (t : Trace) → modem.clock_ms t ≤ modem.clock_ms (c ∷ t)
  pub on_sleep : (n : ℕ) (t : Trace) → modem.clock_ms t + n ≤ modem.clock_ms (sleep_for n ∷ t)

-- `m` ends no earlier than it starts.
pub record Later {S A : Type 0} (modem : Modem) (m : Action S A) : Type 0 where
  pub at : (s : S) (t : Trace) → modem.clock_ms t ≤ modem.clock_ms (m s t).2

module _ (modem : Modem) (ticks : Ticks modem) where
  append_calls-later :
      (cs : List AtCall) (t : Trace) → modem.clock_ms t ≤ modem.clock_ms (append_calls cs t)
  append_calls-later [] t = omega arith
  append_calls-later (c ∷ cs) t = omega (arith, ticks.on_call c t, append_calls-later cs (c ∷ t))

  pub Later-pure : {S A : Type 0} (a : A) → Later {S = S} modem (pure a)
  unfolding pure
  Later-pure a = record { at = λ s t. omega arith }

  pub Later-gets : {S A : Type 0} (f : S → A) → Later modem (gets f)
  unfolding gets
  Later-gets f = record { at = λ s t. omega arith }

  pub Later-call : {S : Type 0} (c : AtCall) → Later {S = S} modem (call c)
  unfolding call
  Later-call c = record { at = λ s t. ticks.on_call c t }

  pub Later-calls : {S : Type 0} (cs : List AtCall) → Later {S = S} modem (calls cs)
  unfolding calls
  Later-calls cs = record { at = λ s t. append_calls-later cs t }

  pub Later-get_last_error : {S : Type 0} → Later {S = S} modem (get_last_error modem)
  unfolding get_last_error
  Later-get_last_error = record { at = λ s t. omega arith }

  pub Later-int_of : {S : Type 0} → Later {S = S} modem (int_of modem)
  unfolding int_of
  Later-int_of = record { at = λ s t. ticks.on_call _ t }

  pub Later-if :
      {S A : Type 0} (b : Bool) (m n : Action S A)
      → Later modem m
      → Later modem n
      → Later modem (if b then m else n)
  Later-if true m n lm ln = lm
  Later-if false m n lm ln = ln

  pub Later-bind :
      {S A B : Type 0} (m : Action S A) (f : A → Action S B)
      → Later modem m
      → ((a : A) → Later modem (f a))
      → Later modem (m >>= f)
  unfolding ◌>>=◌
  Later-bind m f lm lf = record {
    at = λ s t. let (a, s', t') = m s t in omega (arith, lm.at s t, (lf a).at s' t');
  }

  pub Later-each_line :
      {S B : Type 0} (fuel : ℕ) (body : B → Action S B) (b : B)
      → ((b' : B) → Later modem (body b'))
      → Later modem (each_line modem fuel body b)
  unfolding each_line ◌>>=◌
  Later-each_line zero body b later = Later-pure b
  Later-each_line (suc fuel) body b later = record {
    at = λ s t. elim (Bool-cases (modem.has_line (info_resp ∷ t))) [
      | inl e ↦ rw e (
          omega (
            arith,
            ticks.on_call info_resp t,
            (Later-bind (body b) _ (later b) (λ b'. Later-each_line fuel body b' later)).at s
                (info_resp ∷ t),
          ))
      | inr e ↦ rw e (ticks.on_call info_resp t)
    ];
  }

pub ruleset later_rules = (
  Later-pure, Later-gets, Later-call, Later-calls, Later-get_last_error, Later-int_of, Later-if,
  Later-bind, Later-each_line,
)
