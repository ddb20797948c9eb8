-- ===== src/At/Leads.antt =====
-- What an action gives back and the state it ends in, with the point of the trace at which it runs.
use mathlib.Core.Path.{subst}
use mbed_ce_st87m.Common.{◌≡◌, refl, sym, Bool, true, false, ◌∷◌, if◌then◌else◌}
use mbed_ce_st87m.At.{Modem, AtCall, Trace, Action, pure, gets, modify, call, get_last_error, ◌>>=◌}
use mbed_ce_st87m.At.Gives.{Gives}

-- The calls of `start`, and any number of calls made later.
pub data After (start : Trace) : Trace → Type 0 where
  same : After start start
  more : (c : AtCall) (t : Trace) → After start t → After start (c ∷ t)

After-trans : (t u v : Trace) → After t u → After u v → After t v
After-trans t u _ early same = early
After-trans t u _ early (more c v late) = more c v (After-trans t u v early late)

-- `m` makes calls and leaves the fields alone.
pub record Passes {S A : Type 0} (m : Action S A) : Type 0 where
  pub at : (s : S) (t : Trace) → ((m s t).1 ≡ s) × After t (m s t).2

pub Passes-call : {S : Type 0} (c : AtCall) → Passes {S = S} (call c)
unfolding call
Passes-call c = record { at = λ s t. (refl, more c t same) }

pub Passes-get_last_error : {S : Type 0} (modem : Modem) → Passes {S = S} (get_last_error modem)
unfolding get_last_error
Passes-get_last_error modem = record { at = λ s t. (refl, same) }

-- `m` only adds calls to the trace.
pub record Extends {S A : Type 0} (m : Action S A) : Type 0 where
  pub at : (s : S) (t : Trace) → After t (m s t).2

module _ {S A : Type 0} where
  pub Extends-pure : (a : A) → Extends {S = S} (pure a)
  unfolding pure
  Extends-pure a = record { at = λ s t. same }

  pub Extends-if :
      (b : Bool) (m n : Action S A) → Extends m → Extends n → Extends (if b then m else n)
  Extends-if true m n em en = em
  Extends-if false m n em en = en

  pub Extends-gets : (f : S → A) → Extends (gets f)
  unfolding gets
  Extends-gets f = record { at = λ s t. same }

pub Extends-bind :
    {S A B : Type 0} (m : Action S A) (f : A → Action S B)
    → Extends m
    → ((a : A) → Extends (f a))
    → Extends (m >>= f)
unfolding ◌>>=◌
Extends-bind m f em ef = record {
  at = λ s t.
      let (a, s', t') = m s t in After-trans t t' (f a s' t').2 (em.at s t) ((ef a).at s' t');
}

module _ {S : Type 0} where
  pub Extends-modify : (f : S → S) → Extends (modify f)
  unfolding modify
  Extends-modify f = record { at = λ s t. same }

  pub Extends-call : (c : AtCall) → Extends {S = S} (call c)
  unfolding call
  Extends-call c = record { at = λ s t. more c t same }

  pub Extends-get_last_error : (modem : Modem) → Extends {S = S} (get_last_error modem)
  unfolding get_last_error
  Extends-get_last_error modem = record { at = λ s t. same }

pub ruleset extends_rules = (
  Extends-pure, Extends-if, Extends-gets, Extends-bind, Extends-modify, Extends-call,
  Extends-get_last_error,
)

-- From a state in `I`, at any point behind `start`, if `m` ends with the trace `final`, then it gives
-- a result and a state in `Q`.
pub record Leads (start final : Trace) {S A : Type 0} (I : S → Type 0) (Q : A → S → Type 0)
    (m : Action S A) : Type 0 where
  pub at : (s : S) (t : Trace) → After start t → (m s t).2 ≡ final → I s → Q (m s t).0 (m s t).1

module _ (start final : Trace) {S A : Type 0} {I : S → Type 0} {Q : A → S → Type 0} where
  pub Leads-Gives : (m : Action S A) → Gives I Q m → Leads start final I Q m
  Leads-Gives m g = record { at = λ s t later ends i. g.at s t i }

  pub Leads-if :
      (b : Bool) (m n : Action S A)
      → Leads start final I Q m
      → Leads start final I Q n
      → Leads start final I Q (if b then m else n)
  Leads-if true m n lm ln = lm
  Leads-if false m n lm ln = ln

  pub Leads-from :
      {J : S → Type 0} (m : Action S A)
      → ((s : S) → I s → J s)
      → Leads start final J Q m
      → Leads start final I Q m
  Leads-from m h l = record { at = λ s t later ends i. l.at s t later ends (h s i) }

  pub Leads-state :
      (f : S → Action S A)
      → ((s : S) → I s → Leads start final (λ s'. s' ≡ s) Q (f s))
      → Leads start final I Q (gets (λ s. s) >>= f)
  unfolding ◌>>=◌
  Leads-state f g = record { at = λ s t later ends i. (g s i).at s t later ends refl }

pub Leads-pass :
    (start final : Trace) {S A B : Type 0} {I : S → Type 0} {Q : B → S → Type 0} (x : Action S A)
    (f : A → Action S B)
    → Passes x
    → ((a : A) → Leads start final I Q (f a))
    → Leads start final I Q (x >>= f)
unfolding ◌>>=◌
Leads-pass start final {I = I} x f passes l = record {
  at = λ s t later ends i.
      let (a, s', t') = x s t in
      let (kept, on) = passes.at s t in
      (l a).at s' t' (After-trans start t t' later on) ends (subst I (sym kept) i);
}
