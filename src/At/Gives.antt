-- ===== src/At/Gives.antt =====
-- What an action gives back, and the state it ends in, from a state that is known to be fit.
use mbed_ce_st87m.Common.{◌≡◌, refl, Bool, true, false, if◌then◌else◌}
use mbed_ce_st87m.At.{Trace, Action, pure, gets, ◌>>=◌}
use mbed_ce_st87m.At.Keeps.{Keeps}

-- From a state in `I`, `m` gives a result and a state in `Q`, whatever was called before.
pub record Gives {S A : Type 0} (I : S → Type 0) (Q : A → S → Type 0) (m : Action S A)
    : Type 0 where
  pub at : (s : S) (t : Trace) → I s → Q (m s t).0 (m s t).1

module _ {S A : Type 0} {I : S → Type 0} {Q : A → S → Type 0} where
  pub Gives-pure : (a : A) → ((s : S) → I s → Q a s) → Gives I Q (pure a)
  unfolding pure
  Gives-pure a h = record { at = λ s t i. h s i }

  pub Gives-if :
      (b : Bool) (m n : Action S A)
      → (b ≡ true → Gives I Q m)
      → (b ≡ false → Gives I Q n)
      → Gives I Q (if b then m else n)
  Gives-if true m n gm gn = gm refl
  Gives-if false m n gm gn = gn refl

  pub Gives-from :
      (J : S → Type 0) (m : Action S A) → ((s : S) → I s → J s) → Gives J Q m → Gives I Q m
  Gives-from J m h g = record { at = λ s t i. g.at s t (h s i) }

  -- The state is copied, and nothing changes it.
  pub Gives-state :
      (f : S → Action S A)
      → ((s : S) → I s → Gives (λ s'. s' ≡ s) Q (f s))
      → Gives I Q (gets (λ s. s) >>= f)
  unfolding ◌>>=◌
  Gives-state f g = record { at = λ s t i. (g s i).at s t refl }

module _ {S A B : Type 0} {I : S → Type 0} {Q : B → S → Type 0} where
  pub Gives-keep :
      (x : Action S A) (f : A → Action S B)
      → Keeps I x
      → ((a : A) → Gives I Q (f a))
      → Gives I Q (x >>= f)
  unfolding ◌>>=◌
  Gives-keep x f k g = record {
    at = λ s t i. let (a, s', t') = x s t in (g a).at s' t' (k.at s t i);
  }

  pub Gives-then :
      (R : A → S → Type 0) (x : Action S A) (f : A → Action S B)
      → Gives I R x
      → ((a : A) → Gives (R a) Q (f a))
      → Gives I Q (x >>= f)
  unfolding ◌>>=◌
  Gives-then R x f gx g = record {
    at = λ s t i. let (a, s', t') = x s t in (g a).at s' t' (gx.at s t i);
  }
