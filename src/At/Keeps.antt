-- ===== src/At/Keeps.antt =====
-- Invariants of the state under an action, whatever the handler answers: one rule for each way
-- in which the driver's methods are put together.
use mbed_ce_st87m.Common.{
  ℕ, zero, suc, String, ◌≡◌, refl, Bool, true, false, Option, none, some, List, ◌∷◌, ℤ,
  if◌then◌else◌, Bool-cases, inl, inr,
}
use mbed_ce_st87m.At.{
  Modem, Trace, AtCall, Action, pure, gets, modify, call, calls, ◌>>=◌, get_last_error,
  get_last_device_error, get_clock, discard, next_line, int_of, string_of, bytes_of, each_line,
  unlock_return_error, query_int, query_text, sync_at, discard_mixed, discard_texts,
}

-- `m` keeps `I`, whatever was called before.
pub record Keeps {S A : Type 0} (I : S → Type 0) (m : Action S A) : Type 0 where
  pub at : (s : S) (t : Trace) → I s → I (m s t).1

module _ {S A : Type 0} {I : S → Type 0} where
  pub Keeps-pure : (a : A) → Keeps I (pure a)
  unfolding pure
  Keeps-pure a = record { at = λ s t h. h }

  pub Keeps-gets : (f : S → A) → Keeps I (gets f)
  unfolding gets
  Keeps-gets f = record { at = λ s t h. h }

  pub Keeps-if :
      (b : Bool) (m n : Action S A) → Keeps I m → Keeps I n → Keeps I (if b then m else n)
  Keeps-if true m n km kn = km
  Keeps-if false m n km kn = kn

  pub Keeps-while :
      (b : Bool) (m n : Action S A)
      → Keeps I m
      → Keeps I n
      → Keeps I (elim b [ true ↦ m | false ↦ n ])
  Keeps-while true m n km kn = km
  Keeps-while false m n km kn = kn

module _ {S A B : Type 0} {I : S → Type 0} where
  pub Keeps-match :
      (o : Option B) (m : Action S A) (f : B → Action S A)
      → Keeps I m
      → ((b : B) → o ≡ some b → Keeps I (f b))
      → Keeps I (elim o [ none ↦ m | some b ↦ f b ])
  Keeps-match none m f km kf = km
  Keeps-match (some b) m f km kf = kf b refl

  pub Keeps-bind :
      (m : Action S A) (f : A → Action S B)
      → Keeps I m
      → ((a : A) → Keeps I (f a))
      → Keeps I (m >>= f)
  unfolding ◌>>=◌
  Keeps-bind m f km kf = record {
    at = λ s t h. let (a, s', t') = m s t in (kf a).at s' t' (km.at s t h);
  }

module _ {S A : Type 0} {I : S → Type 0} where
  -- What is known of the state holds of its copy too.
  pub Keeps-state :
      (f : S → Action S A) → ((s : S) → I s → Keeps I (f s)) → Keeps I (gets (λ s. s) >>= f)
  unfolding ◌>>=◌
  Keeps-state f kf = record { at = λ s t h. (kf s h).at s t h }

module _ {S : Type 0} {I : S → Type 0} where
  pub Keeps-modify : (f : S → S) → ((s : S) → I s → I (f s)) → Keeps I (modify f)
  unfolding modify
  Keeps-modify f keep = record { at = λ s t h. keep s h }

  pub Keeps-call : (c : AtCall) → Keeps I (call c)
  unfolding call
  Keeps-call c = record { at = λ s t h. h }

  pub Keeps-calls : (cs : List AtCall) → Keeps I (calls cs)
  unfolding calls
  Keeps-calls cs = record { at = λ s t h. h }

module _ {S : Type 0} {I : S → Type 0} (modem : Modem) where
  pub Keeps-get_last_error : Keeps I (get_last_error modem)
  unfolding get_last_error
  Keeps-get_last_error = record { at = λ s t h. h }

  pub Keeps-get_last_device_error : Keeps I (get_last_device_error modem)
  unfolding get_last_device_error
  Keeps-get_last_device_error = record { at = λ s t h. h }

  pub Keeps-get_clock : Keeps I (get_clock modem)
  unfolding get_clock
  Keeps-get_clock = record { at = λ s t h. h }

  pub Keeps-next_line : Keeps I (next_line modem)
  unfolding next_line
  Keeps-next_line = record { at = λ s t h. h }

  pub Keeps-int_of : Keeps I (int_of modem)
  unfolding int_of
  Keeps-int_of = record { at = λ s t h. h }

  pub Keeps-string_of : (n : ℕ) → Keeps I (string_of modem n)
  unfolding string_of
  Keeps-string_of n = record { at = λ s t h. h }

  pub Keeps-bytes_of : (n : ℕ) → Keeps I (bytes_of modem n)
  unfolding bytes_of
  Keeps-bytes_of n = record { at = λ s t h. h }

  pub Keeps-query_int : (command mode : String) → Keeps I (query_int modem command mode)
  unfolding query_int
  Keeps-query_int command mode = record { at = λ s t h. h }

  pub Keeps-sync_at : (n : ℕ) → Keeps I (sync_at modem n)
  unfolding sync_at
  Keeps-sync_at n = record { at = λ s t h. h }

  pub Keeps-unlock_return_error : Keeps I (unlock_return_error modem)
  unfolding unlock_return_error
  Keeps-unlock_return_error = record { at = λ s t h. h }

  pub Keeps-discard :
      (command format : String) (args : List ℤ) → Keeps I (discard modem command format args)
  unfolding discard
  Keeps-discard command format args = record { at = λ s t h. h }

  pub Keeps-discard_texts :
      (command format : String) (k : ℤ) (texts : List (List ℕ))
      → Keeps I (discard_texts modem command format k texts)
  unfolding discard_texts
  Keeps-discard_texts command format k texts = record { at = λ s t h. h }

  pub Keeps-discard_mixed :
      (command format : String) (args : List ℤ) (texts : List (List ℕ))
      → Keeps I (discard_mixed modem command format args texts)
  unfolding discard_mixed
  Keeps-discard_mixed command format args texts = record { at = λ s t h. h }

  pub Keeps-query_text : (command mode : String) (k : ℕ) → Keeps I (query_text modem command mode k)
  unfolding query_text
  Keeps-query_text command mode k = record { at = λ s t h. h }

module _ {S B : Type 0} {I : S → Type 0} (modem : Modem) where
  pub Keeps-each_line :
      (fuel : ℕ) (body : B → Action S B) (b : B)
      → ((b' : B) → Keeps I (body b'))
      → Keeps I (each_line modem fuel body b)
  unfolding each_line ◌>>=◌
  Keeps-each_line zero body b keep = Keeps-pure b
  Keeps-each_line (suc fuel) body b keep = record {
    at = λ s t h. elim (Bool-cases (modem.has_line (AtCall.info_resp ∷ t))) [
      | inl e ↦
          rw e ((Keeps-bind (body b) _ (keep b) (λ b'. Keeps-each_line fuel body b' keep)).at s _ h)
      | inr e ↦ rw e h
    ];
  }

pub ruleset keeps_rules = (
  Keeps-pure, Keeps-gets, Keeps-if, Keeps-match, Keeps-bind, Keeps-modify, Keeps-call, Keeps-calls,
  Keeps-get_last_error, Keeps-get_last_device_error, Keeps-get_clock, Keeps-next_line, Keeps-int_of,
  Keeps-string_of, Keeps-bytes_of, Keeps-discard, Keeps-each_line, Keeps-unlock_return_error,
  Keeps-query_int, Keeps-sync_at, Keeps-discard_texts, Keeps-discard_mixed, Keeps-query_text,
)
