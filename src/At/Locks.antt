-- ===== src/At/Locks.antt =====
-- The handler's lock: how deep it is held after the calls made so far, and the rules by which an
-- action leaves that depth as it was.
use mbed_ce_st87m.Common.{
  ℕ, zero, suc, String, ◌≡◌, refl, ap, ◌∙◌, Bool, true, false, List, [], ◌∷◌, ℤ, if◌then◌else◌,
  Bool-cases, inl, inr,
}
use mbed_ce_st87m.At.{
  Modem, Trace, AtCall, lock, unlock, append_calls, Action, pure, gets, modify, call, calls, ◌>>=◌,
  get_last_error, get_last_device_error, get_clock, discard, discard_texts, discard_mixed,
  next_line, int_of, string_of, bytes_of, unlock_return_error, query_int, query_text, sync_at,
  each_line,
}

-- How deep the lock is held after one more call.
abbrev pub depth_step : AtCall → ℕ → ℕ
depth_step lock n = suc n
depth_step unlock zero = zero
depth_step unlock (suc n) = n
depth_step _ n = n

abbrev pub depth_after : List AtCall → ℕ → ℕ
depth_after [] n = n
depth_after (c ∷ cs) n = depth_after cs (depth_step c n)

-- The trace has the newest call first.
unfoldable pub depth : Trace → ℕ
depth [] = 0
depth (c ∷ t) = depth_step c (depth t)

-- The action ends at the depth at which it starts, whatever the handler answers.
pub record IsLevel {S A : Type 0} (act : Action S A) : Type 0 where
  pub at : (s : S) (t : Trace) → depth (act s t).2 ≡ depth t

-- The action gives the lock back once more than it takes it.
pub record IsRelease {S A : Type 0} (act : Action S A) : Type 0 where
  pub at : (s : S) (t : Trace) → depth (act s t).2 ≡ depth_step unlock (depth t)

depth-append : (cs : List AtCall) (t : Trace) → depth (append_calls cs t) ≡ depth_after cs (depth t)
unfolding depth
depth-append [] t = refl
depth-append (c ∷ cs) t = depth-append cs (c ∷ t)

module _ {S : Type 0} where
  pub IsLevel-pure : {A : Type 0} (a : A) → IsLevel {S = S} (pure a)
  unfolding pure
  IsLevel-pure a = record { at = λ s t. refl }

  pub IsLevel-gets : {A : Type 0} (f : S → A) → IsLevel (gets f)
  unfolding gets
  IsLevel-gets f = record { at = λ s t. refl }

  pub IsLevel-modify : (f : S → S) → IsLevel (modify f)
  unfolding modify
  IsLevel-modify f = record { at = λ s t. refl }

  pub IsLevel-call : (c : AtCall) → ((n : ℕ) → depth_step c n ≡ n) → IsLevel {S = S} (call c)
  unfolding call depth
  IsLevel-call c h = record { at = λ s t. h (depth t) }

  pub IsLevel-call_if :
      (b : Bool) (c d : AtCall)
      → ((n : ℕ) → depth_step c n ≡ n)
      → ((n : ℕ) → depth_step d n ≡ n)
      → IsLevel {S = S} (call (if b then c else d))
  IsLevel-call_if true c d hc hd = IsLevel-call c hc
  IsLevel-call_if false c d hc hd = IsLevel-call d hd

  pub IsLevel-calls :
      (cs : List AtCall) → ((n : ℕ) → depth_after cs n ≡ n) → IsLevel {S = S} (calls cs)
  unfolding calls
  IsLevel-calls cs h = record { at = λ s t. depth-append cs t ∙ h (depth t) }

  pub IsRelease-call : IsRelease {S = S} (call unlock)
  unfolding call depth
  IsRelease-call = record { at = λ s t. refl }

  pub IsRelease-calls :
      (cs : List AtCall)
      → ((n : ℕ) → depth_after cs n ≡ depth_step unlock n)
      → IsRelease {S = S} (calls cs)
  unfolding calls
  IsRelease-calls cs h = record { at = λ s t. depth-append cs t ∙ h (depth t) }

  pub IsLevel-if :
      {A : Type 0} (b : Bool) (x y : Action S A)
      → IsLevel x
      → IsLevel y
      → IsLevel (if b then x else y)
  IsLevel-if true x y lx ly = lx
  IsLevel-if false x y lx ly = ly

  pub IsRelease-if :
      {A : Type 0} (b : Bool) (x y : Action S A)
      → IsRelease x
      → IsRelease y
      → IsRelease (if b then x else y)
  IsRelease-if true x y lx ly = lx
  IsRelease-if false x y lx ly = ly

module _ {S A B : Type 0} where
  pub IsLevel-bind :
      (x : Action S A) (f : A → Action S B)
      → IsLevel x
      → ((a : A) → IsLevel (f a))
      → IsLevel (x >>= f)
  unfolding ◌>>=◌
  IsLevel-bind x f lx lf = record {
    at = λ s t. let (a, s', t') = x s t in (lf a).at s' t' ∙ lx.at s t;
  }

  pub IsRelease-bind :
      (x : Action S A) (f : A → Action S B)
      → IsLevel x
      → ((a : A) → IsRelease (f a))
      → IsRelease (x >>= f)
  unfolding ◌>>=◌
  IsRelease-bind x f lx lf = record {
    at = λ s t. let (a, s', t') = x s t in (lf a).at s' t' ∙ ap (depth_step unlock) (lx.at s t);
  }

  -- Given back, and then level.
  pub IsRelease-then :
      (x : Action S A) (f : A → Action S B)
      → IsRelease x
      → ((a : A) → IsLevel (f a))
      → IsRelease (x >>= f)
  unfolding ◌>>=◌
  IsRelease-then x f lx lf = record {
    at = λ s t. let (a, s', t') = x s t in (lf a).at s' t' ∙ lx.at s t;
  }

module _ {S B : Type 0} where
  -- Taken, and given back by the rest.
  pub IsLevel-lock :
      (cs : List AtCall) (f : Unit {0} → Action S B)
      → ((n : ℕ) → depth_after cs n ≡ suc n)
      → IsRelease (f tt)
      → IsLevel (calls cs >>= f)
  unfolding ◌>>=◌
  IsLevel-lock cs f h rf = record {
    at = λ s t.
        (rf.at s (append_calls cs t) ∙ ap (depth_step unlock) (depth-append cs t ∙ h (depth t)));
  }

  pub IsLevel-lock_one : (f : Unit {0} → Action S B) → IsRelease (f tt) → IsLevel (call lock >>= f)
  unfolding ◌>>=◌ depth
  IsLevel-lock_one f rf = record { at = λ s t. rf.at s (lock ∷ t) }

module _ {S : Type 0} (modem : Modem) where
  pub IsLevel-get_last_error : IsLevel {S = S} (get_last_error modem)
  unfolding get_last_error
  IsLevel-get_last_error = record { at = λ s t. refl }

  pub IsLevel-get_last_device_error : IsLevel {S = S} (get_last_device_error modem)
  unfolding get_last_device_error
  IsLevel-get_last_device_error = record { at = λ s t. refl }

  pub IsLevel-get_clock : IsLevel {S = S} (get_clock modem)
  unfolding get_clock
  IsLevel-get_clock = record { at = λ s t. refl }

  pub IsLevel-discard :
      (command format : String) (args : List ℤ)
      → IsLevel {S = S} (discard modem command format args)
  unfolding discard depth
  IsLevel-discard command format args = record { at = λ s t. refl }

  pub IsLevel-discard_texts :
      (command format : String) (k : ℤ) (texts : List (List ℕ))
      → IsLevel {S = S} (discard_texts modem command format k texts)
  unfolding discard_texts depth
  IsLevel-discard_texts command format k texts = record { at = λ s t. refl }

  pub IsLevel-discard_mixed :
      (command format : String) (args : List ℤ) (texts : List (List ℕ))
      → IsLevel {S = S} (discard_mixed modem command format args texts)
  unfolding discard_mixed depth
  IsLevel-discard_mixed command format args texts = record { at = λ s t. refl }

  pub IsLevel-next_line : IsLevel {S = S} (next_line modem)
  unfolding next_line depth
  IsLevel-next_line = record { at = λ s t. refl }

  pub IsLevel-int_of : IsLevel {S = S} (int_of modem)
  unfolding int_of depth
  IsLevel-int_of = record { at = λ s t. refl }

  pub IsLevel-string_of : (k : ℕ) → IsLevel {S = S} (string_of modem k)
  unfolding string_of depth
  IsLevel-string_of k = record { at = λ s t. refl }

  pub IsLevel-bytes_of : (k : ℕ) → IsLevel {S = S} (bytes_of modem k)
  unfolding bytes_of depth
  IsLevel-bytes_of k = record { at = λ s t. refl }

  pub IsLevel-query_int : (command mode : String) → IsLevel {S = S} (query_int modem command mode)
  unfolding query_int depth
  IsLevel-query_int command mode = record { at = λ s t. refl }

  pub IsLevel-query_text :
      (command mode : String) (k : ℕ) → IsLevel {S = S} (query_text modem command mode k)
  unfolding query_text depth
  IsLevel-query_text command mode k = record { at = λ s t. refl }

  pub IsLevel-sync_at : (k : ℕ) → IsLevel {S = S} (sync_at modem k)
  unfolding sync_at depth
  IsLevel-sync_at k = record { at = λ s t. refl }

  pub IsRelease-unlock_return_error : IsRelease {S = S} (unlock_return_error modem)
  unfolding unlock_return_error depth
  IsRelease-unlock_return_error = record { at = λ s t. refl }

module _ {S B : Type 0} (modem : Modem) where
  pub IsLevel-each_line :
      (fuel : ℕ) (body : B → Action S B) (b : B)
      → ((b' : B) → IsLevel (body b'))
      → IsLevel (each_line modem fuel body b)
  unfolding each_line ◌>>=◌ depth
  IsLevel-each_line zero body b level = IsLevel-pure b
  IsLevel-each_line (suc fuel) body b level = record {
    at = λ s t. elim (Bool-cases (modem.has_line (AtCall.info_resp ∷ t))) [
      | inl more ↦
          rw more (
            (IsLevel-bind (body b) _ (level b) (λ b'. IsLevel-each_line fuel body b' level)).at s _)
      | inr last ↦ rw last refl
    ];
  }

pub ruleset locks_rules = (
  IsLevel-pure, IsLevel-gets, IsLevel-modify, IsLevel-call, IsLevel-call_if, IsLevel-calls,
  IsRelease-call, IsRelease-calls, IsLevel-if, IsRelease-if, IsLevel-bind, IsRelease-bind,
  IsRelease-then, IsLevel-lock, IsLevel-lock_one, IsLevel-get_last_error,
  IsLevel-get_last_device_error, IsLevel-get_clock, IsLevel-discard, IsLevel-discard_texts,
  IsLevel-discard_mixed, IsLevel-next_line, IsLevel-int_of, IsLevel-string_of, IsLevel-bytes_of,
  IsLevel-query_int, IsLevel-query_text, IsLevel-sync_at, IsRelease-unlock_return_error,
  IsLevel-each_line,
)
