-- ===== src/At/Talk.antt =====
-- The grammar of the handler's calls: a command is written, its answer is read, and both happen
-- while the handler's lock is held.
use mbed_ce_st87m.Common.{
  ℕ, zero, suc, String, ◌≡◌, refl, ap, ◌∙◌, Bool, true, false, List, [], ◌∷◌, ℤ, if◌then◌else◌,
}
use mbed_ce_st87m.At.{
  NsapiError, Modem, Trace, AtCall, lock, unlock, append_calls, Action, pure, gets, modify, call,
  calls, ◌>>=◌, get_last_error, get_last_device_error, get_clock, discard, discard_texts,
  discard_mixed, next_line, int_of, string_of, bytes_of, unlock_return_error, query_int, query_text,
  sync_at, each_line,
}

-- Where a conversation with the modem stands, and how deep the lock is held: no command under way,
-- a command being written, its answer awaited, its answer being read, or the grammar violated.
pub data Talk : Type 0 where
  quiet writing sent reading : ℕ → Talk
  broken : Talk

abbrev take_lock : Talk → Talk
take_lock (quiet n) = quiet (suc n)
take_lock _ = broken

abbrev give_lock : Talk → Talk
give_lock (quiet (suc n)) = quiet n
give_lock _ = broken

-- A command is begun with the lock held and no other command under way.
abbrev begin : (ℕ → Talk) → Talk → Talk
begin next (quiet (suc n)) = next (suc n)
begin next _ = broken

abbrev write : (ℕ → Talk) → Talk → Talk
write next (writing n) = next n
write next _ = broken

-- Bytes belong to a command, or follow one that the modem has accepted.
abbrev write_data : Talk → Talk
write_data (writing n) = writing n
write_data (quiet (suc n)) = sent (suc n)
write_data _ = broken

abbrev expect : Talk → Talk
expect (sent n) = reading n
expect _ = broken

abbrev read : (ℕ → Talk) → Talk → Talk
read next (reading n) = next n
read next _ = broken

-- The handler takes its lock for the whole command by itself.
abbrev whole : Talk → Talk
whole (quiet n) = quiet n
whole _ = broken

abbrev pub say : AtCall → Talk → Talk
say lock p = take_lock p
say unlock p = give_lock p
say (AtCall.cmd_start c) p = begin writing p
say (AtCall.cmd_start_stop c m args) p = begin sent p
say (AtCall.write_int k) p = write writing p
say (AtCall.write_string text q) p = write writing p
say (AtCall.write_bytes bs) p = write_data p
say AtCall.cmd_stop p = write sent p
say AtCall.cmd_stop_read_resp p = write quiet p
say (AtCall.resp_start prefix) p = expect p
say AtCall.info_resp p = read reading p
say AtCall.read_int p = read reading p
say (AtCall.read_string n) p = read reading p
say (AtCall.read_bytes n) p = read reading p
say AtCall.skip_param p = read reading p
say (AtCall.skip_param_bytes n k) p = read reading p
say AtCall.resp_stop p = read quiet p
say (AtCall.at_cmd_discard c m args) p = whole p
say (AtCall.at_cmd_discard_texts c m k texts) p = whole p
say (AtCall.at_cmd_discard_mixed c m args texts) p = whole p
say (AtCall.at_cmd_int c m) p = whole p
say (AtCall.at_cmd_str c m k) p = whole p
say _ p = p

abbrev pub say_all : List AtCall → Talk → Talk
say_all [] p = p
say_all (c ∷ cs) p = say_all cs (say c p)

unfoldable pub talk : Trace → Talk
talk [] = quiet 0
talk (c ∷ t) = say c (talk t)

-- From a conversation that stands at `p`, the action leads to `q`, whatever the handler answers.
pub record Moves {S A : Type 0} (p q : Talk) (act : Action S A) : Type 0 where
  pub at : (s : S) (t : Trace) → talk t ≡ p → talk (act s t).2 ≡ q

-- It leads back to where it starts.
abbrev pub Stays : {S A : Type 0} → Talk → Action S A → Type 0
Stays p act = Moves p p act

talk-append : (cs : List AtCall) (t : Trace) → talk (append_calls cs t) ≡ say_all cs (talk t)
unfolding talk
talk-append [] t = refl
talk-append (c ∷ cs) t = talk-append cs (c ∷ t)

module _ {S : Type 0} {p : Talk} where
  pub Moves-pure : {A : Type 0} (a : A) → Moves {S = S} p p (pure a)
  unfolding pure
  Moves-pure a = record { at = λ s t h. h }

  pub Moves-gets : {A : Type 0} (f : S → A) → Moves p p (gets f)
  unfolding gets
  Moves-gets f = record { at = λ s t h. h }

  pub Moves-modify : (f : S → S) → Moves p p (modify f)
  unfolding modify
  Moves-modify f = record { at = λ s t h. h }

module _ {S : Type 0} {p q : Talk} where
  pub Moves-call : (c : AtCall) → say c p ≡ q → Moves {S = S} p q (call c)
  unfolding call talk
  Moves-call c e = record { at = λ s t h. ap (say c) h ∙ e }

  pub Moves-call_if :
      (b : Bool) (c d : AtCall)
      → say c p ≡ q
      → say d p ≡ q
      → Moves {S = S} p q (call (if b then c else d))
  Moves-call_if true c d ec ed = Moves-call c ec
  Moves-call_if false c d ec ed = Moves-call d ed

  pub Moves-calls : (cs : List AtCall) → say_all cs p ≡ q → Moves {S = S} p q (calls cs)
  unfolding calls
  Moves-calls cs e = record { at = λ s t h. talk-append cs t ∙ ap (say_all cs) h ∙ e }

  pub Moves-unlock_return_error :
      (modem : Modem) → give_lock p ≡ q → Moves {S = S} p q (unlock_return_error modem)
  unfolding unlock_return_error talk
  Moves-unlock_return_error modem e = record { at = λ s t h. ap give_lock h ∙ e }

module _ {S A : Type 0} {p q : Talk} where
  pub Moves-if :
      (b : Bool) (x y : Action S A) → Moves p q x → Moves p q y → Moves p q (if b then x else y)
  Moves-if true x y mx my = mx
  Moves-if false x y mx my = my

  pub Moves-while :
      (b : Bool) (x y : Action S A)
      → Moves p q x
      → Moves p q y
      → Moves p q (elim b [ true ↦ x | false ↦ y ])
  Moves-while true x y mx my = mx
  Moves-while false x y mx my = my

module _ {S A B : Type 0} {p q r : Talk} where
  pub Moves-bind :
      (x : Action S A) (f : A → Action S B)
      → Moves p q x
      → ((a : A) → Moves q r (f a))
      → Moves p r (x >>= f)
  unfolding ◌>>=◌
  Moves-bind x f mx mf = record {
    at = λ s t h. let (a, s', t') = x s t in (mf a).at s' t' (mx.at s t h);
  }

module _ {S B : Type 0} {p r : Talk} where
  -- One call, and then the rest from where it leads.
  pub Moves-call_then :
      (c : AtCall) (f : Unit {0} → Action S B) → Moves (say c p) r (f tt) → Moves p r (call c >>= f)
  Moves-call_then c f m = Moves-bind _ _ (Moves-call c refl) (λ _. m)

  pub Moves-calls_then :
      (cs : List AtCall) (f : Unit {0} → Action S B)
      → Moves (say_all cs p) r (f tt)
      → Moves p r (calls cs >>= f)
  Moves-calls_then cs f m = Moves-bind _ _ (Moves-calls cs refl) (λ _. m)

  pub Moves-unlock_then :
      (modem : Modem) (f : NsapiError → Action S B)
      → ((e : NsapiError) → Moves (give_lock p) r (f e))
      → Moves p r (unlock_return_error modem >>= f)
  Moves-unlock_then modem f m = Moves-bind _ _ (Moves-unlock_return_error modem refl) m

  -- A part that leads back to where it starts.
  pub Moves-back_then :
      {A : Type 0} (x : Action S A) (f : A → Action S B)
      → Moves p p x
      → ((a : A) → Moves p r (f a))
      → Moves p r (x >>= f)
  Moves-back_then x f mx mf = Moves-bind x f mx mf

module _ {S : Type 0} (modem : Modem) {p : Talk} where
  pub Moves-get_last_error : Moves {S = S} p p (get_last_error modem)
  unfolding get_last_error
  Moves-get_last_error = record { at = λ s t h. h }

  pub Moves-get_last_device_error : Moves {S = S} p p (get_last_device_error modem)
  unfolding get_last_device_error
  Moves-get_last_device_error = record { at = λ s t h. h }

  pub Moves-get_clock : Moves {S = S} p p (get_clock modem)
  unfolding get_clock
  Moves-get_clock = record { at = λ s t h. h }

  pub Moves-sync_at : (k : ℕ) → Moves {S = S} p p (sync_at modem k)
  unfolding sync_at talk
  Moves-sync_at k = record { at = λ s t h. h }

module _ {S : Type 0} (modem : Modem) {n : ℕ} where
  pub Moves-discard :
      (command format : String) (args : List ℤ)
      → Moves {S = S} (quiet n) (quiet n) (discard modem command format args)
  unfolding discard talk
  Moves-discard command format args = record { at = λ s t h. ap whole h }

  pub Moves-discard_texts :
      (command format : String) (k : ℤ) (texts : List (List ℕ))
      → Moves {S = S} (quiet n) (quiet n) (discard_texts modem command format k texts)
  unfolding discard_texts talk
  Moves-discard_texts command format k texts = record { at = λ s t h. ap whole h }

  pub Moves-discard_mixed :
      (command format : String) (args : List ℤ) (texts : List (List ℕ))
      → Moves {S = S} (quiet n) (quiet n) (discard_mixed modem command format args texts)
  unfolding discard_mixed talk
  Moves-discard_mixed command format args texts = record { at = λ s t h. ap whole h }

  pub Moves-query_int :
      (command mode : String) → Moves {S = S} (quiet n) (quiet n) (query_int modem command mode)
  unfolding query_int talk
  Moves-query_int command mode = record { at = λ s t h. ap whole h }

  pub Moves-query_text :
      (command mode : String) (k : ℕ)
      → Moves {S = S} (quiet n) (quiet n) (query_text modem command mode k)
  unfolding query_text talk
  Moves-query_text command mode k = record { at = λ s t h. ap whole h }

  pub Moves-next_line : Moves {S = S} (reading n) (reading n) (next_line modem)
  unfolding next_line talk
  Moves-next_line = record { at = λ s t h. ap (read reading) h }

  pub Moves-int_of : Moves {S = S} (reading n) (reading n) (int_of modem)
  unfolding int_of talk
  Moves-int_of = record { at = λ s t h. ap (read reading) h }

  pub Moves-string_of : (k : ℕ) → Moves {S = S} (reading n) (reading n) (string_of modem k)
  unfolding string_of talk
  Moves-string_of k = record { at = λ s t h. ap (read reading) h }

  pub Moves-bytes_of : (k : ℕ) → Moves {S = S} (reading n) (reading n) (bytes_of modem k)
  unfolding bytes_of talk
  Moves-bytes_of k = record { at = λ s t h. ap (read reading) h }

module _ {S B : Type 0} (modem : Modem) {n : ℕ} where
  -- The lines of an answer.
  pub Moves-each_line :
      (fuel : ℕ) (body : B → Action S B) (b : B)
      → ((b' : B) → Moves (reading n) (reading n) (body b'))
      → Moves (reading n) (reading n) (each_line modem fuel body b)
  unfolding each_line
  Moves-each_line zero body b mb = Moves-pure b
  Moves-each_line (suc fuel) body b mb = Moves-bind _ _ (Moves-next_line modem) λ more.
      Moves-while more _ _ (Moves-bind _ _ (mb b) λ b'. Moves-each_line fuel body b' mb)
        (Moves-pure b)

pub ruleset talk_rules = (
  Moves-pure, Moves-gets, Moves-modify, Moves-call, Moves-call_if, Moves-calls, Moves-if,
  Moves-call_then, Moves-calls_then, Moves-unlock_then, Moves-back_then, Moves-get_last_error,
  Moves-get_last_device_error, Moves-get_clock, Moves-sync_at, Moves-unlock_return_error,
  Moves-discard, Moves-discard_texts, Moves-discard_mixed, Moves-query_int, Moves-query_text,
  Moves-next_line, Moves-int_of, Moves-string_of, Moves-bytes_of, Moves-each_line,
)
