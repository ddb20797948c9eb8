-- ===== src/Http/Bounds.antt =====
-- The body of a response stays within its array.
use Prim.Native.Nat.{min}
use mbed_ce_st87m.Common.{
  ℕ, ◌-◌, ◌≤◌, ◌<◌, ◌≡◌, refl, Bool, true, false, Option, none, some, List, ◌∷◌, arith,
  if◌then◌else◌, length, pos_part,
}
use mbed_ce_st87m.At.{Modem, Trace, read_bytes, Action, pure, bytes_of, ◌>>=◌}
use mbed_ce_st87m.Http.{Http, accept, read_data, read_response}
use mbed_ce_st87m.Http.Reply.{Response, body_size, parsed, data_size}

-- What read_bytes(buffer, n) promises: it reads at most n bytes.
pub record ReadLaw (modem : Modem) : Type 0 where
  pub read_at_most :
      (n : ℕ) (t : Trace) (got : List ℕ) → modem.bytes_param n t ≡ some got → length got ≤ n

module _ (modem : Modem) (law : ReadLaw modem) where
  record Fits (m : Action Http (Bool × Response)) : Type 0 where
    at : (s : Http) (t : Trace) → (m s t).0.1.body_length < body_size

  Fits-pure : (b : Bool) (r : Response) → r.body_length < body_size → Fits (pure (b, r))
  unfolding pure
  Fits-pure b r h = record { at = λ s t. h }

  Fits-bind :
      {A : Type 0} (m : Action Http A) (f : A → Action Http (Bool × Response))
      → ((a : A) → Fits (f a))
      → Fits (m >>= f)
  unfolding ◌>>=◌
  Fits-bind m f fits = record { at = λ s t. let (a, s', t') = m s t in (fits a).at s' t' }

  Fits-if :
      (b : Bool) (m n : Action Http (Bool × Response)) → Fits m → Fits n → Fits (if b then m else n)
  Fits-if true m n fm fn = fm
  Fits-if false m n fm fn = fn

  Fits-bytes_of :
      (n : ℕ) (f : Option (List ℕ) → Action Http (Bool × Response))
      → ((read : Option (List ℕ))
          → ((got : List ℕ) → read ≡ some got → length got ≤ n)
          → Fits (f read))
      → Fits (bytes_of modem n >>= f)
  unfolding ◌>>=◌
  Fits-bytes_of n f fits = record {
    at = λ s t.
        let t' = read_bytes n ∷ t in
        (fits (modem.bytes_param n t') (λ got e. law.read_at_most n t' got e)).at s t';
  }

  accept-Fits :
      (announced : ℕ) (read : Option (List ℕ)) (r : Response)
      → r.body_length < body_size
      → ((got : List ℕ) → read ≡ some got → length got < body_size)
      → Fits (accept modem announced read r)
  unfolding accept parsed
  accept-Fits announced none r h short = Fits-pure false r h
  accept-Fits announced (some got) r h short =
      Fits-if _ _ _ (Fits-pure false r h) (Fits-bind _ _ (λ _. Fits-pure true _ (short got refl)))

  read_data-Fits : (r : Response) → r.body_length < body_size → Fits (read_data modem r)
  unfolding read_data
  read_data-Fits r h = Fits-bind _ _ λ more. Fits-if _ _ _ (Fits-pure false r h) (
      Fits-bind _ _ λ param1. Fits-bind _ _ λ param2. Fits-bind _ _ λ param3.
        let announced = pos_part (data_size param1 param2 param3) in
        Fits-if _ _ _ (Fits-pure false r h) (
          Fits-bytes_of (min announced (body_size - 1)) _
            λ read short. accept-Fits announced read r h (λ got e. omega (arith, short got e))))

  -- When the handler reads at most as many bytes as it is asked for, the body that read_response
  -- leaves is shorter than its array of 1400 characters, so the NUL that ends it is within the array,
  -- whatever size the modem announces.
  pub read_response_bounds :
      (timeout_ms : ℕ) (s : Http) (t : Trace)
      → (read_response modem timeout_ms s t).0.1.body_length < body_size
  unfolding read_response ◌>>=◌
  read_response_bounds timeout_ms s t = (read_data-Fits _ (omega arith)).at s _
