-- ===== src/Http/Outcome.antt =====
-- What a request leaves in its response, and where the response's parts are in what was read.
use mathlib.Core.Option.{none-ne-some}
use mbed_ce_st87m.Common.{
  ℕ, ◌≡◌, ◌≤◌, refl, sym, ap, ◌∙◌, inl, inr, true, Option, some, List, [], ◌∷◌, ◌++◌, arith, pos,
  Option-cases, length, length-append,
}
use mbed_ce_st87m.At.{ok, Modem, Trace, Action}
use mbed_ce_st87m.Http.{Http}
use mbed_ce_st87m.Http.Reply.{
  Response, is_success, behind_blank_line, c_string, parsed, starts_blank_line, or_else,
}

-- The flag of a response and the code's own test.
abbrev IsTested : Response → Type 0
IsTested r = r.success ≡ is_success r.error r.status_code

-- No error, and one of the status codes of HTTP's class "successful", 2xx.
abbrev pub Succeeded : Response → Type 0
Succeeded r = (r.error ≡ ok) × ((n : ℕ) × (r.status_code ≡ pos n) × (200 ≤ n) × (n ≤ 299))

-- The flag of a response is set exactly when the request succeeded.
abbrev pub IsHonest : Response → Type 0
IsHonest r = ((r.success ≡ true) → Succeeded r) × (Succeeded r → (r.success ≡ true))

module _ (modem : Modem) where
  record Reports (m : Action Http Response) : Type 0 where
    at : (s : Http) (t : Trace) → IsTested (m s t).0

-- "\r\n\r\n"
abbrev pub blank_line : List ℕ
blank_line = 13 ∷ 10 ∷ 13 ∷ 10 ∷ []

starts_blank_line_lem :
    (text rest : List ℕ) → starts_blank_line text ≡ some rest → text ≡ blank_line ++ rest
starts_blank_line_lem [] rest e = absurd (none-ne-some _ e)
starts_blank_line_lem (c ∷ []) rest e = absurd (none-ne-some _ e)
starts_blank_line_lem (c ∷ d ∷ []) rest e = absurd (none-ne-some _ e)
starts_blank_line_lem (c ∷ d ∷ f ∷ []) rest e = absurd (none-ne-some _ e)
starts_blank_line_lem (c ∷ d ∷ f ∷ g ∷ cs) rest e = ground arith

behind_blank_line_lem :
    (text rest : List ℕ)
    → behind_blank_line text ≡ some rest
    → (head : List ℕ) × (text ≡ head ++ (blank_line ++ rest))
unfolding behind_blank_line
behind_blank_line_lem [] rest e = absurd (none-ne-some _ e)
behind_blank_line_lem (c ∷ cs) rest e = elim (Option-cases (starts_blank_line (c ∷ cs))) [
  | inr (r, s) ↦ (
    [],
    starts_blank_line_lem (c ∷ cs) rest
        (s ∙ (ap (λ o. or_else o (behind_blank_line cs)) (sym s) ∙ e)),
  )
  | inl s ↦
      let (head, q) =
        behind_blank_line_lem cs rest (ap (λ o. or_else o (behind_blank_line cs)) (sym s) ∙ e) in
      (c ∷ head, ap (◌∷◌ c) q)
]

starts_blank_line-blank : (rest : List ℕ) → starts_blank_line (blank_line ++ rest) ≡ some rest
starts_blank_line-blank rest = refl

-- The search finds a blank line wherever there is one, and none that lies behind it.
behind_blank_line-finds :
    (head rest : List ℕ)
    → (found : List ℕ) × (behind_blank_line (head ++ (blank_line ++ rest)) ≡ some found)
      × (length rest ≤ length found)
unfolding behind_blank_line
behind_blank_line-finds [] rest = (rest, refl, omega arith)
behind_blank_line-finds (c ∷ head) rest =
    let text = head ++ (blank_line ++ rest) in
    let (found, e, longer) = behind_blank_line-finds head rest in
    elim (Option-cases (starts_blank_line (c ∷ text))) [
      | inl none_here ↦ (found, rw none_here e, longer)
      | inr (r, here) ↦
          let m = ap length (starts_blank_line_lem (c ∷ text) r here) in
          let n = length-append head (blank_line ++ rest) in (r, rw here refl, omega (arith, m, n))
    ]

-- When the bytes that were read hold no NUL, content_length is the number of bytes that follow the
-- first blank line: the one with no more bytes before it than any other.
pub parsed-content_length :
    (head rest : List ℕ) (r : Response)
    → c_string (head ++ (blank_line ++ rest)) ≡ head ++ (blank_line ++ rest)
    → ((head' rest' : List ℕ)
        → head ++ (blank_line ++ rest) ≡ head' ++ (blank_line ++ rest')
        → length head ≤ length head')
    → (parsed (head ++ (blank_line ++ rest)) r).content_length ≡ length rest
unfolding parsed
parsed-content_length head rest r plain first =
    let got = head ++ (blank_line ++ rest) in
    let (found, e, longer) = behind_blank_line-finds head rest in
    let (head', q) = behind_blank_line_lem got found e in
    let earlier = first head' found q in
    let n = length-append head (blank_line ++ rest) in
    let m = length-append head' (blank_line ++ found) in
    let k = ap length q in rw (plain, e) (omega (arith, n, m, k, earlier, longer))
