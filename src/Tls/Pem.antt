-- ===== src/Tls/Pem.antt =====
-- looks_like_pem of src/ST87M01_TlsProvisioning.cpp finds the marker wherever it stands.
use mbed_ce_st87m.Common.{
  ℕ, ◌≤◌, ◌≡◌, refl, ap, sym, ◌↔◌, true, List, [], ◌∷◌, ◌++◌, arith, ◌==◌, ==_iff, length,
  length-append, Bool-cases, inl, inr,
}
use mbed_ce_st87m.Codec.Hex.{starts_with}
use mbed_ce_st87m.Tls.Input.{marker, has_marker, looks_like_pem}

-- The marker, with something before it and something after it.
abbrev pub HasMarker : List ℕ → Type 0
HasMarker cs = (before : List ℕ) × (after : List ℕ) × (cs ≡ before ++ (marker ++ after))

starts_with-append : (ps cs : List ℕ) → starts_with ps (ps ++ cs) ≡ true
unfolding starts_with
starts_with-append [] cs = refl
starts_with-append (p ∷ ps) cs = rw (starts_with-append ps cs) (ground arith)

starts_with_splits :
    (ps cs : List ℕ) → starts_with ps cs ≡ true → (after : List ℕ) × (cs ≡ ps ++ after)
unfolding starts_with
starts_with_splits [] cs h = (cs, refl)
starts_with_splits (p ∷ ps) [] h = absurd (ground (arith, h))
starts_with_splits (p ∷ ps) (c ∷ cs) h = elim (Bool-cases (p == c)) [
  | inl same ↦
      (let (after, e) = starts_with_splits ps cs (ground (arith, h, same)) in
        (after, rw (sym ((==_iff p c).0 same), e)))
  | inr other ↦ absurd (ground (arith, h, other))
]

has_marker_finds : (before after : List ℕ) → has_marker (before ++ (marker ++ after)) ≡ true
unfolding has_marker
has_marker_finds [] after = ground (arith, starts_with-append marker after)
has_marker_finds (c ∷ before) after =
    ground (arith, has_marker_finds before after, length-append before (marker ++ after))

has_marker_sound : (cs : List ℕ) → has_marker cs ≡ true → HasMarker cs
unfolding has_marker
has_marker_sound [] h = absurd (ground (arith, h))
has_marker_sound (c ∷ cs) h = elim (Bool-cases (starts_with marker (c ∷ cs))) [
  | inl here ↦ (let (after, e) = starts_with_splits marker (c ∷ cs) here in ([], after, e))
  | inr there ↦
      (let (before, after, e) = has_marker_sound cs (ground (arith, h, there)) in
        (c ∷ before, after, ap (◌∷◌ c) e))
]

-- Data looks like PEM exactly when it has at least 16 bytes and "-----BEGIN" stands anywhere in it,
-- the very end included.
pub looks_like_pem_iff :
    (cs : List ℕ) → (looks_like_pem cs ≡ true) ↔ ((16 ≤ length cs) × HasMarker cs)
unfolding looks_like_pem
looks_like_pem_iff cs = (
  λ h. (ground (arith, h), has_marker_sound cs (ground (arith, h))),
  λ (long, (before, after, e)).
      rw e (ground (arith, has_marker_finds before after, ap length e, long)),
)
