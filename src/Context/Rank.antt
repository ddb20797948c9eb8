-- ===== src/Context/Rank.antt =====
-- Which of the defined contexts select_existing_cid chooses.
use mathlib.Core.Bool.{false≢true}
use mbed_ce_st87m.Common.{
  ℕ, zero, suc, ◌≤◌, ◌<◌, ◌≡◌, refl, ap, ◌⊎◌, inl, inr, Bool, true, false, ◌&&◌, Option, List, [],
  ◌∷◌, ◌++◌, arith, ltb, if◌then◌else◌, ℤ, pos, negsuc, minus_one, ◌==ℤ◌, below, All, Bool-cases,
}
use mbed_ce_st87m.At.{Trace, info_resp, Action, pure, next_line, each_line, ◌>>=◌}
use mbed_ce_st87m.Context.{Context, Outside, modem_of}
use mbed_ce_st87m.Context.Select.{read_line, context_line}
use mbed_ce_st87m.Context.Choice.{
  Line, Chosen, nothing_chosen, line_active, chosen_active, chosen_rank, prefer_rank, consider,
  is_wanted,
}

-- A cid within the array cid_active.
abbrev pub IsKnown : Line → Type 0
IsKnown l = below l.cid 7 ≡ true

module _ (wanted : Option (List ℕ)) (table : ℤ → Bool) where
  -- The loop over the lines, in their order.
  unfoldable pub choose : List Line → Chosen → Chosen
  choose [] best = best
  choose (l ∷ ls) best = choose ls (consider wanted table l best)

  abbrev rank : Line → ℕ
  rank l = prefer_rank wanted l.apn l.cid (line_active table l.cid)

  abbrev as_chosen : Line → Chosen
  as_chosen l = record { chosen = l.cid; pdp = l.pdp; apn = l.apn }

  -- A line compares with the chosen context as with the rank `r`.
  abbrev RanksAs : Chosen → ℕ → Type 0
  RanksAs best r =
      (l : Line) → ltb (rank l) (chosen_rank wanted table l.apn best.chosen) ≡ ltb (rank l) r

  nothing-RanksAs : RanksAs nothing_chosen 7
  unfolding chosen_rank
  nothing-RanksAs l = refl

  abbrev rank_of : Bool → Bool → Bool → Bool → ℕ
  rank_of five six active w =
      if five && active
      then 0
      else if six && active
      then 1
      else if active
      then 2
      else if w
      then 3
      else 10

  rank-inactive : (five six w : Bool) → rank_of five six false w ≡ (if w then 3 else 10)
  rank-inactive true true w = refl
  rank-inactive true false w = refl
  rank-inactive false true w = refl
  rank-inactive false false w = refl

  rank-active : (five six w w' : Bool) → rank_of five six true w ≡ rank_of five six true w'
  rank-active five six w w' = refl

  rank-active_below : (five six w : Bool) → rank_of five six true w < 3
  rank-active_below true six w = omega arith
  rank-active_below false true w = omega arith
  rank-active_below false false w = omega arith

  rank-agrees :
      (five six active w five' six' active' w' : Bool)
      → rank_of five' six' active' w' < 7
      → ltb (rank_of five six active w) (rank_of five' six' active' w)
        ≡ ltb (rank_of five six active w) (rank_of five' six' active' w')
  rank-agrees five six active w five' six' true w' h = refl
  rank-agrees five six active w five' six' false false h =
      absurd (omega (arith, rank-inactive five' six' false))
  rank-agrees five six true w five' six' false true h =
      rw (rank-inactive five' six' w, rank-inactive five' six' true)
        (ground (arith, rank-active_below five six w))
  rank-agrees five six false w five' six' false true h =
      rw (rank-inactive five' six' w, rank-inactive five' six' true, rank-inactive five six w)
        (ground arith)

  known_not_absent : (c : ℤ) → below c 7 ≡ true → (c ==ℤ minus_one) ≡ false
  known_not_absent (pos n) h = refl
  known_not_absent (negsuc n) h = absurd (false≢true h)

  known_active : (c : ℤ) → below c 7 ≡ true → chosen_active table c ≡ line_active table c
  known_active (pos n) h = ground arith
  known_active (negsuc n) h = refl

  line-RanksAs : (m : Line) → IsKnown m → rank m < 7 → RanksAs (as_chosen m) (rank m)
  unfolding chosen_rank prefer_rank
  line-RanksAs m known good l =
      rw (known_not_absent m.cid known, known_active m.cid known)
        (rank-agrees (l.cid ==ℤ pos 5) (l.cid ==ℤ pos 6) (line_active table l.cid)
          (is_wanted wanted l.apn) (m.cid ==ℤ pos 5) (m.cid ==ℤ pos 6) (line_active table m.cid)
          (is_wanted wanted m.apn) good)

  -- What the loop chooses, starting from a choice of rank `r`: that choice, if no line ranks
  -- better, or else the first of the lines that rank best.
  abbrev pub IsFirstBest : List Line → Chosen → ℕ → Chosen → Type 0
  IsFirstBest ls best r result =
      (result ≡ best) × All (λ l. r ≤ rank l) ls
      ⊎ ((before : List Line) × (line : Line) × (behind : List Line) × (ls
            ≡ before ++ (line ∷ behind))
          × (result ≡ as_chosen line)
          × (rank line < r)
          × All (λ l. rank line < rank l) before
          × All (λ l. rank line ≤ rank l) behind)

  choose-from :
      (ls : List Line) (best : Chosen) (r : ℕ)
      → RanksAs best r
      → r ≤ 7
      → All IsKnown ls
      → IsFirstBest ls best r (choose ls best)
  unfolding choose consider
  choose-from [] best r same fit known = inl (refl, tt)
  choose-from (l ∷ ls) best r same fit (k, known) = elim (Bool-cases (ltb (rank l) r)) [
    | inl e ↦
        let better : rank l < r = ground arith in
        rw (same l, e)
          (elim (choose-from ls (as_chosen l) (rank l) (line-RanksAs l k (omega arith))
            (omega arith) known) [
              | inl (q, all) ↦ inr ([], l, ls, refl, q, better, tt, all)
              | inr (before, line, behind, q, c, lt, b, a) ↦
                  inr (l ∷ before, line, behind, ap (◌∷◌ l) q, c, omega arith, (lt, b), a)
            ])
    | inr e ↦
        let worse : r ≤ rank l = ground arith in
        rw (same l, e)
          (elim (choose-from ls best r same fit known) [
            | inl (q, all) ↦ inl (q, (worse, all))
            | inr (before, line, behind, q, c, lt, b, a) ↦
                inr (l ∷ before, line, behind, ap (◌∷◌ l) q, c, lt, (omega arith, b), a)
          ])
  ]

  pub choose-IsFirstBest :
      (ls : List Line) → All IsKnown ls → IsFirstBest ls nothing_chosen 7 (choose ls nothing_chosen)
  choose-IsFirstBest ls known = choose-from ls nothing_chosen 7 nothing-RanksAs (omega arith) known

module _ {P : Type 0} (out : Outside P) where
  abbrev result_of : {A : Type 0} → Action (Context P) A → Context P → Trace → A
  result_of m c t = (m c t).0

  -- The lines that the loop reads.
  unfoldable pub lines_read : ℕ → Action (Context P) (List Line)
  lines_read zero = pure []
  lines_read (suc n) = do
    more ← next_line (modem_of out)
    elim more [ true ↦ (do l ← read_line out; ls ← lines_read n; pure (l ∷ ls)) | false ↦ pure [] ]

  loop-choose :
      (n : ℕ) (table : ℤ → Bool) (best : Chosen) (c : Context P) (t : Trace)
      → (each_line (modem_of out) n (context_line out table) best c t).0
        ≡ choose c.apn table (lines_read n c t).0 best
  unfolding each_line lines_read choose context_line read_line ◌>>=◌
  loop-choose zero table best c t = refl
  loop-choose (suc n) table best c t =
      go (out.env.modem.has_line (info_resp ∷ t)) (info_resp ∷ t) (λ b u. loop-choose n table b c u)
    where
      go :
          (more : Bool) (t' : Trace)
          → ((b : Chosen) (u : Trace)
              → (each_line (modem_of out) n (context_line out table) b c u).0
                ≡ choose c.apn table (lines_read n c u).0 b)
          → result_of
              (elim more [
                | true ↦ context_line out table best >>= λ b.
                    each_line (modem_of out) n (context_line out table) b
                | false ↦ pure best
              ])
              c
              t'
            ≡ choose c.apn table
                (result_of
                  (elim more [
                    | true ↦ read_line out >>= λ l. lines_read n >>= λ ls. pure (l ∷ ls)
                    | false ↦ pure []
                  ])
                  c
                  t')
                best
      go true t' rest = rest _ _
      go false t' rest = refl

  -- When every context that the modem lists has a cid from 0 to 6, the loop of select_existing_cid
  -- chooses none if each of them ranks 7 or worse, and otherwise the first of those that rank best:
  -- active cid 5, active cid 6, any active one, one with the wanted APN.
  pub select-IsFirstBest :
      (n : ℕ) (table : ℤ → Bool) (c : Context P) (t : Trace)
      → All IsKnown (lines_read n c t).0
      → IsFirstBest c.apn table
          (lines_read n c t).0
          nothing_chosen
          7
          (each_line (modem_of out) n (context_line out table) nothing_chosen c t).0
  select-IsFirstBest n table c t known =
      rw (loop-choose n table nothing_chosen c t)
        (choose-IsFirstBest c.apn table (lines_read n c t).0 known)
