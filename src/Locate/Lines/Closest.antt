-- ===== src/Locate/Lines/Closest.antt =====
-- symtab.c: what find_line_common finds in a line table.
use g.Base.{
  ℕ, zero, suc, ◌+◌, ◌≤◌, ◌<◌, ◌≡◌, ◌≢◌, ◌⊎◌, inl, inr, refl, sym, subst, Bool, true, false, some,
  ◌==◌, ltb, ◌&&◌, ◌||◌, if◌then◌else◌, length, arith, Bool-cases,
}
use g.Base.Int.{ℤ, pos, negsuc}
use g.Locate.Lines.{Linetable, item, look, find_line_common}

module _ (l : Linetable) (lineno : ℕ) where
  -- The best of the items before an index, none of which is the line.
  pub data Best (i : ℕ) : ℤ → ℕ → Type 0 where
    nothing_yet : ((j : ℕ) → j < i → (item l j).line < lineno) → Best i (negsuc 0) 0
    closest :
        (k : ℕ)
        → k < i
        → lineno < (item l k).line
        → ((j : ℕ) → j < i → (item l j).line < lineno ⊎ ((item l k).line ≤ (item l j).line))
        → Best i (pos k) (item l k).line

  -- The first item of the line; or, where there is none, one of the smallest later line, or -1.
  pub data Closest : ℤ → Bool → Type 0 where
    exact :
        (k : ℕ)
        → k < length l
        → (item l k).line ≡ lineno
        → ((j : ℕ) → j < k → (item l j).line ≢ lineno)
        → Closest (pos k) true
    later :
        (k : ℕ)
        → k < length l
        → lineno < (item l k).line
        → ((j : ℕ) → j < length l → (item l j).line < lineno ⊎ ((item l k).line ≤ (item l j).line))
        → Closest (pos k) false
    none_found : ((j : ℕ) → j < length l → (item l j).line < lineno) → Closest (negsuc 0) false

  below_suc : (j i : ℕ) → j < i + 1 → (j < i) ⊎ (j ≡ i)
  below_suc j i h = omega arith

  line_cases : (a : ℕ) → (a ≡ lineno) ⊎ ((a < lineno) ⊎ (lineno < a))
  line_cases a = omega arith

  not_line : (i : ℕ) (b : ℤ) (best : ℕ) → Best i b best → (j : ℕ) → j < i → (item l j).line ≢ lineno
  not_line i _ _ (nothing_yet h) j hj e = let below = h j hj in absurd (omega arith)
  not_line i _ _ (closest k hk hl h) j hj e = elim (h j hj) [
    | inl below ↦ absurd (omega arith)
    | inr above ↦ absurd (omega arith)
  ]

  -- The step past an item of a smaller line.
  skip-Best :
      (i : ℕ) (b : ℤ) (best : ℕ) → (item l i).line < lineno → Best i b best → Best (i + 1) b best
  skip-Best i _ _ s (nothing_yet h) = nothing_yet (λ j hj. elim (below_suc j i hj) [
    | inl less ↦ h j less
    | inr same ↦ subst (λ t. (item l t).line < lineno) (sym same) s
  ])
  skip-Best i _ _ s (closest k hk hl h) = closest k (omega arith) hl (λ j hj.
      elim (below_suc j i hj) [
        | inl less ↦ h j less
        | inr same ↦ inl (subst (λ t. (item l t).line < lineno) (sym same) s)
      ])

  -- `best` and its index after an item of a later line.
  abbrev improves : ℕ → ℕ → Bool
  improves i best = ltb lineno (item l i).line && (best == 0 || ltb (item l i).line best)

  improved-Best :
      (i : ℕ) (b : ℤ) (best : ℕ)
      → lineno < (item l i).line
      → improves i best ≡ true
      → Best i b best
      → Best (i + 1) (pos i) (item l i).line
  improved-Best i _ _ s e (nothing_yet h) = closest i (omega arith) s (λ j hj.
      elim (below_suc j i hj) [
        | inl less ↦ inl (h j less)
        | inr same ↦ inr (subst (λ t. (item l i).line ≤ (item l t).line) (sym same) (omega arith))
      ])
  improved-Best i _ _ s e (closest k hk hl h) =
      let less_line : (item l i).line < (item l k).line = ground (arith, e, hl, s) in
      closest i (omega arith) s (λ j hj. elim (below_suc j i hj) [
        | inl less ↦ elim (h j less) [ inl below ↦ inl below | inr above ↦ inr (omega arith) ]
        | inr same ↦ inr (subst (λ t. (item l i).line ≤ (item l t).line) (sym same) (omega arith))
      ])

  kept-Best :
      (i : ℕ) (b : ℤ) (best : ℕ)
      → lineno < (item l i).line
      → improves i best ≡ false
      → Best i b best
      → Best (i + 1) b best
  kept-Best i _ _ s e (nothing_yet h) =
      let better : improves i 0 ≡ true = ground (arith, s) in absurd (cc)
  kept-Best i _ _ s e (closest k hk hl h) =
      let no_less : (item l k).line ≤ (item l i).line = ground (arith, e, hl, s) in
      closest k (omega arith) hl (λ j hj. elim (below_suc j i hj) [
        | inl less ↦ h j less
        | inr same ↦ inr (subst (λ t. (item l k).line ≤ (item l t).line) (sym same) no_less)
      ])

  no_improvement : (i best : ℕ) → (item l i).line < lineno → improves i best ≡ false
  no_improvement i best s = ground (arith, s)

  step-Best :
      (i : ℕ) (b : ℤ) (best : ℕ)
      → ((item l i).line < lineno) ⊎ (lineno < (item l i).line)
      → Best i b best
      → Best
          (i + 1)
          (if improves i best then pos i else b)
          (if improves i best then (item l i).line else best)
  step-Best i b best (inl s) h = rw (no_improvement i best s) (skip-Best i b best s h)
  step-Best i b best (inr s) h = elim (Bool-cases (improves i best)) [
    | inl e ↦ rw e (improved-Best i b best s e h)
    | inr e ↦ rw e (kept-Best i b best s e h)
  ]

  end-Closest : (i : ℕ) (b : ℤ) (best : ℕ) → i ≡ length l → Best i b best → Closest b false
  end-Closest i _ _ e (nothing_yet h) = none_found (λ j hj. h j (omega arith))
  end-Closest i _ _ e (closest k hk hl h) = later k (omega arith) hl (λ j hj. h j (omega arith))

  look-Closest :
      (left i : ℕ) (b : ℤ) (best : ℕ)
      → i + left ≡ length l
      → Best i b best
      → Closest (look l lineno left i b best).0 (look l lineno left i b best).1
  unfolding look
  look-Closest zero i b best e h = end-Closest i b best (omega arith) h
  look-Closest (suc left) i b best e h = elim (line_cases (item l i).line) [
    | inl q ↦
        let same : ((item l i).line == lineno) ≡ true = ground (arith, q) in
        rw same (exact i (omega arith) q (not_line i b best h))
    | inr d ↦
        let differs : ((item l i).line == lineno) ≡ false = ground (arith, d) in
        rw differs (look-Closest left (i + 1) _ _ (omega arith) (step-Best i b best d h))
  ]

-- For a line from 1 on, find_line_common sets the flag of an exact match and gives the first item of
-- the line; or, where no item is of the line, it clears the flag and gives an item of the smallest
-- later line, or -1 where all items are of earlier lines.
pub find_line_common-Closest :
    (l : Linetable) (n : ℕ)
    → (exact_match : Bool) × ((find_line_common l (pos (suc n))).1 ≡ some exact_match)
      × Closest l (suc n) (find_line_common l (pos (suc n))).0 exact_match
unfolding find_line_common
find_line_common-Closest l n = (
  (look l (suc n) (length l) 0 (negsuc 0) 0).1,
  refl,
  look-Closest l (suc n) (length l) 0 (negsuc 0) 0 (omega arith)
      (nothing_yet (λ j hj. absurd (omega arith))),
)
