-- ===== src/Locate/Sources/Starts.antt =====
-- symtab.c: the best line of the files that share a vector of blocks.
use g.Base.{
  ℕ, ◌≤◌, ◌<◌, ◌≡◌, ◌≢◌, ◌⊎◌, inl, inr, refl, sym, ap, subst, ◌∙◌, Option, none, some, List, [],
  ◌∷◌, ◌==◌, ltb, arith, Bool-cases,
}
use g.Locate.Lines.{LinetableEntry}
use g.Locate.Sources.Items.{
  Among, Ordered, Passed, as_before, an_item, Bounds, scan-Passed, scan-Bounds, scan-end,
}
use g.Locate.Sources.{Symtab, BestLine, scan, end_at, take_best, best_of}

-- The files at the head of the list that have the vector of blocks.
pub data Shares (bv : ℕ) (s : Symtab) : List Symtab → Type 0 where
  this : (ss : List Symtab) → s.blockvector ≡ bv → Shares bv s (s ∷ ss)
  next :
      (r : Symtab) (ss : List Symtab) → r.blockvector ≡ bv → Shares bv s ss → Shares bv s (r ∷ ss)

-- Every table is in the order of its addresses.
pub data AllOrdered : List Symtab → Type 0 where
  none_left : AllOrdered []
  one_more :
      (s : Symtab) (ss : List Symtab) → Ordered 0 s.linetable → AllOrdered ss → AllOrdered (s ∷ ss)

module _ (pc bv : ℕ) where
  -- A line that starts at or before the address, above a bound, in one of the files.
  pub data IsLine (low : ℕ) (ss : List Symtab) (b : BestLine) : Type 0 where
    is_line :
        (s : Symtab) (x : LinetableEntry)
        → Shares bv s ss
        → Among x s.linetable
        → b.best_symtab ≡ some s
        → b.best_line ≡ x.line
        → b.best_pc ≡ x.pc
        → low < x.pc
        → x.pc ≤ pc
        → (b.best_end ≡ 0) ⊎ (pc < b.best_end)
        → IsLine low ss b

  -- No item of the files that is not after the address starts later.
  abbrev pub Nearest : List Symtab → ℕ → Type 0
  Nearest ss m =
      (s : Symtab) (y : LinetableEntry)
      → Shares bv s ss
      → Among y s.linetable
      → y.pc ≤ pc
      → y.pc ≤ m

  -- What one file makes of the best line.
  abbrev Takes : Symtab → List Symtab → BestLine → BestLine → Type 0
  Takes s ss b b' =
      ((b' ≡ b) ⊎ IsLine b.best_pc (s ∷ ss) b')
      × (b.best_pc ≤ b'.best_pc)
      × ((y : LinetableEntry) → Among y s.linetable → y.pc ≤ pc → y.pc ≤ b'.best_pc)

  pair-Takes :
      (s : Symtab) (ss : List Symtab) (b : BestLine) (q stop : Option LinetableEntry)
      → s.blockvector ≡ bv
      → Passed pc none s.linetable q
      → Bounds pc s.linetable q
      → (end_at stop ≡ 0) ⊎ (pc < end_at stop)
      → Takes s ss b (take_best s (q, stop) b)
  pair-Takes s ss b _ stop e as_before f h =
      (inl refl, omega arith, (λ y m g. let (z, q, k) = f y m g in absurd (cc)))
  pair-Takes s ss b _ stop e (an_item x m k) f h =
      let below : (y : LinetableEntry) → Among y s.linetable → y.pc ≤ pc → y.pc ≤ x.pc =
        λ y m' g. let (z, q, l) = f y m' g in let same : x.pc ≡ z.pc = ap end_at q in omega arith in
      elim (Bool-cases (ltb b.best_pc x.pc)) [
        | inl t ↦
            let closer : b.best_pc < x.pc = ground (arith, t) in
            rw t (inr (is_line s x (this ss e) m refl refl refl closer k h), omega arith, below)
        | inr t ↦
            let no_closer : x.pc ≤ b.best_pc = ground (arith, t) in
            rw t (inl refl, omega arith, (λ y m' g. let l = below y m' g in omega arith))
      ]

  take_best-Takes :
      (s : Symtab) (ss : List Symtab) (b : BestLine)
      → s.blockvector ≡ bv
      → Ordered 0 s.linetable
      → Takes s ss b (take_best s (scan pc s.linetable none) b)
  take_best-Takes s ss b e o =
      let r = scan pc s.linetable none in
      pair-Takes s ss b r.0 r.1 e (scan-Passed pc s.linetable none) (scan-Bounds pc s.linetable 0 o)
        (scan-end pc s.linetable none)

  past :
      (s : Symtab) (ss : List Symtab) (low low' : ℕ) (b : BestLine)
      → s.blockvector ≡ bv
      → low ≤ low'
      → IsLine low' ss b
      → IsLine low (s ∷ ss) b
  past s ss low low' b e h (is_line r x m a p q t u v w) =
      is_line r x (next s ss e m) a p q t (omega arith) v w

  -- The best line after the files, from the one before them.
  abbrev pub Ends : List Symtab → BestLine → BestLine → Type 0
  Ends ss b b' =
      ((b' ≡ b) ⊎ IsLine b.best_pc ss b') × (b.best_pc ≤ b'.best_pc) × Nearest ss b'.best_pc

  Ends-step :
      (s : Symtab) (ss : List Symtab) (b b1 b' : BestLine)
      → s.blockvector ≡ bv
      → Takes s ss b b1
      → Ends ss b1 b'
      → Ends (s ∷ ss) b b'
  Ends-step s ss b b1 b' e (t, h, f) (t', h', f') = (line t t', omega arith, nearest)
    where
      line :
          ((b1 ≡ b) ⊎ IsLine b.best_pc (s ∷ ss) b1)
          → ((b' ≡ b1) ⊎ IsLine b1.best_pc ss b')
          → (b' ≡ b) ⊎ IsLine b.best_pc (s ∷ ss) b'
      line _ (inr l) = inr (past s ss b.best_pc b1.best_pc b' e h l)
      line (inl p) (inl q) = inl (q ∙ p)
      line (inr l) (inl q) = inr (subst (IsLine b.best_pc (s ∷ ss)) (sym q) l)

      nearest : Nearest (s ∷ ss) b'.best_pc
      nearest _ y (this _ _) m g = let l = f y m g in omega arith
      nearest r y (next _ _ _ z) m g = f' r y z m g

  none_shares : (s : Symtab) (ss : List Symtab) (m : ℕ) → s.blockvector ≢ bv → Nearest (s ∷ ss) m
  none_shares s ss m h _ y (this _ e) k g = absurd (h e)
  none_shares s ss m h r y (next _ _ e _) k g = absurd (h e)

  pub best_of-Ends :
      (ss : List Symtab) (b : BestLine) → AllOrdered ss → Ends ss b (best_of pc bv ss b)
  unfolding best_of
  best_of-Ends [] b o = (inl refl, omega arith, (λ s y z m g. elim z [ ]))
  best_of-Ends (s ∷ ss) b (one_more _ _ o os) = elim (Bool-cases (s.blockvector == bv)) [
    | inl t ↦
        let same : s.blockvector ≡ bv = ground (arith, t) in
        let b1 = take_best s (scan pc s.linetable none) b in
        rw t (Ends-step s ss b b1 _ same (take_best-Takes s ss b same o) (best_of-Ends ss b1 os))
    | inr t ↦
        let other : s.blockvector ≢ bv = ground (arith, t) in
        rw t (inl refl, omega arith, none_shares s ss b.best_pc other)
  ]
