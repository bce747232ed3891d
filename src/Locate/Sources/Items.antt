-- ===== src/Locate/Sources/Items.antt =====
-- symtab.c: the item that the loop of find_pc_line over a line table ends with.
use g.Base.{
  ℕ, ◌≤◌, ◌<◌, ◌≡◌, ◌⊎◌, inl, inr, refl, Option, none, some, [], ◌∷◌, leb, arith, Bool-cases,
}
use g.Locate.Lines.{LinetableEntry, Linetable}
use g.Locate.Sources.{scan, end_at}

-- An item is in a table.
pub data Among (x : LinetableEntry) : Linetable → Type 0 where
  first : (xs : Linetable) → Among x (x ∷ xs)
  later : (y : LinetableEntry) (xs : Linetable) → Among x xs → Among x (y ∷ xs)

-- The items are in the order of their addresses, none below a bound.
pub data Ordered : ℕ → Linetable → Type 0 where
  ends : (low : ℕ) → Ordered low []
  goes_on :
      (low : ℕ) (x : LinetableEntry) (xs : Linetable)
      → low ≤ x.pc
      → Ordered x.pc xs
      → Ordered low (x ∷ xs)

Ordered-above :
    (low : ℕ) (xs : Linetable) (y : LinetableEntry) → Ordered low xs → Among y xs → low ≤ y.pc
Ordered-above _ _ y (ends low) m = elim m [ ]
Ordered-above low _ y (goes_on _ _ xs h o) (first _) = h
Ordered-above low _ y (goes_on _ x xs h o) (later _ _ m) =
    let above = Ordered-above x.pc xs y o m in omega arith

module _ (pc : ℕ) where
  -- An item that was passed, if any: it is of the table or the one before, and not after the address.
  pub data Passed (prev : Option LinetableEntry) (xs : Linetable)
      : Option LinetableEntry → Type 0 where
    as_before : Passed prev xs prev
    an_item : (x : LinetableEntry) → Among x xs → x.pc ≤ pc → Passed prev xs (some x)

  item_after :
      (x : LinetableEntry) (xs : Linetable) (prev : Option LinetableEntry)
      → x.pc ≤ pc
      → (q : Option LinetableEntry) → Passed (some x) xs q
      → Passed prev (x ∷ xs) q
  item_after x xs prev h _ as_before = an_item x (first xs) h
  item_after x xs prev h _ (an_item z m k) = an_item z (later x xs m) k

  -- The items that are not after the address end with the one that was passed.
  abbrev pub Bounds : Linetable → Option LinetableEntry → Type 0
  Bounds xs q =
      (y : LinetableEntry)
      → Among y xs
      → y.pc ≤ pc
      → (x : LinetableEntry) × (q ≡ some x) × (y.pc ≤ x.pc)

  pub scan-Passed :
      (xs : Linetable) (prev : Option LinetableEntry) → Passed prev xs (scan pc xs prev).0
  unfolding scan
  scan-Passed [] prev = as_before
  scan-Passed (x ∷ xs) prev = elim (Bool-cases (leb x.pc pc)) [
    | inl e ↦
        let below : x.pc ≤ pc = ground (arith, e) in
        rw e (item_after x xs prev below _ (scan-Passed xs (some x)))
    | inr e ↦ rw e as_before
  ]

  -- An item that is not before another is not after the address, where the other is.
  abbrev Reached : Linetable → ℕ → Option LinetableEntry → Type 0
  Reached xs low q =
      (x : LinetableEntry) × (q ≡ some x)
      × (low ≤ x.pc)
      × ((y : LinetableEntry) → Among y xs → y.pc ≤ pc → y.pc ≤ x.pc)

  last_after :
      (x : LinetableEntry) (xs : Linetable) (low : ℕ) (q : Option LinetableEntry)
      → low ≤ x.pc
      → Reached xs x.pc q
      → Reached (x ∷ xs) low q
  last_after x xs low q h (z, e, k, f) = (z, e, omega arith, (λ y m g. reach y m g))
    where
      reach : (y : LinetableEntry) → Among y (x ∷ xs) → y.pc ≤ pc → y.pc ≤ z.pc
      reach y (first _) g = k
      reach y (later _ _ m) g = f y m g

  starts_above :
      (x : LinetableEntry) (xs : Linetable) (low : ℕ)
      → Ordered low (x ∷ xs)
      → pc < x.pc
      → (y : LinetableEntry) → Among y (x ∷ xs)
      → pc < y.pc
  starts_above x xs low (goes_on _ _ _ h o) k y (first _) = k
  starts_above x xs low (goes_on _ _ _ h o) k y (later _ _ m) =
      let above = Ordered-above x.pc xs y o m in omega arith

  scan-Reached :
      (xs : Linetable) (w : LinetableEntry)
      → Ordered w.pc xs
      → Reached xs w.pc (scan pc xs (some w)).0
  unfolding scan
  scan-Reached [] w o = (w, refl, omega arith, (λ y m g. elim m [ ]))
  scan-Reached (x ∷ xs) w (goes_on _ _ _ h o) = elim (Bool-cases (leb x.pc pc)) [
    | inl e ↦ rw e (last_after x xs w.pc _ h (scan-Reached xs x o))
    | inr e ↦
        let above : pc < x.pc = ground (arith, e) in
        rw e (
          w,
          refl,
          omega arith,
          (λ y m g.
              let after = starts_above x xs w.pc (goes_on _ _ _ h o) above y m in
              absurd (omega arith)),
        )
  ]

  pub scan-Bounds : (xs : Linetable) (low : ℕ) → Ordered low xs → Bounds xs (scan pc xs none).0
  unfolding scan
  scan-Bounds [] low o y m g = elim m [ ]
  scan-Bounds (x ∷ xs) low (goes_on _ _ _ h o) y m g = elim (Bool-cases (leb x.pc pc)) [
    | inl e ↦
        let (z, q, k, f) = last_after x xs x.pc _ (omega arith) (scan-Reached xs x o) in
        rw e (z, q, f y m g)
    | inr e ↦
        let above : pc < x.pc = ground (arith, e) in
        let after = starts_above x xs low (goes_on _ _ _ h o) above y m in absurd (omega arith)
  ]

  -- Where the loop ends early, it ends after the address.
  pub scan-end :
      (xs : Linetable) (prev : Option LinetableEntry)
      → (end_at (scan pc xs prev).1 ≡ 0) ⊎ (pc < end_at (scan pc xs prev).1)
  unfolding scan
  scan-end [] prev = inl refl
  scan-end (x ∷ xs) prev = elim (Bool-cases (leb x.pc pc)) [
    | inl e ↦ rw e (scan-end xs (some x))
    | inr e ↦ let above : pc < x.pc = ground (arith, e) in rw e (inr above)
  ]
