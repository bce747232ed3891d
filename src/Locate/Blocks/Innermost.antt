-- ===== src/Locate/Blocks/Innermost.antt =====
-- blockframe.c: the block that block_for_pc finds in a file whose blocks are in the order of their
-- start.
use g.Base.{
  ℕ, zero, suc, ◌+◌, ◌-◌, ◌/◌, ◌≤◌, ◌<◌, ◌≡◌, ◌⊎◌, inl, inr, refl, sym, subst, ◌∙◌, true, false,
  Option, none, some, List, [], ◌∷◌, ◌++◌, ltb, leb, length, arith, Bool-cases,
}
use g.Locate.Blocks.{
  Block, PartialSymtab, contains, Answer, block, in_symtabs, last_start, ends_after, in_blocks,
  block_for_pc,
}

le_cases : (a b : ℕ) → (a ≤ b) ⊎ (b < a)
le_cases a b = omega arith

top_cases : (j n : ℕ) → j ≤ suc n → (j ≤ n) ⊎ (j ≡ suc n)
top_cases j n h = omega arith

module _ {F : Type 0} (behind : Block F) (psymtab_to_symtab : PartialSymtab → List (Block F)) where
  abbrev at : List (Block F) → ℕ → Block F
  at bl i = block behind psymtab_to_symtab bl i

  abbrev pub IsSorted : List (Block F) → Type 0
  IsSorted bl = (i j : ℕ) → i ≤ j → j < length bl → (at bl i).startaddr ≤ (at bl j).startaddr

  -- The block starts before the address, and the next one behind it.
  abbrev Last : List (Block F) → ℕ → ℕ → Type 0
  Last bl pc k =
      (k < length bl)
      × ((at bl k).startaddr ≤ pc)
      × ((k + 1 ≡ length bl) ⊎ (pc < (at bl (k + 1)).startaddr))

  abbrev Stops : List (Block F) → ℕ → Option ℕ → Type 0
  Stops bl pc r = (k : ℕ) × (r ≡ some k) × Last bl pc k

  last_start-Last :
      (fuel : ℕ) (bl : List (Block F)) (pc bot top : ℕ)
      → bot < top
      → top ≤ length bl
      → top < bot + fuel
      → (at bl bot).startaddr ≤ pc
      → (top ≡ length bl) ⊎ (pc < (at bl top).startaddr)
      → Stops bl pc (last_start behind psymtab_to_symtab fuel bl pc bot top)
  unfolding last_start
  last_start-Last zero bl pc bot top h1 h2 h3 hs he = absurd (omega arith)
  last_start-Last (suc fuel) bl pc bot top h1 h2 h3 hs he =
      let half = (top - bot + 1) / 2 in
      elim (le_cases (top - bot) 1) [
        | inl small ↦
            let stop : ltb 1 (top - bot) ≡ false = ground (arith, small) in
            let next : top ≡ bot + 1 = omega arith in
            rw stop (
              bot,
              refl,
              (omega arith, hs, subst (λ t. (t ≡ length bl) ⊎ (pc < (at bl t).startaddr)) next he),
            )
        | inr big ↦
            let go : ltb 1 (top - bot) ≡ true = ground (arith, big) in
            elim (le_cases (at bl (bot + half)).startaddr pc) [
              | inl s ↦
                  let starts : leb (at bl (bot + half)).startaddr pc ≡ true = ground (arith, s) in
                  rw (go, starts)
                    (last_start-Last fuel bl pc (bot + half) top (omega arith) h2 (omega arith) s
                      he)
              | inr n ↦
                  let starts : leb (at bl (bot + half)).startaddr pc ≡ false = ground (arith, n) in
                  rw (go, starts)
                    (last_start-Last fuel bl pc bot (bot + half) (omega arith) (omega arith)
                      (omega arith) hs (inr n))
            ]
      ]

  -- What the backward search finds ends behind the address, and nothing it passed does.
  abbrev Backward : List (Block F) → ℕ → ℕ → Answer (Block F) → Type 0
  Backward bl pc bot r =
      (k : ℕ) × (r ≡ Answer.found (at bl k))
      × (k ≤ bot)
      × (pc < (at bl k).endaddr)
      × ((j : ℕ) → k < j → j ≤ bot → (at bl j).endaddr ≤ pc)

  ends_after-Backward :
      (bl : List (Block F)) (pc bot : ℕ)
      → pc < (at bl 0).endaddr
      → Backward bl pc bot (ends_after behind psymtab_to_symtab bl pc bot)
  unfolding ends_after
  ends_after-Backward bl pc zero h =
      let ends : ltb pc (at bl 0).endaddr ≡ true = ground (arith, h) in
      rw ends (0, refl, omega arith, h, (λ j h1 h2. absurd (omega arith)))
  ends_after-Backward bl pc (suc bot) h = elim (le_cases (at bl (suc bot)).endaddr pc) [
    | inr l ↦
        let ends : ltb pc (at bl (suc bot)).endaddr ≡ true = ground (arith, l) in
        rw ends (suc bot, refl, omega arith, l, (λ j h1 h2. absurd (omega arith)))
    | inl g ↦
        let ends : ltb pc (at bl (suc bot)).endaddr ≡ false = ground (arith, g) in
        let (k, e, hk, hp, hj) = ends_after-Backward bl pc bot h in
        rw ends (
          k,
          e,
          omega arith,
          hp,
          (λ j h1 h2. elim (top_cases j bot h2) [
            | inl le ↦ hj j h1 le
            | inr t ↦ subst (λ i. (at bl i).endaddr ≤ pc) (sym t) g
          ]),
        )
  ]

  -- The block contains the address, and no later one does.
  abbrev pub Innermost : List (Block F) → ℕ → ℕ → Type 0
  Innermost bl pc k =
      (k < length bl)
      × (contains (at bl k) pc ≡ true)
      × ((j : ℕ) → k < j → j < length bl → contains (at bl j) pc ≡ false)

  contains-bounds :
      (b : Block F) (pc : ℕ) → contains b pc ≡ true → (b.startaddr ≤ pc) × (pc < b.endaddr)
  contains-bounds b pc e = (ground (arith, e), ground (arith, e))

  after-Last :
      (bl : List (Block F)) (pc bot j : ℕ)
      → IsSorted bl
      → bot < j
      → j < length bl
      → (bot + 1 ≡ length bl) ⊎ (pc < (at bl (bot + 1)).startaddr)
      → pc < (at bl j).startaddr
  after-Last bl pc bot j s h1 h2 (inl e) = absurd (omega arith)
  after-Last bl pc bot j s h1 h2 (inr l) = let later = s (bot + 1) j (omega arith) h2 in omega arith

  in_blocks-found :
      (bl : List (Block F)) (pc bot : ℕ) (r : Answer (Block F))
      → last_start behind psymtab_to_symtab (length bl + 1) bl pc 0 (length bl) ≡ some bot
      → ends_after behind psymtab_to_symtab bl pc bot ≡ r
      → in_blocks behind psymtab_to_symtab bl pc ≡ some r
  unfolding in_blocks
  in_blocks-found bl pc bot r e e' = rw (in_blocks, e, e') refl

  in_blocks-Innermost :
      (bl : List (Block F)) (pc : ℕ)
      → 0 < length bl
      → IsSorted bl
      → contains (at bl 0) pc ≡ true
      → (k : ℕ) × (in_blocks behind psymtab_to_symtab bl pc ≡ some (Answer.found (at bl k)))
        × Innermost bl pc k
  in_blocks-Innermost bl pc n s c =
      let (hs, he) = contains-bounds (at bl 0) pc c in
      let (bot, e, last) =
        last_start-Last (length bl + 1) bl pc 0 (length bl) n (omega arith) (omega arith) hs
          (inl refl) in
      let (hb, hl, hn) = last in
      let (k, e', hk, hp, hj) = ends_after-Backward bl pc bot he in
      let lower = s k bot hk hb in
      (
        k,
        in_blocks-found bl pc bot (Answer.found (at bl k)) e e',
        (
          omega arith,
          ground (arith, lower, hl, hp),
          (λ j h1 h2. elim (le_cases j bot) [
            | inl le ↦ let over = hj j h1 le in ground (arith, over)
            | inr g ↦ let later = after-Last bl pc bot j s g h2 hn in ground (arith, later)
          ]),
        ),
      )

  in_symtabs-append :
      (before : List (List (Block F))) (bl : List (Block F)) (rest : List (List (Block F))) (pc : ℕ)
      → in_symtabs behind psymtab_to_symtab before pc ≡ none
      → contains (at bl 0) pc ≡ true
      → in_symtabs behind psymtab_to_symtab (before ++ bl ∷ rest) pc ≡ some bl
  unfolding in_symtabs
  in_symtabs-append [] bl rest pc e c = rw c refl
  in_symtabs-append (b ∷ before) bl rest pc e c = elim (Bool-cases (contains (at b 0) pc)) [
    | inl t ↦
        let hit : in_symtabs behind psymtab_to_symtab (b ∷ before) pc ≡ some b = rw t refl in
        absurd (cc)
    | inr f ↦
        let miss : in_symtabs behind psymtab_to_symtab (b ∷ before) pc
            ≡ in_symtabs behind psymtab_to_symtab before pc =
          rw f refl in
        rw f (in_symtabs-append before bl rest pc (sym miss ∙ e) c)
  ]

  -- Where a file's first block contains the address, no file before it has one that does, and its
  -- blocks are in the order of their start: block_for_pc finds a block of that file which contains
  -- the address, and none of the later blocks of the file contains it.
  pub block_for_pc-Innermost :
      (before : List (List (Block F))) (bl : List (Block F)) (rest : List (List (Block F)))
      (psymtabs : List PartialSymtab) (pc : ℕ)
      → in_symtabs behind psymtab_to_symtab before pc ≡ none
      → 0 < length bl
      → IsSorted bl
      → contains (at bl 0) pc ≡ true
      → (k : ℕ) × (block_for_pc behind psymtab_to_symtab (before ++ bl ∷ rest) psymtabs pc
          ≡ some (Answer.found (at bl k)))
        × Innermost bl pc k
  unfolding block_for_pc
  block_for_pc-Innermost before bl rest psymtabs pc e n s c =
      rw (block_for_pc, in_symtabs-append before bl rest pc e c) (in_blocks-Innermost bl pc n s c)
