-- ===== src/Locate/Blocks.antt =====
-- blockframe.c: block_for_pc, the search of the files and of the blocks of a file. What is read of a
-- file when its partial symtab is read in is a parameter, as is what lies behind a vector of blocks.
pub mod Innermost
use g.Base.{
  ℕ, zero, suc, ◌+◌, ◌-◌, ◌/◌, Bool, Option, none, some, List, [], ◌∷◌, ltb, leb, ◌&&◌,
  if◌then◌else◌, length, get_or,
}

-- `struct block`, without the block around it; F is the type of the function's symbol.
pub record Block (F : Type 0) : Type 0 where
  pub startaddr : ℕ
  pub endaddr : ℕ
  pub function : Option F

-- `struct partial_symtab`.
pub record PartialSymtab : Type 0 where
  pub textlow : ℕ
  pub texthigh : ℕ
  pub readin : Bool

abbrev pub contains : {F : Type 0} → Block F → ℕ → Bool
contains b pc = leb b.startaddr pc && ltb pc b.endaddr

-- What the search comes to; `badnews` is an exit.
pub data Answer (A : Type 0) : Type 0 where
  found : A → Answer A
  nothing badnews : Answer A

-- A file is the blocks of its blockvector.
module _ {F : Type 0} (behind : Block F) (psymtab_to_symtab : PartialSymtab → List (Block F)) where
  -- `BLOCKVECTOR_BLOCK (bl, i)`
  abbrev pub block : List (Block F) → ℕ → Block F
  block bl i = get_or bl i behind

  unfoldable pub in_symtabs : List (List (Block F)) → ℕ → Option (List (Block F))
  in_symtabs [] pc = none
  in_symtabs (bl ∷ symtabs) pc = if contains (block bl 0) pc then some bl else in_symtabs symtabs pc

  unfoldable pub in_psymtabs : List PartialSymtab → ℕ → Answer (List (Block F))
  in_psymtabs [] pc = Answer.nothing
  in_psymtabs (ps ∷ psymtabs) pc =
      if leb ps.textlow pc && ltb pc ps.texthigh
      then if ps.readin then Answer.badnews else Answer.found (psymtab_to_symtab ps)
      else in_psymtabs psymtabs pc

  -- The last block that starts before the address; the first argument bounds the rounds.
  unfoldable pub last_start : ℕ → List (Block F) → ℕ → ℕ → ℕ → Option ℕ
  last_start zero bl pc bot top = none
  last_start (suc fuel) bl pc bot top =
      let half = (top - bot + 1) / 2 in
      let starts = leb (block bl (bot + half)).startaddr pc in
      let bot' = if starts then bot + half else bot in
      let top' = if starts then top else bot + half in
      let rest = last_start fuel bl pc bot' top' in if ltb 1 (top - bot) then rest else some bot

  -- Backward from a block to one that ends after the address.
  unfoldable pub ends_after : List (Block F) → ℕ → ℕ → Answer (Block F)
  ends_after bl pc zero =
      if ltb pc (block bl 0).endaddr then Answer.found (block bl 0) else Answer.nothing
  ends_after bl pc (suc bot) =
      let rest = ends_after bl pc bot in
      if ltb pc (block bl (suc bot)).endaddr then Answer.found (block bl (suc bot)) else rest

  -- `none` is out of rounds.
  unfoldable pub in_blocks : List (Block F) → ℕ → Option (Answer (Block F))
  in_blocks bl pc = elim (last_start (length bl + 1) bl pc 0 (length bl)) [
    | none ↦ none
    | some bot ↦ some (ends_after bl pc bot)
  ]

  unfoldable pub block_for_pc :
      List (List (Block F)) → List PartialSymtab → ℕ → Option (Answer (Block F))
  block_for_pc symtabs psymtabs pc = elim (in_symtabs symtabs pc) [
    | some bl ↦ in_blocks bl pc
    | none ↦ elim (in_psymtabs psymtabs pc) [
      | Answer.found bl ↦ in_blocks bl pc
      | Answer.nothing ↦ some Answer.nothing
      | Answer.badnews ↦ some Answer.badnews
    ]
  ]
