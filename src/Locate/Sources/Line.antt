-- ===== src/Locate/Sources/Line.antt =====
-- symtab.c: the line that find_pc_line returns.
use g.Base.{
  ℕ, ◌≤◌, ◌<◌, ◌≡◌, ◌⊎◌, inl, inr, refl, ap, subst, Bool, some, List, [], ◌∷◌, ◌==◌, ltb, ◌&&◌,
  ◌||◌, arith, Bool-cases,
}
use g.Locate.Blocks.{Block, PartialSymtab, contains}
use g.Locate.Lines.{LinetableEntry, Linetable}
use g.Locate.Sources.Items.{Among}
use g.Locate.Sources.Starts.{Shares, AllOrdered, one_more, is_line, Nearest, Ends, best_of-Ends}
use g.Locate.Sources.{
  Symtab, BestLine, AltLine, SourceLine, take_alt, best_of, alt_of, no_best, no_alt, line_value,
  line_in, end_pc_of, symtab_of, find_pc_symtab, looked_up, find_pc_line, find_pc_psymtab,
  line_of_answer, or_read_in, read_in,
}

module _ (pc bv : ℕ) where
  abbrev pub IsAfter : ℕ → Type 0
  IsAfter p = (p ≡ 0) ⊎ (pc < p)

  take_alt-IsAfter :
      (s : Symtab) (items : Linetable) (a : AltLine)
      → IsAfter a.alt_pc
      → IsAfter (take_alt pc s items a).alt_pc
  take_alt-IsAfter s [] a h = h
  take_alt-IsAfter s (first ∷ items) a h =
      elim (Bool-cases (ltb pc first.pc && (a.alt_pc == 0 || ltb first.pc a.alt_pc))) [
        | inl t ↦ let after : pc < first.pc = ground (arith, t) in rw t (inr after)
        | inr t ↦ rw t h
      ]

  alt_of-IsAfter :
      (ss : List Symtab) (a : AltLine) → IsAfter a.alt_pc → IsAfter (alt_of pc bv ss a).alt_pc
  unfolding alt_of
  alt_of-IsAfter [] a h = h
  alt_of-IsAfter (s ∷ ss) a h = elim (Bool-cases (s.blockvector == bv)) [
    | inl t ↦ rw t (alt_of-IsAfter ss _ (take_alt-IsAfter s s.linetable a h))
    | inr t ↦ rw t h
  ]

  -- A line that starts at the last address of the files that is not after the one looked up, and ends
  -- after it; or, where no item is before it but at 0, an end that is after it, if any.
  pub data LineIn (ss : List Symtab) (block_end : ℕ) (r : SourceLine) : Type 0 where
    starts :
        (s : Symtab) (x : LinetableEntry)
        → Shares bv s ss
        → Among x s.linetable
        → r.symtab ≡ some s
        → r.line ≡ x.line
        → r.pc ≡ x.pc
        → x.pc ≤ pc
        → pc < r.end_pc
        → Nearest pc bv ss x.pc
        → LineIn ss block_end r
    no_start : Nearest pc bv ss 0 → r.pc ≡ block_end → IsAfter r.end_pc → LineIn ss block_end r

  end_pc_of-after :
      (b : BestLine) (a : AltLine) (block_end : ℕ)
      → pc < block_end
      → IsAfter b.best_end
      → IsAfter a.alt_pc
      → pc < end_pc_of b a block_end
  end_pc_of-after b a block_end h k l = ground (arith, h, k, l)

  line_value-LineIn :
      (ss : List Symtab) (block_end : ℕ) (b : BestLine) (a : AltLine)
      → pc < block_end
      → Ends pc bv ss no_best b
      → IsAfter a.alt_pc
      → LineIn ss block_end (line_value b.best_symtab b a block_end)
  line_value-LineIn ss block_end b a h (inl e, k, f) l =
      rw e (no_start (subst (λ (x : BestLine). Nearest pc bv ss x.best_pc) e f) refl l)
  line_value-LineIn ss block_end b a h (inr (is_line s x m y p q t u v w), k, f) l = rw p (
      starts s x m y refl q t v (end_pc_of-after b a block_end h w l)
        (subst (Nearest pc bv ss) t f))

  line_in-LineIn :
      (ss : List Symtab) (block_end : ℕ)
      → pc < block_end
      → AllOrdered ss
      → LineIn ss block_end (line_in pc bv ss block_end)
  line_in-LineIn ss block_end h o =
      line_value-LineIn ss block_end (best_of pc bv ss no_best) (alt_of pc bv ss no_alt) h
        (best_of-Ends pc bv ss no_best o) (alt_of-IsAfter ss no_alt (inl refl))

module _ {F : Type 0} (outer_block : ℕ → Block F) where
  symtab_of-AllOrdered :
      (ss : List Symtab) (pc : ℕ) → AllOrdered ss → AllOrdered (symtab_of outer_block ss pc)
  unfolding symtab_of
  symtab_of-AllOrdered [] pc o = o
  symtab_of-AllOrdered (s ∷ ss) pc (one_more _ _ o os) =
      elim (Bool-cases (contains (outer_block s.blockvector) pc)) [
        | inl t ↦ rw t (one_more s ss o os)
        | inr t ↦ rw t (symtab_of-AllOrdered ss pc os)
      ]

  -- The block of the first file ends after the address.
  data HeadEnds (pc : ℕ) : List Symtab → Type 0 where
    no_head : HeadEnds pc []
    head_ends :
        (s : Symtab) (ss : List Symtab)
        → pc < (outer_block s.blockvector).endaddr
        → HeadEnds pc (s ∷ ss)

  symtab_of-HeadEnds : (ss : List Symtab) (pc : ℕ) → HeadEnds pc (symtab_of outer_block ss pc)
  unfolding symtab_of
  symtab_of-HeadEnds [] pc = no_head
  symtab_of-HeadEnds (s ∷ ss) pc = elim (Bool-cases (contains (outer_block s.blockvector) pc)) [
    | inl t ↦
        let before : pc < (outer_block s.blockvector).endaddr = ground (arith, t) in
        rw t (head_ends s ss before)
    | inr t ↦ rw t (symtab_of-HeadEnds ss pc)
  ]

  head_end :
      (pc : ℕ) (s : Symtab) (ss : List Symtab)
      → HeadEnds pc (s ∷ ss)
      → pc < (outer_block s.blockvector).endaddr
  head_end pc s ss (head_ends _ _ h) = h

-- Where a file of the list has the address, which is the one given or, for a caller's frame, the one
-- before it, and every line table is in the order of its addresses, find_pc_line looks at that file
-- and at those behind it that share its vector of blocks. It returns a file and a line of theirs that
-- starts at the last address which is not after the one looked up, and an end that is after it; or,
-- where none of them has an item up to the address but at 0, the end of the outer block and an end
-- that is 0 or after the address.
pub find_pc_line-LineIn :
    {F : Type 0} (outer_block : ℕ → Block F) (psymtab_to_symtab : PartialSymtab → List Symtab)
    (symtab_list : List Symtab) (psymtab_list : List PartialSymtab) (pc : ℕ) (notcurrent : Bool)
    (s : Symtab) (ss : List Symtab)
    → AllOrdered symtab_list
    → symtab_of outer_block symtab_list (looked_up pc notcurrent) ≡ s ∷ ss
    → (r : SourceLine) × (find_pc_line outer_block psymtab_to_symtab symtab_list psymtab_list pc
          notcurrent
        ≡ some r)
      × LineIn
          (looked_up pc notcurrent)
          s.blockvector
          (s ∷ ss)
          (outer_block s.blockvector).endaddr
          r
unfolding find_pc_line find_pc_symtab
find_pc_line-LineIn outer_block psymtab_to_symtab symtab_list psymtab_list pc notcurrent s ss o e =
    let at = looked_up pc notcurrent in
    let block_end = (outer_block s.blockvector).endaddr in
    let ordered = subst AllOrdered e (symtab_of-AllOrdered outer_block symtab_list at o) in
    let ends = subst (HeadEnds outer_block at) e (symtab_of-HeadEnds outer_block symtab_list at) in
    let before = head_end outer_block at s ss ends in
    (
      line_in at s.blockvector (s ∷ ss) block_end,
      ap
          (λ l. line_of_answer outer_block at (
            or_read_in l (read_in outer_block psymtab_to_symtab (find_pc_psymtab psymtab_list at))))
          e,
      line_in-LineIn at s.blockvector (s ∷ ss) block_end before ordered,
    )
