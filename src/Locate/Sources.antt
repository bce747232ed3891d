-- ===== src/Locate/Sources.antt =====
-- symtab.c: find_pc_line, the file and the line of an address, over all the files that share a vector
-- of blocks. Line numbers are not negative. What is read of a file when its partial symtab is read in
-- is a parameter, as is the outer block of a vector of blocks, by the address of the vector.
pub mod Items
pub mod Starts
pub mod Line
mod Tests
use g.Base.{
  ℕ, ◌+◌, ◌-◌, ◌^◌, ◌%◌, Bool, true, false, Option, none, some, List, [], ◌∷◌, ◌==◌, ltb, leb, ◌&&◌,
  ◌||◌, if◌then◌else◌,
}
use g.Base.Words.{sub32}
use g.Locate.Blocks.{Block, PartialSymtab, Answer, contains}
use g.Locate.Lines.{LinetableEntry, Linetable}

-- `struct symtab`; the list of the files is the `next` of each.
pub record Symtab : Type 0 where
  pub blockvector : ℕ
  pub linetable : Linetable

-- `struct symtab_and_line`.
pub record SourceLine : Type 0 where
  pub symtab : Option Symtab
  pub line : ℕ
  pub pc : ℕ
  pub end_pc : ℕ

-- The best line so far, and where the file that it is of has its next line.
pub record BestLine : Type 0 where
  pub best_line : ℕ
  pub best_pc : ℕ
  pub best_end : ℕ
  pub best_symtab : Option Symtab

pub record AltLine : Type 0 where
  pub alt_line : ℕ
  pub alt_pc : ℕ
  pub alt_symtab : Option Symtab

-- The loop over the items of a file: the last item that did not start after the address, and the item
-- at which the loop ends early.
unfoldable pub scan :
    ℕ → Linetable → Option LinetableEntry → Option LinetableEntry × Option LinetableEntry
scan pc [] prev = (prev, none)
scan pc (item ∷ items) prev =
    let rest = scan pc items (some item) in if leb item.pc pc then rest else (prev, some item)

abbrev pub end_at : Option LinetableEntry → ℕ
end_at (some item) = item.pc
end_at none = 0

abbrev pub take_best : Symtab → Option LinetableEntry × Option LinetableEntry → BestLine → BestLine
take_best s (none, stop) b = b
take_best s (some prev, stop) b =
    if ltb b.best_pc prev.pc
    then record {
      best_line = prev.line;
      best_pc = prev.pc;
      best_end = end_at stop;
      best_symtab = some s;
    }
    else b

abbrev pub take_alt : ℕ → Symtab → Linetable → AltLine → AltLine
take_alt pc s [] a = a
take_alt pc s (first ∷ items) a =
    if ltb pc first.pc && (a.alt_pc == 0 || ltb first.pc a.alt_pc)
    then record { alt_line = first.line; alt_pc = first.pc; alt_symtab = some s }
    else a

-- The loop over the files that share the vector of blocks.
unfoldable pub best_of : ℕ → ℕ → List Symtab → BestLine → BestLine
best_of pc bv [] b = b
best_of pc bv (s ∷ symtabs) b =
    let rest = best_of pc bv symtabs (take_best s (scan pc s.linetable none) b) in
    if s.blockvector == bv then rest else b

unfoldable pub alt_of : ℕ → ℕ → List Symtab → AltLine → AltLine
alt_of pc bv [] a = a
alt_of pc bv (s ∷ symtabs) a =
    let rest = alt_of pc bv symtabs (take_alt pc s s.linetable a) in
    if s.blockvector == bv then rest else a

abbrev pub no_best : BestLine
no_best = record { best_line = 0; best_pc = 0; best_end = 0; best_symtab = none }

abbrev pub no_alt : AltLine
no_alt = record { alt_line = 0; alt_pc = 0; alt_symtab = none }

-- The value that is returned, for the end of the outer block.
abbrev pub end_pc_of : BestLine → AltLine → ℕ → ℕ
end_pc_of b a block_end =
    if b.best_end == 0 then if a.alt_pc == 0 then block_end else a.alt_pc else b.best_end

abbrev pub line_value : Option Symtab → BestLine → AltLine → ℕ → SourceLine
line_value none b a block_end = record {
  symtab = a.alt_symtab;
  line = a.alt_line;
  pc = block_end;
  end_pc = a.alt_pc;
}
line_value (some s) b a block_end = record {
  symtab = some s;
  line = b.best_line;
  pc = b.best_pc;
  end_pc = end_pc_of b a block_end;
}

abbrev pub line_in : ℕ → ℕ → List Symtab → ℕ → SourceLine
line_in pc bv symtabs block_end =
    let b = best_of pc bv symtabs no_best in
    line_value b.best_symtab b (alt_of pc bv symtabs no_alt) block_end

unfoldable pub find_pc_psymtab : List PartialSymtab → ℕ → Option PartialSymtab
find_pc_psymtab [] pc = none
find_pc_psymtab (ps ∷ psymtabs) pc =
    if leb ps.textlow pc && ltb pc ps.texthigh then some ps else find_pc_psymtab psymtabs pc

-- The address that is looked up.
abbrev pub looked_up : ℕ → Bool → ℕ
looked_up pc notcurrent = if notcurrent then sub32 pc 1 else pc

abbrev pub no_line : ℕ → SourceLine
no_line pc = record { symtab = none; line = 0; pc = pc; end_pc = 0 }

-- Where no file of the list has the address, what the partial symtabs come to.
abbrev pub or_read_in : List Symtab → Answer (List Symtab) → Answer (List Symtab)
or_read_in [] read_in = read_in
or_read_in (s ∷ symtabs) read_in = Answer.found (s ∷ symtabs)

module _ {F : Type 0} (outer_block : ℕ → Block F) where
  -- A file of the list, with those behind it.
  unfoldable pub symtab_of : List Symtab → ℕ → List Symtab
  symtab_of [] pc = []
  symtab_of (s ∷ symtabs) pc =
      if contains (outer_block s.blockvector) pc then s ∷ symtabs else symtab_of symtabs pc

  abbrev pub line_of_symtabs : ℕ → List Symtab → SourceLine
  line_of_symtabs pc [] = no_line pc
  line_of_symtabs pc (s ∷ symtabs) =
      line_in pc s.blockvector (s ∷ symtabs) (outer_block s.blockvector).endaddr

  -- `none` where find_pc_symtab exits.
  abbrev pub line_of_answer : ℕ → Answer (List Symtab) → Option SourceLine
  line_of_answer pc Answer.badnews = none
  line_of_answer pc Answer.nothing = some (no_line pc)
  line_of_answer pc (Answer.found symtabs) = some (line_of_symtabs pc symtabs)

  module _ (psymtab_to_symtab : PartialSymtab → List Symtab) where
    abbrev pub read_in : Option PartialSymtab → Answer (List Symtab)
    read_in none = Answer.nothing
    read_in (some ps) = if ps.readin then Answer.badnews else Answer.found (psymtab_to_symtab ps)

    unfoldable pub find_pc_symtab : List Symtab → List PartialSymtab → ℕ → Answer (List Symtab)
    find_pc_symtab symtab_list psymtab_list pc =
        or_read_in (symtab_of symtab_list pc) (read_in (find_pc_psymtab psymtab_list pc))

    unfoldable pub find_pc_line : List Symtab → List PartialSymtab → ℕ → Bool → Option SourceLine
    find_pc_line symtab_list psymtab_list pc notcurrent =
        let at = looked_up pc notcurrent in
        line_of_answer at (find_pc_symtab symtab_list psymtab_list at)
