-- ===== src/Locate/Sources/Tests.antt =====
-- symtab.c: the lines of a file and of a file that it includes.
use g.Base.{ℕ, ◌≡◌, refl, true, false, none, some, List, [], ◌∷◌, arith, ◌==◌, if◌then◌else◌}
use g.Locate.Blocks.{Block, PartialSymtab}
use g.Locate.Lines.{LinetableEntry}
use g.Locate.Sources.Items.{Ordered}
use g.Locate.Sources.Starts.{AllOrdered}
use g.Locate.Sources.Line.{LineIn, find_pc_line-LineIn}
use g.Locate.Sources.{
  Symtab, SourceLine, scan, best_of, alt_of, symtab_of, find_pc_symtab, find_pc_line,
}

abbrev at_pc : ℕ → ℕ → LinetableEntry
at_pc pc line = record { line = line; pc = pc }

abbrev main_c : Symtab
main_c = record {
  blockvector = 7;
  linetable = at_pc 0x1000 10 ∷ at_pc 0x1010 11 ∷ at_pc 0x1040 14 ∷ [];
}

abbrev main_h : Symtab
main_h = record { blockvector = 7; linetable = at_pc 0x1020 3 ∷ [] }

-- A file that is linked at 0.
abbrev start_c : Symtab
start_c = record { blockvector = 8; linetable = at_pc 0 5 ∷ at_pc 8 6 ∷ [] }

abbrev files : List Symtab
files = start_c ∷ main_c ∷ main_h ∷ []

abbrev outer : ℕ → Block ℕ
outer bv = record {
  startaddr = if bv == 8 then 0 else 0x1000;
  endaddr = if bv == 8 then 0x100 else 0x1100;
  function = none;
}

abbrev unread : PartialSymtab → List Symtab
unread ps = []

start_c-Ordered : Ordered 0 start_c.linetable
start_c-Ordered =
    Ordered.goes_on _ _ _ (omega arith) (Ordered.goes_on _ _ _ (omega arith) (Ordered.ends _))

main_c-Ordered : Ordered 0 main_c.linetable
main_c-Ordered =
    Ordered.goes_on _ _ _ (omega arith)
      (Ordered.goes_on _ _ _ (omega arith) (Ordered.goes_on _ _ _ (omega arith) (Ordered.ends _)))

main_h-Ordered : Ordered 0 main_h.linetable
main_h-Ordered = Ordered.goes_on _ _ _ (omega arith) (Ordered.ends _)

files-AllOrdered : AllOrdered files
files-AllOrdered = AllOrdered.one_more _ _ start_c-Ordered (
    AllOrdered.one_more _ _ main_c-Ordered
      (AllOrdered.one_more _ _ main_h-Ordered AllOrdered.none_left))

-- The address after a call at 0x1020, in a caller's frame.
find_pc_line-LineIn_example :
    (r : SourceLine) × (find_pc_line outer unread files [] 0x1024 true ≡ some r)
    × LineIn 0x1023 7 (main_c ∷ main_h ∷ []) 0x1100 r
unfolding symtab_of
find_pc_line-LineIn_example =
    find_pc_line-LineIn outer unread files [] 0x1024 true main_c (main_h ∷ []) files-AllOrdered refl

included :
    find_pc_line outer unread files [] 0x1024 true
    ≡ some (record { symtab = some main_h; line = 3; pc = 0x1020; end_pc = 0x1100 })
unfolding find_pc_line find_pc_symtab symtab_of best_of alt_of scan
included = refl

-- A line ends where its own file has the next one, behind the line of the included file.
too_long :
    find_pc_line outer unread files [] 0x1014 false
    ≡ some (record { symtab = some main_c; line = 11; pc = 0x1010; end_pc = 0x1040 })
unfolding find_pc_line find_pc_symtab symtab_of best_of alt_of scan
too_long = refl

-- The line at the address 0 is not found.
at_zero :
    find_pc_line outer unread files [] 4 false
    ≡ some (record { symtab = none; line = 0; pc = 0x100; end_pc = 0 })
unfolding find_pc_line find_pc_symtab symtab_of best_of alt_of scan
at_zero = refl
