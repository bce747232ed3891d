-- ===== src/Locate/Tests.antt =====
-- blockframe.c and symtab.c: searches in small tables.
use g.Base.{
  ℕ, zero, suc, ◌+◌, ◌-◌, ◌^◌, ◌≤◌, ◌<◌, ◌≡◌, ◌⊎◌, refl, Bool, none, some, List, [], ◌∷◌, ◌++◌,
  length, arith,
}
use g.Base.Int.{pos, negsuc}
use g.Locate.Misc.{MiscFunction, address_at, bisect, find_pc_misc_function}
use g.Locate.Misc.Nearest.{IsSorted, Nearest, find_pc_misc_function-Nearest}
use g.Locate.Blocks.{
  Block, PartialSymtab, Answer, block, in_symtabs, in_blocks, last_start, ends_after, block_for_pc,
}
use g.Locate.Blocks.Innermost as Innermost
use g.Locate.Lines.{Linetable, look, find_line_common, find_line_pc, LineRange, find_line_pc_range}
use g.Locate.Lines.Closest.{Closest, find_line_common-Closest}

abbrev functions : List MiscFunction
functions =
    record { name = "_start"; address = 0x1000 } ∷ record { name = "_etext"; address = 0x2000 } ∷ []

functions-IsSorted : IsSorted functions
functions-IsSorted = record {
  ordered = functions_ordered;
  near = functions_near;
  word = functions_word;
}
  where
    functions_ordered :
        (i j : ℕ) → i ≤ j → j < length functions → address_at functions i ≤ address_at functions j
    functions_ordered zero zero h1 h2 = omega arith
    functions_ordered zero (suc zero) h1 h2 = omega arith
    functions_ordered (suc zero) (suc zero) h1 h2 = omega arith
    functions_ordered (suc i) zero h1 h2 = absurd (omega arith)
    functions_ordered (suc (suc i)) (suc zero) h1 h2 = absurd (omega arith)
    functions_ordered i (suc (suc j)) h1 h2 = absurd (omega arith)

    functions_near :
        (i : ℕ) → i < length functions → address_at functions i < address_at functions 0 + 2 ^ 31
    functions_near zero h = omega arith
    functions_near (suc zero) h = omega arith
    functions_near (suc (suc i)) h = absurd (omega arith)

    functions_word : (i : ℕ) → i < length functions → address_at functions i < 2 ^ 32
    functions_word zero h = omega arith
    functions_word (suc zero) h = omega arith
    functions_word (suc (suc i)) h = absurd (omega arith)

-- The address of the last entry gives the entry before it.
etext_is_start : find_pc_misc_function functions 0x2000 ≡ some (pos 0)
unfolding find_pc_misc_function bisect
etext_is_start = refl

find_pc_misc_function-Nearest_example :
    (((length functions ≡ 0)
        ⊎ ((0x2000 < address_at functions 0)
            ⊎ (address_at functions (length functions - 1) < 0x2000)))
      × (find_pc_misc_function functions 0x2000 ≡ some (negsuc 0)))
    ⊎ ((k : ℕ) × (find_pc_misc_function functions 0x2000 ≡ some (pos k))
        × Nearest functions 0x2000 k)
find_pc_misc_function-Nearest_example =
    find_pc_misc_function-Nearest functions 0x2000 functions-IsSorted (omega arith)

abbrev range : ℕ → ℕ → Block ℕ
range low high = record { startaddr = low; endaddr = high; function = none }

-- A file, a function in it and a block in the function.
abbrev file : List (Block ℕ)
file = range 0x1000 0x2000 ∷ range 0x1100 0x1200 ∷ range 0x1140 0x1180 ∷ []

abbrev unread : PartialSymtab → List (Block ℕ)
unread ps = []

after_inner_block :
    block_for_pc (range 0 0) unread (file ∷ []) [] 0x1190
    ≡ some (Answer.found (range 0x1100 0x1200))
unfolding block_for_pc in_symtabs in_blocks last_start ends_after
after_inner_block = refl

file-IsSorted : Innermost.IsSorted (range 0 0) unread file
file-IsSorted zero zero h1 h2 = omega arith
file-IsSorted zero (suc zero) h1 h2 = omega arith
file-IsSorted zero (suc (suc zero)) h1 h2 = omega arith
file-IsSorted (suc i) zero h1 h2 = absurd (omega arith)
file-IsSorted (suc zero) (suc zero) h1 h2 = omega arith
file-IsSorted (suc zero) (suc (suc zero)) h1 h2 = omega arith
file-IsSorted (suc (suc i)) (suc zero) h1 h2 = absurd (omega arith)
file-IsSorted (suc (suc zero)) (suc (suc zero)) h1 h2 = omega arith
file-IsSorted (suc (suc (suc i))) (suc (suc zero)) h1 h2 = absurd (omega arith)
file-IsSorted i (suc (suc (suc j))) h1 h2 = absurd (omega arith)

block_for_pc-Innermost_example :
    (k : ℕ) × (block_for_pc (range 0 0) unread ([] ++ file ∷ []) [] 0x1190
      ≡ some (Answer.found (block (range 0 0) unread file k)))
    × Innermost.Innermost (range 0 0) unread file 0x1190 k
unfolding in_symtabs
block_for_pc-Innermost_example =
    Innermost.block_for_pc-Innermost (range 0 0) unread [] file [] [] 0x1190 refl (omega arith)
      file-IsSorted refl

abbrev lines : Linetable
lines =
    record { line = 4; pc = 0x1000 }
    ∷ record { line = 9; pc = 0x1010 }
    ∷ record { line = 6; pc = 0x1020 }
    ∷ record { line = 7; pc = 0x1030 }
    ∷ []

-- No item is of line 5.
empty_range : find_line_pc_range (some lines) (pos 5) ≡ LineRange.found 0x1020 0x1020
unfolding find_line_pc_range find_line_common look find_line_pc
empty_range = refl

followed_by_next : find_line_pc_range (some lines) (pos 6) ≡ LineRange.found 0x1020 0x1030
unfolding find_line_pc_range find_line_common look find_line_pc
followed_by_next = refl

past_the_end : find_line_pc (some lines) (pos 10) ≡ 0
unfolding find_line_pc find_line_common look
past_the_end = refl

find_line_common-Closest_example :
    (exact_match : Bool) × ((find_line_common lines (pos 5)).1 ≡ some exact_match)
    × Closest lines 5 (find_line_common lines (pos 5)).0 exact_match
find_line_common-Closest_example = find_line_common-Closest lines 4
