-- ===== src/Locate/Lines.antt =====
-- symtab.c: the addresses of a line, in the line table of a file. The line numbers of the table are
-- not negative.
pub mod Closest
use g.Base.{
  ℕ, zero, suc, ◌+◌, ◌-◌, ◌^◌, Bool, true, false, Option, none, some, List, ◌==◌, ltb, ◌&&◌, ◌||◌,
  not, if◌then◌else◌, length, get_or,
}
use g.Base.Int.{ℤ, pos, negsuc}

-- `struct linetable_entry`.
pub record LinetableEntry : Type 0 where
  pub line : ℕ
  pub pc : ℕ

abbrev pub Linetable : Type 0
Linetable = List LinetableEntry

-- `l->item[i]`
abbrev pub item : Linetable → ℕ → LinetableEntry
item l i = get_or l i (record { line = 0; pc = 0 })

-- The loop from the index `i` on, with as many items left; it gives the index and `*exact_match`.
unfoldable pub look : Linetable → ℕ → ℕ → ℕ → ℤ → ℕ → ℤ × Bool
look l lineno zero i best_index best = (best_index, false)
look l lineno (suc left) i best_index best =
    let line = (item l i).line in
    let closer = ltb lineno line && (best == 0 || ltb line best) in
    let rest =
      look l lineno left (i + 1) (if closer then pos i else best_index)
        (if closer then line else best) in
    if line == lineno then (pos i, true) else rest

-- `*exact_match` is `none` where it is not set.
unfoldable pub find_line_common : Linetable → ℤ → ℤ × Option Bool
find_line_common l (negsuc n) = (negsuc 0, none)
find_line_common l (pos zero) = (negsuc 0, none)
find_line_common l (pos (suc n)) =
    let r = look l (suc n) (length l) 0 (negsuc 0) 0 in (r.0, some r.1)

abbrev pub pc_at : Linetable → ℤ → ℕ
pc_at l (pos k) = (item l k).pc
pc_at l (negsuc n) = 0

-- A file is its line table, and `none` no file; -1 is the greatest address.
unfoldable pub find_line_pc : Option Linetable → ℤ → ℕ
find_line_pc none line = 0
find_line_pc (some l) line =
    if length l == 0 then 2 ^ 32 - 1 else pc_at l (find_line_common l line).0

-- Nothing is stored unless the value is 1.
pub data LineRange : Type 0 where
  no_line_numbers not_found : LineRange
  found : (startptr endptr : ℕ) → LineRange

-- `*endptr`, for the index `k`.
abbrev pub end_of : Linetable → ℕ → ℕ → Bool → ℕ
end_of l thisline k exact_match =
    let next = find_line_pc (some l) (pos (thisline + 1)) in
    if not exact_match || k == length l - 1
    then (item l k).pc
    else if (item l (k + 1)).line == thisline + 1
    then (item l (k + 1)).pc
    else if next == 2 ^ 32 - 1
    then 0
    else next

abbrev pub range_of : Linetable → ℕ → ℤ × Option Bool → LineRange
range_of l thisline (pos k, some exact) = LineRange.found (item l k).pc (end_of l thisline k exact)
range_of l thisline r = LineRange.not_found

unfoldable pub find_line_pc_range : Option Linetable → ℤ → LineRange
find_line_pc_range none thisline = LineRange.not_found
find_line_pc_range (some l) thisline =
    if length l == 0 then LineRange.no_line_numbers else elim thisline [
      | negsuc n ↦ LineRange.not_found
      | pos n ↦ range_of l n (find_line_common l (pos n))
    ]
