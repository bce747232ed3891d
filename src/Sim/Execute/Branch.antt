-- ===== src/Sim/Execute/Branch.antt =====
-- sim/execute.c: the conditional branches; sim/simdecode.c: the entries of the table for them.
pub mod Conditions
use Prim.Native.Nat.{bit_and}
use g.Base.{
  ℕ, ◌+◌, ◌-◌, ◌*◌, ◌/◌, ◌%◌, ◌^◌, Bool, true, false, ◌==◌, ltb, leb, ◌&&◌, ◌||◌, not,
  if◌then◌else◌, Option, none, some,
}
use g.Base.Int.{ℤ, pos, ltb_ℤ}
use g.Base.Words.{to_int, truth, shift_left}
use g.Sim.Execute.{Decoded, Cpu, Ending, dispatch_next, take_branch, take_delayed_branch, src1}

-- The labels of bcnd, without the `_n` of a delayed branch.
pub data Bcnd : Type 0 where
  bcnd_eq0 bcnd_ne0 bcnd_gt0 bcnd_lt0 bcnd_ge0 bcnd_le0 noop bcnd_4 bcnd_5 bcnd_6 bcnd_7 : Bcnd
  bcnd_8 bcnd_9 bcnd_10 bcnd_11 bcnd_always : Bcnd

-- `(int)w < 0`, `(int)w <= 0` and so on.
abbrev negative : ℕ → Bool
negative w = ltb_ℤ (to_int w) (pos 0)

abbrev positive : ℕ → Bool
positive w = ltb_ℤ (pos 0) (to_int w)

-- The condition of each label on SRC1.
unfoldable pub holds : Bcnd → ℕ → Bool
holds bcnd_eq0 w = w == 0
holds bcnd_ne0 w = not (w == 0)
holds bcnd_gt0 w = positive w
holds bcnd_lt0 w = negative w
holds bcnd_ge0 w = not (negative w)
holds bcnd_le0 w = not (positive w)
holds noop w = false
holds bcnd_4 w = not (w == 0x80000000) && negative w
holds bcnd_5 w = not (bit_and w 0x7fffffff == 0)
holds bcnd_6 w = not (positive w) && not (w == 0x80000000)
holds bcnd_7 w = not (w == 0x80000000)
holds bcnd_8 w = w == 0x80000000
holds bcnd_9 w = positive w || w == 0x80000000
holds bcnd_10 w = bit_and w 0x7fffffff == 0
holds bcnd_11 w = not (negative w) || w == 0x80000000
holds bcnd_always w = true

-- The label of each value of the condition field, in the entries of the table; the others have
-- none.
unfoldable pub bcnd_entry : ℕ → Option Bcnd
bcnd_entry m =
    if m == 2
    then some bcnd_eq0
    else if m == 13
    then some bcnd_ne0
    else if m == 1
    then some bcnd_gt0
    else if m == 12
    then some bcnd_lt0
    else if m == 3
    then some bcnd_ge0
    else if m == 14
    then some bcnd_le0
    else if m == 0
    then some noop
    else if m == 4
    then some bcnd_4
    else if m == 5
    then some bcnd_5
    else if m == 6
    then some bcnd_6
    else if m == 7
    then some bcnd_7
    else if m == 8
    then some bcnd_8
    else if m == 9
    then some bcnd_9
    else if m == 10
    then some bcnd_10
    else if m == 11
    then some bcnd_11
    else if m == 15
    then some bcnd_always
    else none

-- The code of the labels.
unfoldable pub bcnd : Bcnd → Decoded → Cpu → Ending × Cpu
bcnd b p c = (if holds b (src1 p c) then take_branch else dispatch_next, c)

unfoldable pub bcnd_n : Bcnd → Decoded → Cpu → Ending × Cpu
bcnd_n b p c = (if holds b (src1 p c) then take_delayed_branch else dispatch_next, c)

-- BB0 and BB1, of a bit.
unfoldable pub bb0 : ℕ → Decoded → Cpu → Ending × Cpu
bb0 bit p c = (if bit_and (src1 p c) (shift_left 1 bit) == 0 then take_branch else dispatch_next, c)

unfoldable pub bb1 : ℕ → Decoded → Cpu → Ending × Cpu
bb1 bit p c =
    (if truth (bit_and (src1 p c) (shift_left 1 bit)) then take_branch else dispatch_next, c)

unfoldable pub bb0_n : ℕ → Decoded → Cpu → Ending × Cpu
bb0_n bit p c =
    (if bit_and (src1 p c) (shift_left 1 bit) == 0 then take_delayed_branch else dispatch_next, c)

unfoldable pub bb1_n : ℕ → Decoded → Cpu → Ending × Cpu
bb1_n bit p c = (
  if truth (bit_and (src1 p c) (shift_left 1 bit)) then take_delayed_branch else dispatch_next,
  c,
)
