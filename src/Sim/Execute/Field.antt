-- ===== src/Sim/Execute/Field.antt =====
-- sim/execute.c: the bit field instructions, the searches for a bit and the rotation. fields88.h
-- has the width and the offset of a field.
pub mod Find
pub mod Places
pub mod Sign
use Prim.Native.Nat.{bit_and, bit_or}
use g.Base.{
  ℕ, zero, suc, ◌+◌, ◌-◌, ◌*◌, ◌/◌, ◌%◌, ◌^◌, Bool, true, false, ◌==◌, ltb, leb, if◌then◌else◌,
}
use g.Base.Words.{u32, sub32, complement, shift_left}
use g.Sim.Execute.{Decoded, Cpu, Ending, dispatch_next, src1, src2, dst, set_dst, check_stack}

-- W5 and O5.
abbrev pub width : ℕ → ℕ
width f = f / 2 ^ 5 % 32

abbrev pub offset : ℕ → ℕ
offset f = f % 32

-- `w >> k` of an `int`.
abbrev pub shift_right_int : ℕ → ℕ → ℕ
shift_right_int w k = if ltb w (2 ^ 31) then w / 2 ^ k else complement (complement w / 2 ^ k)

-- `(1 << W5(f)) - 1`
abbrev pub low_ones : ℕ → ℕ
low_ones f = sub32 (shift_left 1 (width f)) 1

-- `0xffffffff << O5(f)` or `((1 << W5(f)) - 1) << O5(f)`, which clr and set make.
abbrev pub field_mask : ℕ → ℕ
field_mask f =
    if width f == 0 then shift_left 0xffffffff (offset f) else shift_left (low_ones f) (offset f)

unfoldable pub cleared : ℕ → ℕ → ℕ
cleared x f = bit_and x (complement (field_mask f))

unfoldable pub filled : ℕ → ℕ → ℕ
filled x f = bit_or x (field_mask f)

unfoldable pub extracted : ℕ → ℕ → ℕ
extracted x f = if width f == 0 then x / 2 ^ offset f else bit_and (x / 2 ^ offset f) (low_ones f)

unfoldable pub made : ℕ → ℕ → ℕ
made x f =
    if width f == 0 then shift_left x (offset f) else shift_left (bit_and x (low_ones f)) (offset f)

unfoldable pub clr : Decoded → Cpu → Ending × Cpu
clr p c = let c1 = set_dst p (cleared (src1 p c) (src2 p c)) c in (check_stack c1, c1)

unfoldable pub set : Decoded → Cpu → Ending × Cpu
set p c = (dispatch_next, set_dst p (filled (src1 p c) (src2 p c)) c)

unfoldable pub extu : Decoded → Cpu → Ending × Cpu
extu p c = let c1 = set_dst p (extracted (src1 p c) (src2 p c)) c in (check_stack c1, c1)

unfoldable pub mak : Decoded → Cpu → Ending × Cpu
mak p c = (dispatch_next, set_dst p (made (src1 p c) (src2 p c)) c)

-- `beyond` is what a shift of a word by a negative count gives on the host, which the code does
-- where the field goes past the word.
module _ (beyond : ℕ → ℕ → ℕ) where
  unfoldable pub extended : ℕ → ℕ → ℕ
  extended s1 s2 =
      if width s2 == 0
      then shift_right_int s1 (offset s2)
      else if leb (offset s2 + width s2) 32
      then shift_right_int (shift_left s1 (32 - (offset s2 + width s2)))
          (offset s2 + (32 - (offset s2 + width s2)))
      else shift_right_int (beyond s1 (offset s2 + width s2 - 32)) (32 - width s2)

  unfoldable pub ext : Decoded → Cpu → Ending × Cpu
  ext p c = (dispatch_next, set_dst p (extended (src1 p c) (src2 p c)) c)

-- The loops of ff1 and ff0, with `i` one above the index of the code: the highest bit below `i`
-- that has the value, and 32 where there is none.
unfoldable pub find_bit : ℕ → ℕ → ℕ → ℕ
find_bit value w zero = 32
find_bit value w (suc i) =
    let rest = find_bit value w i in if w / 2 ^ i % 2 == value then i else rest

unfoldable pub ff0 : Decoded → Cpu → Ending × Cpu
ff0 p c = (dispatch_next, set_dst p (find_bit 0 (src2 p c) 32) c)

unfoldable pub ff1 : Decoded → Cpu → Ending × Cpu
ff1 p c = (dispatch_next, set_dst p (find_bit 1 (src2 p c) 32) c)

-- `(DST >> 1) | (DST & 1) << 31`
abbrev pub rotated : ℕ → ℕ
rotated w = bit_or (w / 2) (shift_left (bit_and w 1) 31)

-- The loop of rot. The destination may be the register of the count, which is read again each time;
-- `rounds` bounds the rounds, of which there are less than 32, as O5 is.
unfoldable pub rot_loop : ℕ → ℕ → Decoded → Cpu → Cpu
rot_loop zero i p c = c
rot_loop (suc rounds) i p c =
    let rest = rot_loop rounds (suc i) p (set_dst p (rotated (dst p c)) c) in
    if ltb i (offset (src2 p c)) then rest else c

unfoldable pub rot : Decoded → Cpu → Ending × Cpu
rot p c = (dispatch_next, rot_loop 32 0 p c)
