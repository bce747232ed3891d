-- ===== src/Sim/Execute/Label/Values.antt =====
-- sim/execute.c: the values that the instructions store are words.
use Prim.Native.Nat.{bit_and}
use native.Mathlib.Nat.{div-le_self}
use g.Base.{
  ℕ, zero, suc, ◌+◌, ◌-◌, ◌/◌, ◌%◌, ◌^◌, ◌≤◌, Bool, true, false, ◌==◌, ltb, if◌then◌else◌, arith,
  Bool-cases, inl, inr,
}
use g.Base.Words.{IsWord, complement, shift_left}
use g.Sim.Execute.{
  Operand, reg, sfu0, sfu1, lit, num, code, dummy_r0, fetch, Decoded, Cpu, dst, set_dst, src2,
}
use g.Sim.Execute.Arith.{compare_word}
use g.Sim.Execute.Field.{
  width, offset, field_mask, low_ones, shift_right_int, cleared, filled, extracted, made, extended,
  find_bit, rotated, rot_loop,
}
use g.Sim.Execute.Label.Bounds.{IsCpu, IsDestination, and-IsWord, or-IsWord, assign-IsCpu}

-- A value that a test chooses.
either-IsWord : (b : Bool) (x y : ℕ) → IsWord x → IsWord y → IsWord (if b then x else y)
either-IsWord true x y hx hy = hx
either-IsWord false x y hx hy = hy

pub compare_word-IsWord : (x y : ℕ) → IsWord (compare_word x y)
unfolding compare_word
compare_word-IsWord x y = ground arith

pub cleared-IsWord : (x f : ℕ) → IsWord (cleared x f)
unfolding cleared
cleared-IsWord x f = and-IsWord x (complement (field_mask f)) (omega arith)

pub filled-IsWord : (x f : ℕ) → IsWord x → IsWord (filled x f)
unfolding filled
filled-IsWord x f hx = or-IsWord x (field_mask f) hx (ground arith)

pub quotient-IsWord : (x k : ℕ) → IsWord x → IsWord (x / k)
quotient-IsWord x k hx = omega (arith, div-le_self x k)

pub extracted-IsWord : (x f : ℕ) → IsWord x → IsWord (extracted x f)
unfolding extracted
extracted-IsWord x f hx =
    either-IsWord _ _ _ (quotient-IsWord x (2 ^ offset f) hx)
      (and-IsWord (x / 2 ^ offset f) (low_ones f) (omega arith))

pub made-IsWord : (x f : ℕ) → IsWord (made x f)
unfolding made
made-IsWord x f =
    either-IsWord (width f == 0) (shift_left x (offset f))
      (shift_left (bit_and x (low_ones f)) (offset f)) (omega arith) (omega arith)

shift_right_int-IsWord : (x k : ℕ) → IsWord x → IsWord (shift_right_int x k)
shift_right_int-IsWord x k hx =
    either-IsWord (ltb x (2 ^ 31)) (x / 2 ^ k) (complement (complement x / 2 ^ k))
      (quotient-IsWord x (2 ^ k) hx) (omega arith)

pub extended-IsWord :
    (beyond : ℕ → ℕ → ℕ) (x f : ℕ)
    → ((w k : ℕ) → IsWord (beyond w k))
    → IsWord x
    → IsWord (extended beyond x f)
unfolding extended
extended-IsWord beyond x f hb hx = either-IsWord _ _ _ (shift_right_int-IsWord x (offset f) hx) (
    either-IsWord _ _ _
      (shift_right_int-IsWord (shift_left x (32 - (offset f + width f)))
        (offset f + (32 - (offset f + width f))) (omega arith))
      (shift_right_int-IsWord (beyond x (offset f + width f - 32)) (32 - width f)
        (hb x (offset f + width f - 32))))

find_bit-le : (value w n : ℕ) → n ≤ 32 → find_bit value w n ≤ 32
unfolding find_bit
find_bit-le value w zero hn = omega arith
find_bit-le value w (suc n) hn = elim (Bool-cases (w / 2 ^ n % 2 == value)) [
  | inl e ↦ rw e (omega arith)
  | inr e ↦ rw e (find_bit-le value w n (omega arith))
]

pub find_bit-IsWord : (value w : ℕ) → IsWord (find_bit value w 32)
find_bit-IsWord value w = omega (arith, find_bit-le value w 32 (omega arith))

rotated-IsWord : (w : ℕ) → IsWord w → IsWord (rotated w)
rotated-IsWord w hw = or-IsWord (w / 2) (shift_left (bit_and w 1) 31) (omega arith) (omega arith)

destination-IsWord : (o : Operand) (c : Cpu) → IsDestination o → IsCpu c → IsWord (fetch o c)
destination-IsWord (reg n) c h v = v.regs_word n
destination-IsWord (sfu0 n) c h v = v.sfu0_word n
destination-IsWord (sfu1 n) c h v = v.sfu1_word n
destination-IsWord (lit w) c h v = absurd (omega arith)
destination-IsWord (num n) c h v = omega arith
destination-IsWord (code n) c h v = omega arith
destination-IsWord dummy_r0 c h v = v.dummy_word

pub rot_loop-IsCpu :
    (n i : ℕ) (p : Decoded) (c : Cpu) → IsDestination p.dest → IsCpu c → IsCpu (rot_loop n i p c)
unfolding rot_loop
rot_loop-IsCpu zero i p c h v = v
rot_loop-IsCpu (suc n) i p c h v = elim (Bool-cases (ltb i (offset (src2 p c)))) [
  | inl e ↦ rw e (
      rot_loop-IsCpu n (suc i) p (set_dst p (rotated (dst p c)) c) h (
        assign-IsCpu p.dest (rotated (dst p c)) c h
          (rotated-IsWord (dst p c) (destination-IsWord p.dest c h v)) v))
  | inr e ↦ rw e v
]
