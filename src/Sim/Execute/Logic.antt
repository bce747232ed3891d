-- ===== src/Sim/Execute/Logic.antt =====
-- sim/execute.c: the logical instructions, the multiplication, the divisions and the scaled
-- addresses.
use Prim.Native.Nat.{bit_and, bit_or, bit_xor}
use g.Base.{ℕ, ◌+◌, ◌*◌, ◌/◌, ◌^◌, ◌==◌, leb, ◌||◌, not, if◌then◌else◌}
use g.Base.Words.{u32, complement, shift_left}
use g.Sim.Execute.{
  Operand, reg, Decoded, Cpu, Ending, dispatch_next, gen_exception, put, src1, src2, set_dst, sbr,
  set_cr, psr_fp_unit_on, check_stack,
}

unfoldable pub and : Decoded → Cpu → Ending × Cpu
and p c = (dispatch_next, set_dst p (bit_and (src1 p c) (src2 p c)) c)

unfoldable pub and_c : Decoded → Cpu → Ending × Cpu
and_c p c = (dispatch_next, set_dst p (bit_and (src1 p c) (complement (src2 p c))) c)

unfoldable pub or : Decoded → Cpu → Ending × Cpu
or p c = let c1 = set_dst p (bit_or (src1 p c) (src2 p c)) c in (check_stack c1, c1)

unfoldable pub or_c : Decoded → Cpu → Ending × Cpu
or_c p c = (dispatch_next, set_dst p (bit_or (src1 p c) (complement (src2 p c))) c)

unfoldable pub xor : Decoded → Cpu → Ending × Cpu
xor p c = (dispatch_next, set_dst p (bit_xor (src1 p c) (src2 p c)) c)

unfoldable pub xor_c : Decoded → Cpu → Ending × Cpu
xor_c p c = (dispatch_next, set_dst p (bit_xor (src1 p c) (complement (src2 p c))) c)

unfoldable pub lda_d : Decoded → Cpu → Ending × Cpu
lda_d p c = (dispatch_next, set_dst p (u32 (src1 p c + shift_left (src2 p c) 3)) c)

unfoldable pub lda : Decoded → Cpu → Ending × Cpu
lda p c = (dispatch_next, set_dst p (u32 (src1 p c + shift_left (src2 p c) 2)) c)

unfoldable pub lda_h : Decoded → Cpu → Ending × Cpu
lda_h p c = (dispatch_next, set_dst p (u32 (src1 p c + shift_left (src2 p c) 1)) c)

-- `dummy_regnum` is the distance of `dummy_r0` from the registers, which is what REGNUM gives for
-- it.
module _ (dummy_regnum : ℕ) where
  -- REGNUM
  abbrev pub regnum : Operand → ℕ
  regnum (reg n) = n
  regnum _ = dummy_regnum

  -- `SBR |= 1 << n`
  abbrev pub scoreboard : ℕ → Cpu → Cpu
  scoreboard n c = set_cr 63 (bit_or (sbr c) (shift_left 1 n)) c

  -- The label `fp_precise_single`, which raises E_FP.
  abbrev pub fp_precise_single : Decoded → Cpu → Ending × Cpu
  fp_precise_single p c = (gen_exception 114, scoreboard (regnum p.dest) c)

  -- SET_FP_CREGS, and E_IDE.
  abbrev pub integer_divide_error : Decoded → Cpu → Ending × Cpu
  integer_divide_error p c =
      let f0 = c.sfu1_regs in
      let f1 = put 2 (src1 p c) f0 in
      let f2 = put 4 (src2 p c) f1 in
      let f3 = put 5 (regnum p.dest) f2 in
      (gen_exception 8, scoreboard (regnum p.dest) (record c { sfu1_regs = f3 }))

  unfoldable pub mul : Decoded → Cpu → Ending × Cpu
  mul p c =
      if not (psr_fp_unit_on c)
      then fp_precise_single p c
      else (dispatch_next, set_dst p (u32 (src1 p c * src2 p c)) c)

  -- The first operand is not negative and the second is positive where `int`s are divided.
  unfoldable pub div : Decoded → Cpu → Ending × Cpu
  div p c =
      if not (psr_fp_unit_on c)
      then fp_precise_single p c
      else if leb (2 ^ 31) (src1 p c) || (leb (2 ^ 31) (src2 p c) || src2 p c == 0)
      then integer_divide_error p c
      else (dispatch_next, set_dst p (src1 p c / src2 p c) c)

  unfoldable pub divu : Decoded → Cpu → Ending × Cpu
  divu p c =
      if not (psr_fp_unit_on c)
      then fp_precise_single p c
      else if src2 p c == 0
      then integer_divide_error p c
      else (dispatch_next, set_dst p (src1 p c / src2 p c) c)
