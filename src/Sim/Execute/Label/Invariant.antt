-- ===== src/Sim/Execute/Label/Invariant.antt =====
-- sim/execute.c: each instruction keeps the registers words, and r0 0.
use Prim.Native.Nat.{bit_and, bit_or, bit_xor}
use g.Base.{ℕ, ◌+◌, ◌*◌, ◌/◌, ◌^◌, Bool, not, leb, ◌||◌, ◌==◌, arith}
use g.Base.Words.{IsWord, u32, sub32, complement, shift_left}
use g.Sim.Execute.{Decoded, Cpu, src1, src2, carry_bit, set_dst, psr_fp_unit_on, dispatch_next}
use g.Sim.Execute.Arith.{
  add, add_co, add_ci, add_cio, addu, addu_co, addu_ci, addu_cio, sub, sub_bo, sub_bi, sub_bio,
  subu, subu_bo, subu_bi, subu_bio, cmp, compare_word,
}
use g.Sim.Execute.Field.{
  clr, set, extu, mak, ext, ff0, ff1, rot, cleared, filled, extracted, made, extended, find_bit,
}
use g.Sim.Execute.Logic.{
  and, and_c, or, or_c, xor, xor_c, lda_d, lda, lda_h, mul, div, divu, fp_precise_single,
  integer_divide_error,
}
use g.Sim.Execute.Branch.{bcnd, bcnd_n, bb0, bb1, bb0_n, bb1_n}
use g.Sim.Execute.Trap.{tb0, tb1, tbnd, tcnd}
use g.Sim.Execute.Label.{Label, run}
use g.Sim.Execute.Label.Bounds.{
  IsCpu, IsDecoded, and-IsWord, or-IsWord, xor-IsWord, either_branch, either_flag, store,
  first-IsWord, second-IsWord, fp_precise_single-IsCpu, integer_divide_error-IsCpu,
}
use g.Sim.Execute.Label.Values.{
  compare_word-IsWord, cleared-IsWord, filled-IsWord, extracted-IsWord, made-IsWord,
  extended-IsWord, find_bit-IsWord, quotient-IsWord, rot_loop-IsCpu,
}

module _ (dummy_regnum : ℕ) (beyond : ℕ → ℕ → ℕ) (usermode : Bool)
    (dummy_word : IsWord dummy_regnum) (beyond_word : (w k : ℕ) → IsWord (beyond w k)) where
  -- Every instruction on registers leaves every register a word and r0 zero, where they are so
  -- before it, its literals are words, and its destination is neither r0 nor a literal, as the
  -- decoder sees to; what the host gives for
  -- a shift by a negative count and for the number of the dummy are words.
  pub run-IsCpu :
      (label : Label) (p : Decoded) (c : Cpu)
      → IsDecoded p
      → IsCpu c
      → IsCpu (run dummy_regnum beyond usermode label p c).1
  unfolding add add_co add_ci add_cio addu addu_co addu_ci addu_cio sub sub_bo sub_bi sub_bio subu
      subu_bo subu_bi subu_bio cmp clr set extu mak ext ff0 ff1 rot and and_c or or_c xor xor_c
      lda_d lda lda_h mul div divu bcnd bcnd_n bb0 bb1 bb0_n bb1_n tb0 tb1 tbnd tcnd
  run-IsCpu Label.add p c h v =
      let w = store p c h v (u32 (src1 p c + src2 p c)) (omega arith) in either_branch _ _ _ w w
  run-IsCpu Label.add_co p c h v =
      let w = either_flag _ _ (store p c h v (u32 (src1 p c + src2 p c)) (omega arith)) in
      either_branch _ _ _ w w
  run-IsCpu Label.add_ci p c h v =
      let w = store p c h v (u32 (src1 p c + src2 p c + carry_bit c)) (omega arith) in
      either_branch _ _ _ w w
  run-IsCpu Label.add_cio p c h v =
      let w =
        either_flag _ _ (store p c h v (u32 (src1 p c + src2 p c + carry_bit c)) (omega arith)) in
      either_branch _ _ _ w w
  run-IsCpu Label.addu p c h v = store p c h v (u32 (src1 p c + src2 p c)) (omega arith)
  run-IsCpu Label.addu_co p c h v =
      either_flag _ _ (store p c h v (u32 (src1 p c + src2 p c)) (omega arith))
  run-IsCpu Label.addu_ci p c h v =
      store p c h v (u32 (src1 p c + src2 p c + carry_bit c)) (omega arith)
  run-IsCpu Label.addu_cio p c h v =
      either_flag _ _ (store p c h v (u32 (src1 p c + src2 p c + carry_bit c)) (omega arith))
  run-IsCpu Label.sub p c h v =
      let w = store p c h v (sub32 (src1 p c) (src2 p c)) (omega arith) in either_branch _ _ _ w w
  run-IsCpu Label.sub_bo p c h v =
      let w = either_flag _ _ (store p c h v (sub32 (src1 p c) (src2 p c)) (omega arith)) in
      either_branch _ _ _ w w
  run-IsCpu Label.sub_bi p c h v =
      let w = store p c h v (u32 (sub32 (src1 p c) (src2 p c) + carry_bit c)) (omega arith) in
      either_branch _ _ _ w w
  run-IsCpu Label.sub_bio p c h v =
      let w =
        either_flag _ _
          (store p c h v (u32 (sub32 (src1 p c) (src2 p c) + carry_bit c)) (omega arith)) in
      either_branch _ _ _ w w
  run-IsCpu Label.subu p c h v = store p c h v (sub32 (src1 p c) (src2 p c)) (omega arith)
  run-IsCpu Label.subu_bo p c h v =
      either_flag _ _ (store p c h v (sub32 (src1 p c) (src2 p c)) (omega arith))
  run-IsCpu Label.subu_bi p c h v =
      store p c h v (u32 (sub32 (src1 p c) (src2 p c) + carry_bit c)) (omega arith)
  run-IsCpu Label.subu_bio p c h v =
      either_flag _ _
        (store p c h v (u32 (sub32 (src1 p c) (src2 p c) + carry_bit c)) (omega arith))
  run-IsCpu Label.cmp p c h v =
      store p c h v (compare_word (src1 p c) (src2 p c)) (compare_word-IsWord (src1 p c) (src2 p c))
  run-IsCpu Label.clr p c h v =
      store p c h v (cleared (src1 p c) (src2 p c)) (cleared-IsWord (src1 p c) (src2 p c))
  run-IsCpu Label.set p c h v =
      store p c h v (filled (src1 p c) (src2 p c))
        (filled-IsWord (src1 p c) (src2 p c) (first-IsWord p c h v))
  run-IsCpu Label.extu p c h v =
      store p c h v (extracted (src1 p c) (src2 p c))
        (extracted-IsWord (src1 p c) (src2 p c) (first-IsWord p c h v))
  run-IsCpu Label.mak p c h v =
      store p c h v (made (src1 p c) (src2 p c)) (made-IsWord (src1 p c) (src2 p c))
  run-IsCpu Label.ff0 p c h v =
      store p c h v (find_bit 0 (src2 p c) 32) (find_bit-IsWord 0 (src2 p c))
  run-IsCpu Label.ff1 p c h v =
      store p c h v (find_bit 1 (src2 p c) 32) (find_bit-IsWord 1 (src2 p c))
  run-IsCpu Label.rot p c h v = rot_loop-IsCpu 32 0 p c h.destination v
  run-IsCpu Label.ext p c h v =
      store p c h v (extended beyond (src1 p c) (src2 p c))
        (extended-IsWord beyond (src1 p c) (src2 p c) beyond_word (first-IsWord p c h v))
  run-IsCpu Label.and p c h v =
      store p c h v (bit_and (src1 p c) (src2 p c))
        (and-IsWord (src1 p c) (src2 p c) (second-IsWord p c h v))
  run-IsCpu Label.and_c p c h v =
      store p c h v (bit_and (src1 p c) (complement (src2 p c)))
        (and-IsWord (src1 p c) (complement (src2 p c)) (omega arith))
  run-IsCpu Label.or p c h v =
      store p c h v (bit_or (src1 p c) (src2 p c))
        (or-IsWord (src1 p c) (src2 p c) (first-IsWord p c h v) (second-IsWord p c h v))
  run-IsCpu Label.or_c p c h v =
      store p c h v (bit_or (src1 p c) (complement (src2 p c)))
        (or-IsWord (src1 p c) (complement (src2 p c)) (first-IsWord p c h v) (omega arith))
  run-IsCpu Label.xor p c h v =
      store p c h v (bit_xor (src1 p c) (src2 p c))
        (xor-IsWord (src1 p c) (src2 p c) (first-IsWord p c h v) (second-IsWord p c h v))
  run-IsCpu Label.xor_c p c h v =
      store p c h v (bit_xor (src1 p c) (complement (src2 p c)))
        (xor-IsWord (src1 p c) (complement (src2 p c)) (first-IsWord p c h v) (omega arith))
  run-IsCpu Label.lda_d p c h v =
      store p c h v (u32 (src1 p c + shift_left (src2 p c) 3)) (omega arith)
  run-IsCpu Label.lda p c h v =
      store p c h v (u32 (src1 p c + shift_left (src2 p c) 2)) (omega arith)
  run-IsCpu Label.lda_h p c h v =
      store p c h v (u32 (src1 p c + shift_left (src2 p c) 1)) (omega arith)
  run-IsCpu Label.mul p c h v =
      either_branch _ _ _ (fp_precise_single-IsCpu p c h v dummy_regnum dummy_word)
        (store p c h v (u32 (src1 p c * src2 p c)) (omega arith))
  run-IsCpu Label.div p c h v =
      let stored =
        store p c h v (src1 p c / src2 p c)
          (quotient-IsWord (src1 p c) (src2 p c) (first-IsWord p c h v)) in
      let failed = integer_divide_error-IsCpu p c h v dummy_regnum dummy_word in
      either_branch (not (psr_fp_unit_on c)) (fp_precise_single dummy_regnum p c) _
        (fp_precise_single-IsCpu p c h v dummy_regnum dummy_word)
        (either_branch (leb (2 ^ 31) (src1 p c) || (leb (2 ^ 31) (src2 p c) || src2 p c == 0))
          (integer_divide_error dummy_regnum p c) (dispatch_next, set_dst p (src1 p c / src2 p c) c)
          failed stored)
  run-IsCpu Label.divu p c h v =
      let stored =
        store p c h v (src1 p c / src2 p c)
          (quotient-IsWord (src1 p c) (src2 p c) (first-IsWord p c h v)) in
      let failed = integer_divide_error-IsCpu p c h v dummy_regnum dummy_word in
      either_branch (not (psr_fp_unit_on c)) (fp_precise_single dummy_regnum p c) _
        (fp_precise_single-IsCpu p c h v dummy_regnum dummy_word)
        (either_branch (src2 p c == 0) (integer_divide_error dummy_regnum p c)
          (dispatch_next, set_dst p (src1 p c / src2 p c) c) failed stored)
  run-IsCpu (Label.bcnd b) p c h v = v
  run-IsCpu (Label.bcnd_n b) p c h v = v
  run-IsCpu (Label.bb0 k) p c h v = v
  run-IsCpu (Label.bb1 k) p c h v = v
  run-IsCpu (Label.bb0_n k) p c h v = v
  run-IsCpu (Label.bb1_n k) p c h v = v
  run-IsCpu Label.tb0 p c h v = v
  run-IsCpu Label.tb1 p c h v = v
  run-IsCpu Label.tbnd p c h v = v
  run-IsCpu Label.tcnd p c h v = v
