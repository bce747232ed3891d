-- ===== src/Sim/Execute/Label.antt =====
-- sim/execute.c: the labels of the instructions that work on registers alone, and DISPATCH, which
-- goes to the label of an instruction.
pub mod Bounds
pub mod Values
pub mod Invariant
use g.Base.{ℕ, Bool}
use g.Sim.Execute.{Decoded, Cpu, Ending, dispatch_next}
use g.Sim.Execute.Arith as Arith
use g.Sim.Execute.Field as Field
use g.Sim.Execute.Logic as Logic
use g.Sim.Execute.Branch as Branch
use g.Sim.Execute.Trap as Trap

pub data Label : Type 0 where
  add add_co add_ci add_cio addu addu_co addu_ci addu_cio sub sub_bo sub_bi sub_bio subu : Label
  subu_bo subu_bi subu_bio cmp : Label
  clr set extu mak ff0 ff1 rot ext : Label
  and and_c or or_c xor xor_c lda_d lda lda_h mul div divu : Label
  bcnd bcnd_n : Branch.Bcnd → Label
  bb0 bb1 bb0_n bb1_n : ℕ → Label
  tb0 tb1 tbnd tcnd : Label

-- The code at a label. `dummy_regnum` and `beyond` are what the code takes from the host, and
-- `usermode` is USERMODE.
module _ (dummy_regnum : ℕ) (beyond : ℕ → ℕ → ℕ) (usermode : Bool) where
  abbrev pub run : Label → Decoded → Cpu → Ending × Cpu
  run add = Arith.add
  run add_co = Arith.add_co
  run add_ci = Arith.add_ci
  run add_cio = Arith.add_cio
  run addu = Arith.addu
  run addu_co = Arith.addu_co
  run addu_ci = Arith.addu_ci
  run addu_cio = Arith.addu_cio
  run sub = Arith.sub
  run sub_bo = Arith.sub_bo
  run sub_bi = Arith.sub_bi
  run sub_bio = Arith.sub_bio
  run subu = Arith.subu
  run subu_bo = Arith.subu_bo
  run subu_bi = Arith.subu_bi
  run subu_bio = Arith.subu_bio
  run cmp = Arith.cmp
  run clr = Field.clr
  run set = Field.set
  run extu = Field.extu
  run mak = Field.mak
  run ff0 = Field.ff0
  run ff1 = Field.ff1
  run rot = Field.rot
  run ext = Field.ext beyond
  run and = Logic.and
  run and_c = Logic.and_c
  run or = Logic.or
  run or_c = Logic.or_c
  run xor = Logic.xor
  run xor_c = Logic.xor_c
  run lda_d = Logic.lda_d
  run lda = Logic.lda
  run lda_h = Logic.lda_h
  run mul = Logic.mul dummy_regnum
  run div = Logic.div dummy_regnum
  run divu = Logic.divu dummy_regnum
  run (bcnd b) = Branch.bcnd b
  run (bcnd_n b) = Branch.bcnd_n b
  run (bb0 k) = Branch.bb0 k
  run (bb1 k) = Branch.bb1 k
  run (bb0_n k) = Branch.bb0_n k
  run (bb1_n k) = Branch.bb1_n k
  run tb0 = Trap.tb0 usermode
  run tb1 = Trap.tb1 usermode
  run tcnd = Trap.tcnd usermode
  run tbnd = Trap.tbnd
