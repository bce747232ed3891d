-- ===== src/Sim/Execute.antt =====
-- sim/execute.c, sim/sim.h and sim/simdecode.c: the registers of the simulated 88100, the operands
-- of a decoded instruction, and what every instruction of `sim` uses of them.
pub mod Arith
pub mod Field
pub mod Logic
pub mod Branch
pub mod Trap
pub mod Machine
pub mod Exception
pub mod Rte
pub mod Flow
pub mod Control
pub mod Label
mod Tests
use Prim.Native.Nat.{bit_and, bit_or}
use g.Base.{
  ℕ, ◌+◌, ◌-◌, ◌*◌, ◌/◌, ◌%◌, ◌^◌, Bool, true, false, ◌==◌, ltb, leb, ◌&&◌, ◌||◌, not,
  if◌then◌else◌,
}
use g.Base.Words.{u32, complement, truth}

-- What a field of `struct decoded_i` holds: the address of a register, of the dummy destination or
-- of a literal, a number that is cast to a pointer, or the decoded instruction at an address of the
-- page.
pub data Operand : Type 0 where
  reg sfu0 sfu1 lit num code : ℕ → Operand
  dummy_r0 : Operand

-- `struct decoded_i`, less the entry point.
pub record Decoded : Type 0 where
  pub dest : Operand
  pub s1 : Operand
  pub s2 : Operand

-- The register files, and `dummy_r0`, which takes what is stored into r0.
pub record Cpu : Type 0 where
  pub regs : ℕ → ℕ
  pub sfu0_regs : ℕ → ℕ
  pub sfu1_regs : ℕ → ℕ
  pub dummy : ℕ

-- What `sim` returns; `none_cause` is NONE.
pub data Cause : Type 0 where
  none_cause breakpoint interrupt hosed caught_exception mpswitch : Cause

-- How the code of an instruction ends: DISPATCH_NEXT, TAKE_BRANCH, TAKE_DELAYED_BRANCH, a jump to
-- gen_exception with the exception code, or a jump to return_pt with the cause.
pub data Ending : Type 0 where
  dispatch_next take_branch take_delayed_branch : Ending
  gen_exception : ℕ → Ending
  return_pt : Cause → Ending

-- `a[n] = v`
abbrev pub put : ℕ → ℕ → (ℕ → ℕ) → ℕ → ℕ
put n v a k = if k == n then v else a k

-- `*operand`. A number or a decoded instruction is never read through.
abbrev pub fetch : Operand → Cpu → ℕ
fetch (reg n) c = c.regs n
fetch (sfu0 n) c = c.sfu0_regs n
fetch (sfu1 n) c = c.sfu1_regs n
fetch (lit w) c = w
fetch (num n) c = 0
fetch (code n) c = 0
fetch dummy_r0 c = c.dummy

-- `*operand = v`. Only registers and the dummy are stored to.
abbrev pub assign : Operand → ℕ → Cpu → Cpu
assign (reg n) v c = record c { regs = put n v c.regs }
assign (sfu0 n) v c = record c { sfu0_regs = put n v c.sfu0_regs }
assign (sfu1 n) v c = record c { sfu1_regs = put n v c.sfu1_regs }
assign (lit w) v c = c
assign (num n) v c = c
assign (code n) v c = c
assign dummy_r0 v c = record c { dummy = v }

-- SRC1, SRC2 and DST.
abbrev pub src1 : Decoded → Cpu → ℕ
src1 p c = fetch p.s1 c

abbrev pub src2 : Decoded → Cpu → ℕ
src2 p c = fetch p.s2 c

abbrev pub dst : Decoded → Cpu → ℕ
dst p c = fetch p.dest c

abbrev pub set_dst : Decoded → ℕ → Cpu → Cpu
set_dst p v c = assign p.dest v c

-- The control registers that the code names, by their number.
abbrev pub psr : Cpu → ℕ
psr c = c.sfu0_regs 1

abbrev pub stackbase : Cpu → ℕ
stackbase c = c.sfu0_regs 21

abbrev pub sbr : Cpu → ℕ
sbr c = c.sfu0_regs 63

abbrev pub set_cr : ℕ → ℕ → Cpu → Cpu
set_cr n v c = record c { sfu0_regs = put n v c.sfu0_regs }

abbrev pub carry_bit : Cpu → ℕ
carry_bit c = psr c / 2 ^ 28 % 2

-- SET_CARRY
abbrev pub set_carry : Cpu → Cpu
set_carry c = set_cr 1 (bit_or (psr c) 0x10000000) c

-- ZERO_CARRY
abbrev pub zero_carry : Cpu → Cpu
zero_carry c = set_cr 1 (bit_and (psr c) 0xefffffff) c

abbrev pub psr_fp_unit_on : Cpu → Bool
psr_fp_unit_on c = bit_and (psr c) 8 == 0

-- The test of CHECK_STACK.
abbrev pub stack_overflows : Cpu → Bool
stack_overflows c = truth (stackbase c) && leb (2 ^ 31) (psr c) && ltb (c.regs 31) (stackbase c)

-- CHECK_STACK, and the DISPATCH_NEXT after it.
abbrev pub check_stack : Cpu → Ending
check_stack c = if stack_overflows c then return_pt hosed else dispatch_next
