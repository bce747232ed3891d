-- ===== src/Sim/Execute/Trap.antt =====
-- sim/execute.c: the trap instructions tb0, tb1, tbnd and tcnd.
pub mod Bits
use Prim.Native.Nat.{bit_and, bit_or}
use g.Base.{
  ℕ, ◌+◌, ◌-◌, ◌*◌, ◌/◌, ◌%◌, ◌^◌, Bool, true, false, ◌==◌, ltb, leb, ◌&&◌, ◌||◌, not,
  if◌then◌else◌,
}
use g.Base.Words.{truth}
use g.Sim.Execute.{
  Operand, num, Decoded, Cpu, Ending, dispatch_next, gen_exception, return_pt, hosed, breakpoint,
  src1, src2, sbr,
}

-- A field of the decoded instruction that holds a number.
abbrev pub number : Operand → ℕ
number (num n) = n
number _ = 0

-- The vector of a trap; user mode may not take the first 128. E_PRV is 6.
abbrev pub raise_trap : (usermode : Bool) → ℕ → Ending
raise_trap usermode vec = if usermode && ltb vec 128 then gen_exception 6 else gen_exception vec

-- TR_BPT is 254.
unfoldable pub tb0 : (usermode : Bool) → Decoded → Cpu → Ending × Cpu
tb0 usermode p c = (
  if truth (sbr c)
      then return_pt hosed
      else if bit_and (src1 p c) (number p.dest) == 0
      then (if usermode && ltb (number p.s2) 128
          then gen_exception 6
          else if number p.s2 == 254
          then return_pt breakpoint
          else gen_exception (number p.s2))
      else dispatch_next,
  c,
)

unfoldable pub tb1 : (usermode : Bool) → Decoded → Cpu → Ending × Cpu
tb1 usermode p c = (
  if truth (sbr c)
      then return_pt hosed
      else if bit_and (src1 p c) (number p.dest) == 1
      then raise_trap usermode (number p.s2)
      else dispatch_next,
  c,
)

-- E_BND is 7.
unfoldable pub tbnd : Decoded → Cpu → Ending × Cpu
tbnd p c = (if ltb (src2 p c) (src1 p c) then gen_exception 7 else dispatch_next, c)

abbrev pub cc_index : ℕ → ℕ
cc_index w = bit_or (bit_and (w / 2 ^ 30) 2) (if bit_and w 0x7fffffff == 0 then 1 else 0)

unfoldable pub tcnd : (usermode : Bool) → Decoded → Cpu → Ending × Cpu
tcnd usermode p c = (
  if number p.dest / 2 ^ cc_index (src1 p c) % 2 == 1
      then raise_trap usermode (number p.s2)
      else dispatch_next,
  c,
)
