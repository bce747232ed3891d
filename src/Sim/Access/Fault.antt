-- ===== src/Sim/Access/Fault.antt =====
-- sim/misc.c: set_dmt_regs, which describes a memory operation that failed in the Data Memory
-- registers.
use Prim.Native.Nat.{bit_or}
use g.Base.{
  ℕ, ◌+◌, ◌*◌, ◌/◌, ◌%◌, ◌^◌, Bool, true, false, Option, none, some, ◌==◌, ltb, if◌then◌else◌,
}
use g.Base.Words.{u32, shift_left}
use g.Sim.Bus.{Size, byte, half, word, dword}
use g.Sim.Cmmu.{Mode, user, supervisor}
use g.Sim.Execute.{Operand, reg, dummy_r0, Cpu, fetch, set_cr, psr, sbr}
use g.Sim.Access.Host.{MemOp, ld, st, xmem, ld_u, xmem_u, next_register}

-- M_USER is 0 and M_SUPERVISOR is 1.
abbrev pub mode_bit : Mode → ℕ
mode_bit user = 0
mode_bit supervisor = 1

-- The number of the register; a pointer to anything else is far from the registers.
abbrev pub transfer_regnum : Operand → ℕ
transfer_regnum (reg n) = n
transfer_regnum dummy_r0 = 0
transfer_regnum _ = 2 ^ 31

abbrev pub is_store : MemOp → Bool
is_store st = true
is_store _ = false

abbrev pub is_exchange : MemOp → Bool
is_exchange xmem = true
is_exchange xmem_u = true
is_exchange _ = false

abbrev pub is_signed : MemOp → Bool
is_signed ld = true
is_signed xmem = true
is_signed _ = false

abbrev pub is_double : Size → Bool
is_double dword = true
is_double _ = false

-- `read_or_write == WRITE`
abbrev pub writes : MemOp → Bool
writes ld = false
writes ld_u = false
writes _ = true

-- `SBR |= 1 << n`
abbrev pub mark_busy : ℕ → Cpu → Cpu
mark_busy n c = set_cr 63 (bit_or (sbr c) (shift_left 1 n)) c

-- The bytes of the word that take part.
abbrev pub byte_enables : Size → ℕ → ℕ
byte_enables byte a =
    if a % 4 == 0 then 0x20 else if a % 4 == 1 then 0x10 else if a % 4 == 2 then 0x8 else 0x4
byte_enables half a = if a / 2 % 2 == 1 then 0xc else 0x30
byte_enables word a = 0x3c
byte_enables dword a = 0x3c

-- The value, as often as it fits.
abbrev pub replicated : Size → ℕ → ℕ
replicated byte v =
    let w = v % 2 ^ 8 in
    bit_or (bit_or (bit_or (shift_left w 24) (shift_left w 16)) (shift_left w 8)) w
replicated half v = let w = v % 2 ^ 16 in bit_or (shift_left w 16) w
replicated word v = v
replicated dword v = v

-- DMT0 without the bit of a double word.
abbrev pub transaction : Mode → MemOp → Size → Operand → ℕ → Cpu → ℕ
transaction mode op size r a c =
    let t0 =
      bit_or (bit_or (bit_or (shift_left (transfer_regnum r) 7) 1) (shift_left (mode_bit mode) 14))
        (shift_left (psr c / 2 ^ 30 % 2) 15) in
    let t1 = if writes op then bit_or t0 2 else t0 in
    let t2 = if is_exchange op then bit_or t1 0x1000 else t1 in
    let t3 = if is_signed op then bit_or t2 0x40 else t2 in bit_or t3 (byte_enables size a)

-- The registers of the second word.
abbrev pub second_transaction : Mode → MemOp → Operand → ℕ → Cpu → Cpu
second_transaction mode op r a c =
    let t = transaction mode op dword r a c in
    let c1 = set_cr 13 (u32 (a / 4 * 4 + 4)) c in
    let c2 = set_cr 11 (u32 (t + 0x80)) c1 in
    set_cr 12 (fetch (next_register r) c2) (set_cr 8 (bit_or t 0x2000) c2)

abbrev pub describe : Mode → MemOp → Size → Operand → ℕ → Cpu → Cpu
describe mode op size r a c =
    let c1 = set_cr 8 (transaction mode op size r a c) c in
    let c2 = set_cr 9 (replicated size (fetch r c)) (set_cr 10 (a / 4 * 4) c1) in
    if is_double size then second_transaction mode op r a c2 else c2

abbrev pub mark_destination : MemOp → Size → Operand → Cpu → Cpu
mark_destination op size r c =
    let c1 = mark_busy (transfer_regnum r) c in
    if is_store op then c else if is_double size then mark_busy (transfer_regnum r + 1) c1 else c1

-- `none` is err.
unfoldable pub set_dmt_regs : Mode → MemOp → Size → Operand → ℕ → Cpu → Option Cpu
set_dmt_regs mode op size r a c =
    let c1 = mark_destination op size r c in
    if ltb 31 (transfer_regnum r)
    then none
    else if psr c % 2 == 1
    then some c1
    else some (describe mode op size r a c1)
