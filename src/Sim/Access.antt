-- ===== src/Sim/Access.antt =====
-- sim/execute.c, sim/misc.c and sim/siminit.c: the loads, stores and exchanges of the 88100, through
-- the software tlbs and l_mem_op. Tracing is off.
pub mod Host
pub mod Tlb
pub mod Fault
pub mod Labels
pub mod Stores
pub mod Entered
pub mod Keeping
pub mod Steps
pub mod Bytes
pub mod Retrieve
pub mod Pairs
pub mod Reread
mod Tests
use g.Base.{
  ℕ, ◌+◌, ◌-◌, ◌*◌, ◌/◌, ◌%◌, ◌^◌, Bool, true, false, Option, none, some, ◌==◌, leb, ◌&&◌, not,
  if◌then◌else◌,
}
use g.Sim.Bus.{Bus, Size, byte, half, word, dword}
use g.Sim.Memory.{Page, Memory, update, find_page}
use g.Sim.Cmmu.{Mode, user, supervisor, Access, Exception, e_none, e_dacc, e_cacc, is_user, Cmmu}
use g.Sim.Cmmu.Walk.{Cmmus, l_to_p}
use g.Sim.Execute.{Operand, Cpu}
use g.Sim.Access.Host.{MemOp, do_mem_op}
use g.Sim.Access.Tlb.{Tlbs, entry, enter, set_mode, poff}
use g.Sim.Access.Fault.{set_dmt_regs, writes}

-- io_operation (sim/io.c), which moves the registers to or from a device.
pub record Devices : Type 1 where
  pub bus : Bus
  pub io_operation : Size → MemOp → Operand → ℕ → Cpu → bus.State → Exception × Cpu × bus.State

-- What an operation works on; the CMMUs have the memory.
pub record Space (S : Type 0) : Type 0 where
  pub cmmus : Cmmus S
  pub tlbs : Tlbs
  pub cpu : Cpu
  pub sim_catch_exception : ℕ → Bool

abbrev pub bytes : Size → ℕ
bytes byte = 1
bytes half = 2
bytes word = 4
bytes dword = 8

-- `a & ~(size - 1)`
abbrev pub align : Size → ℕ → ℕ
align size a = a / bytes size * bytes size

abbrev pub access_of : MemOp → Access
access_of op = if writes op then Access.write else Access.read

abbrev pub is_none : Exception → Bool
is_none e_none = true
is_none _ = false

abbrev pub is_dacc : Exception → Bool
is_dacc e_dacc = true
is_dacc _ = false

module _ {S : Type 0} where
  -- The hack: a data access fault of the supervisor is caught from then on. E_DACC is 3.
  abbrev pub catch_dacc : Exception → Mode → Space S → Space S
  catch_dacc ex mode s = record s {
    sim_catch_exception =
        if is_dacc ex && not (is_user mode) && s.sim_catch_exception 1024
        then update s.sim_catch_exception 3 true
        else s.sim_catch_exception;
  }

  -- set_dmt_regs on the registers; `none` is err.
  abbrev pub note_fault : Mode → MemOp → Size → Operand → ℕ → Space S → Option (Space S)
  note_fault mode op size r a s = elim (set_dmt_regs mode op size r a s.cpu) [
    | none ↦ none
    | some c ↦ some (record s { cpu = c })
  ]

  -- The CMMUs after a change of the simulated memory.
  abbrev pub with_memory : Memory S → Space S → Space S
  with_memory m s = record s { cmmus = record s.cmmus { memory = m } }

  -- The words of a page, which is allocated if it is not there.
  abbrev pub page_words : ℕ → Space S → ℕ → ℕ
  page_words page s = (find_page page s.cmmus.memory).0.values

  abbrev pub set_words : ℕ → (ℕ → ℕ) → Space S → Space S
  set_words page values s =
      let (p, m) = find_page page s.cmmus.memory in
      with_memory
        (record m { page_table = update m.page_table page (some (record p { values = values })) }) s

  -- The operation on a page, at an offset in it.
  unfoldable pub move :
      Bool
      → (Bool → Operand → ℕ → (ℕ → ℕ) → Cpu → (ℕ → ℕ) × Cpu)
      → Operand
      → ℕ
      → ℕ
      → Space S
      → Space S
  move big f r page o s =
      let (values, c) = f big r o (page_words page s) s.cpu in
      record (set_words page values s) { cpu = c }

-- The load tlb of the mode.
abbrev pub enter_load : Mode → ℕ → ℕ → Tlbs → Tlbs
enter_load mode a page t = record t {
  load_tlb = set_mode mode (enter (t.load_tlb mode) a page) t.load_tlb;
}

abbrev pub enter_store : Mode → ℕ → ℕ → Tlbs → Tlbs
enter_store mode a page t = record t {
  store_tlb = set_mode mode (enter (t.store_tlb mode) a page) t.store_tlb;
}

-- The tlbs after the operation; a store or an exchange whose page is in the store tlb is err.
unfoldable pub load_tlbs : MemOp → Mode → ℕ → ℕ → Tlbs → Option Tlbs
load_tlbs op mode a page t =
    let t1 = enter_load mode a page t in
    if writes op
    then elim (entry (t1.store_tlb mode) a) [
      | some p ↦ none
      | none ↦ some (enter_store mode a page t1)
    ]
    else some t1

-- cmmu_set_bus_error; `cmmu_number` is cmmu_number_table.
abbrev pub set_bus_error : {S : Type 0} → (ℕ → ℕ) → ℕ → Cmmus S → Cmmus S
set_bus_error cmmu_number pa t =
    let fault : ℕ → (ℕ → Cmmu) → ℕ → Cmmu =
      λ n table. update table n (record (table n) { faultcode = 3 }) in
    record t {
      cmmu_table =
          fault (cmmu_number (4 + pa / 2 ^ 12 % 4))
            (fault (cmmu_number (pa / 2 ^ 12 % 4)) t.cmmu_table);
    }

module _ (d : Devices) (big : Bool) (cmmu_number : ℕ → ℕ) where
  -- The part for a device, at the physical address.
  unfoldable pub device_op :
      Mode
      → MemOp
      → Size
      → Operand
      → ℕ
      → ℕ
      → Space d.bus.State
      → Option (Exception × Space d.bus.State)
  device_op mode op size r a pa s =
      let (ex, c, io) = d.io_operation size op r pa s.cpu s.cmmus.memory.io in
      let s1 = with_memory (record s.cmmus.memory { io = io }) (record s { cpu = c }) in
      if is_none ex then some (ex, s1) else elim (note_fault mode op size r a s1) [
        | none ↦ none
        | some s2 ↦
            let s3 = record s2 { cmmus = set_bus_error cmmu_number pa s2.cmmus } in
            some (ex, catch_dacc ex mode s3)
      ]

  -- The part for the memory, which fills the tlbs. The offset is that of the logical address.
  unfoldable pub memory_op :
      Mode
      → MemOp
      → Size
      → Operand
      → ℕ
      → ℕ
      → Space d.bus.State
      → Option (Exception × Space d.bus.State)
  unfolding move
  memory_op mode op size r a pa s =
      let page = pa / 2 ^ 12 in
      let s1 = move big (λ b. do_mem_op b op size) r page (poff a) s in
      elim (load_tlbs op mode a page s1.tlbs) [
        | none ↦ none
        | some t ↦ some (e_none, record s1 { tlbs = t })
      ]

  -- A translation that fails; it is noted with shadowing on.
  abbrev pub translation_fault :
      Exception
      → Mode
      → MemOp
      → Size
      → Operand
      → ℕ
      → Space d.bus.State
      → Option (Exception × Space d.bus.State)
  translation_fault ex mode op size r a s =
      let s1 = catch_dacc ex mode s in
      if s1.cpu.sfu0_regs 1 % 2 == 0
      then elim (note_fault mode op size r a s1) [ none ↦ none | some s2 ↦ some (ex, s2) ]
      else some (ex, s1)

  -- The exception code, and the state; `none` is err.
  unfoldable pub l_mem_op :
      Mode → MemOp → Size → Operand → ℕ → Space d.bus.State → Option (Exception × Space d.bus.State)
  l_mem_op mode op size r a s =
      elim (l_to_p d.bus big mode a (cmmu_number (a / 2 ^ 12 % 4)) (access_of op) s.cmmus) [
        | none ↦ none
        | some (ex, pa, t) ↦
            let s1 = record s { cmmus = t } in
            let pa' = align size pa in
            if not (is_none ex)
            then translation_fault ex mode op size r a s1
            else if leb s1.cmmus.memory.memory_size pa'
            then device_op mode op size r a pa' s1
            else memory_op mode op size r a pa' s1
      ]
