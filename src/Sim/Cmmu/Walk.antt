-- ===== src/Sim/Cmmu/Walk.antt =====
-- sim/cmmu.c: the walk of l_to_p through the segment and page tables, and l_to_p. The walk answers
-- with the exception of the CMMU, E_DACC or E_CACC, where it fails.
use g.Base.{
  ℕ, ◌+◌, ◌*◌, ◌/◌, ◌%◌, ◌^◌, Bool, false, Option, none, some, ltb, leb, ◌&&◌, ◌||◌, not,
  if◌then◌else◌,
}
use g.Sim.Bus.{Bus}
use g.Sim.Memory.{Memory, update, read_sim_w, write_sim_w}
use g.Sim.Cmmu.{
  Mode, Access, Exception, is_user, is_write, Cmmu, Mmu, Translation, bit, base, writethru,
  supervisor_only, global, cacheinhibit, writeprotect, valid, mark_modified, mark_used, no_address,
  fault, in_control_memory, control_memory, load_area, straight_through, search_batc, through_batc,
}

-- A descriptor address: an entry of 4 bytes in a table at a page boundary.
abbrev pub descriptor_address : ℕ → ℕ → ℕ
descriptor_address table number = (table * 4096 + number * 4) % 2 ^ 32

-- `last_cacheinhibit |= …` and the two like it.
abbrev pub add_flags : {S : Type 0} → ℕ → Mmu S → Mmu S
add_flags w s = record s {
  last_cacheinhibit = s.last_cacheinhibit || cacheinhibit w;
  last_global = s.last_global || global w;
  last_writethru = s.last_writethru || writethru w;
}

-- The page descriptor once it is used, and modified by a write.
abbrev pub touch : Access → ℕ → ℕ
touch Access.read w = mark_used w
touch Access.write w = mark_used (mark_modified w)

module _ (bus : Bus) (big : Bool) (ex : Exception) where
  -- The descriptor goes back to its table, and the translation succeeds even if that fails.
  unfoldable pub update_descriptor : Access → ℕ → Mmu bus.State → Translation bus.State
  update_descriptor access pa s =
      let w = s.regs.page_descriptor in
      let m = (write_sim_w bus big s.regs.page_descriptor_address (touch access w) s.memory).1 in
      record {
        exception = Exception.e_none;
        physical_address = pa;
        mmu = add_flags w (record s {
          memory = m;
          regs = record s.regs {
            page_descriptor = touch access w;
            faultcode = if m.sim_errno then 3 else s.regs.faultcode;
          };
        });
      }

  unfoldable pub check_writeprotect : Access → ℕ → Mmu bus.State → Translation bus.State
  check_writeprotect access la s =
      let pa = (base s.regs.page_descriptor * 4096 + la % 4096) % 2 ^ 32 in
      let protect = writeprotect s.regs.segment_descriptor || writeprotect s.regs.page_descriptor in
      let s' = record s { last_writeprotect = protect } in
      if is_write access && protect then fault ex 7 pa s' else update_descriptor access pa s'

  unfoldable pub walk_page : Mode → Access → ℕ → Mmu bus.State → Translation bus.State
  walk_page mode access la s =
      let address = descriptor_address (base s.regs.segment_descriptor) (la / 2 ^ 12 % 1024) in
      let (w, m) = read_sim_w bus address s.memory in
      let s' = record s {
        memory = m;
        regs = record s.regs { page_descriptor_address = address; page_descriptor = w };
      } in
      if m.sim_errno
      then fault ex 3 0 s'
      else if not (valid w)
      then fault ex 5 0 s'
      else if is_user mode && supervisor_only w
      then fault ex 6 0 s'
      else check_writeprotect access la s'

  -- A fault on the segment descriptor, which leaves no page descriptor.
  abbrev pub segment_fault : ℕ → Mmu bus.State → Translation bus.State
  segment_fault code s =
      fault ex code 0 (record s { regs = record s.regs { page_descriptor_address = no_address } })

  unfoldable pub walk_segment : Mode → Access → ℕ → Mmu bus.State → Translation bus.State
  walk_segment mode access la s =
      let address = descriptor_address s.regs.area_descriptor.segment_table_base (la / 2 ^ 22) in
      let (w, m) = read_sim_w bus address s.memory in
      let s' = record s {
        memory = m;
        regs = record s.regs { segment_descriptor_address = address; segment_descriptor = w };
      } in
      if m.sim_errno
      then segment_fault 3 s'
      else if not (valid w)
      then segment_fault 4 s'
      else if is_user mode && supervisor_only w
      then segment_fault 6 (add_flags w s')
      else walk_page mode access la (add_flags w s')

  -- The body of l_to_p, once the CMMU is chosen.
  unfoldable pub translate : Mode → Access → ℕ → Mmu bus.State → Translation bus.State
  translate mode access la s =
      let s0 = record s {
        regs = record s.regs { batc = record s.regs.batc { valid = false } };
        last_writeprotect = false;
      } in
      if in_control_memory mode la
      then control_memory la s0
      else (let s1 = load_area mode s0 in
          if not s1.regs.area_descriptor.valid
          then straight_through la s1
          else elim (search_batc mode la s1.regs.bwp) [
            | some b ↦ through_batc ex access la b s1
            | none ↦ walk_segment mode access la s1
          ])

-- `cmmu_table`, `cmmus` and `selected_processor`, with what a translation works on beside them.
pub record Cmmus (S : Type 0) : Type 0 where
  pub cmmu_table : ℕ → Cmmu
  pub cmmus : ℕ
  pub selected_processor : ℕ
  pub memory : Memory S
  pub last_global : Bool
  pub last_writethru : Bool
  pub last_cacheinhibit : Bool
  pub last_writeprotect : Bool

-- DACC_OR_CACC, of the CMMU that is chosen.
abbrev pub dacc_or_cacc : ℕ → Exception
dacc_or_cacc cmmu = if ltb cmmu 4 then Exception.e_dacc else Exception.e_cacc

abbrev pub chosen : ℕ → ℕ → ℕ
chosen selected_processor cmmu = selected_processor + (if leb 4 cmmu then 4 else 0)

-- What a translation by the CMMU of a number works on, and what its answer does to it.
abbrev pub selected : {S : Type 0} → Cmmus S → ℕ → Mmu S
selected t i = record {
  memory = t.memory;
  regs = t.cmmu_table i;
  last_global = t.last_global;
  last_writethru = t.last_writethru;
  last_cacheinhibit = t.last_cacheinhibit;
  last_writeprotect = t.last_writeprotect;
}

abbrev pub answer : {S : Type 0} → Cmmus S → ℕ → Translation S → Exception × ℕ × Cmmus S
answer t i r = (
  r.exception,
  r.physical_address,
  record t {
    cmmu_table = update t.cmmu_table i r.mmu.regs;
    memory = r.mmu.memory;
    last_global = r.mmu.last_global;
    last_writethru = r.mmu.last_writethru;
    last_cacheinhibit = r.mmu.last_cacheinhibit;
    last_writeprotect = r.mmu.last_writeprotect;
  },
)

-- `none` is err, which ends the program.
unfoldable pub l_to_p :
    (bus : Bus)
    → Bool
    → Mode
    → ℕ
    → ℕ
    → Access
    → Cmmus bus.State
    → Option (Exception × ℕ × Cmmus bus.State)
l_to_p bus big mode la cmmu access t =
    if not (bit cmmu t.cmmus)
    then none
    else (let i = chosen t.selected_processor cmmu in
        some (answer t i (translate bus big (dacc_or_cacc i) mode access la (selected t i))))
