-- ===== src/Sim/Cmmu.antt =====
-- sim/cmmu.c and sim/cmmu.h: l_to_p, the translation of a logical address of the 88100 to a
-- physical one by an 88200: the hardwired control memory, the area descriptor, the block ports, and
-- the walk of the segment and page tables in the simulated memory. A descriptor is its word; the
-- bit fields of cmmu.h are counted from the most significant bit, as on the host that g88 is for.
pub mod Walk
pub mod Tables
mod Tests
pub mod Protection
use Prim.Native.Nat.{bit_or}
use g.Base.{
  ℕ, ◌+◌, ◌-◌, ◌*◌, ◌/◌, ◌%◌, ◌^◌, Bool, true, false, Option, none, some, List, [], ◌∷◌, ◌==◌, leb,
  ltb, ◌&&◌, ◌||◌, not, if◌then◌else◌,
}
use g.Sim.Bus.{Bus}
use g.Sim.Memory.{Memory, read_sim_w, write_sim_w}

pub data Mode : Type 0 where
  user supervisor : Mode

pub data Access : Type 0 where
  read write : Access

-- E_NONE, E_DACC and E_CACC.
pub data Exception : Type 0 where
  e_none e_dacc e_cacc : Exception

abbrev pub is_user : Mode → Bool
is_user Mode.user = true
is_user Mode.supervisor = false

abbrev pub is_write : Access → Bool
is_write Access.write = true
is_write Access.read = false

-- `struct area_descriptor`
pub record Area : Type 0 where
  pub segment_table_base : ℕ
  pub writethru : Bool
  pub global : Bool
  pub cacheinhibit : Bool
  pub valid : Bool

-- `struct cmmu_batc`
pub record Batc : Type 0 where
  pub l_base_address : ℕ
  pub p_base_address : ℕ
  pub supervisor : Bool
  pub writethru : Bool
  pub global : Bool
  pub cacheinhibit : Bool
  pub writeprotect : Bool
  pub valid : Bool

-- A bit of a descriptor.
abbrev pub bit : ℕ → ℕ → Bool
bit k w = w / 2 ^ k % 2 == 1

-- The word with the bit set.
abbrev pub with_bit : ℕ → ℕ → ℕ
with_bit k w = if bit k w then w else w + 2 ^ k

-- The fields of `struct segment_descriptor` and `struct page_descriptor`.
abbrev pub base : ℕ → ℕ
base w = w / 2 ^ 12

abbrev pub writethru : ℕ → Bool
writethru = bit 9

abbrev pub supervisor_only : ℕ → Bool
supervisor_only = bit 8

abbrev pub global : ℕ → Bool
global = bit 7

abbrev pub cacheinhibit : ℕ → Bool
cacheinhibit = bit 6

abbrev pub writeprotect : ℕ → Bool
writeprotect = bit 2

abbrev pub valid : ℕ → Bool
valid = bit 0

-- `modified` is bit 4 and `used` is bit 3.
abbrev pub mark_modified : ℕ → ℕ
mark_modified w = with_bit 4 w

abbrev pub mark_used : ℕ → ℕ
mark_used w = with_bit 3 w

-- -1 as an address.
abbrev pub no_address : ℕ
no_address = 2 ^ 32 - 1

-- The registers of `struct cmmu_registers` that l_to_p reads or writes.
pub record Cmmu : Type 0 where
  pub sapr : Area
  pub uapr : Area
  pub bwp : List Batc
  pub faultcode : ℕ
  pub batc : Batc
  pub area_descriptor : Area
  pub segment_descriptor : ℕ
  pub segment_descriptor_address : ℕ
  pub page_descriptor : ℕ
  pub page_descriptor_address : ℕ

-- What a translation works on: the memory, the registers of the CMMU, and the `last_` variables.
pub record Mmu (S : Type 0) : Type 0 where
  pub memory : Memory S
  pub regs : Cmmu
  pub last_global : Bool
  pub last_writethru : Bool
  pub last_cacheinhibit : Bool
  pub last_writeprotect : Bool

pub record Translation (S : Type 0) : Type 0 where
  pub exception : Exception
  pub physical_address : ℕ
  pub mmu : Mmu S

-- `logical_address & 0xfff00000` is all ones, in supervisor mode.
abbrev pub in_control_memory : Mode → ℕ → Bool
in_control_memory mode la = not (is_user mode) && la / 2 ^ 20 == 0xfff

abbrev pub control_batc : ℕ → Batc
control_batc la = record {
  l_base_address = bit_or 0x1ffe (la / 2 ^ 19 % 2);
  p_base_address = bit_or 0x1ffe (la / 2 ^ 19 % 2);
  supervisor = true;
  writethru = true;
  global = false;
  cacheinhibit = true;
  writeprotect = false;
  valid = true;
}

abbrev pub batc_hits : Mode → ℕ → Batc → Bool
batc_hits mode la b =
    b.valid
    && b.l_base_address == la / 2 ^ 19
    && (if is_user mode then not b.supervisor else b.supervisor)

-- The first block port that hits, of the eight.
unfoldable pub search_batc : Mode → ℕ → List Batc → Option Batc
search_batc mode la [] = none
search_batc mode la (b ∷ bs) =
    let rest = search_batc mode la bs in if batc_hits mode la b then some b else rest

module _ {S : Type 0} where
  -- A fault: `faultcode` and the exception; the physical address is left as it is.
  abbrev pub fault : Exception → ℕ → ℕ → Mmu S → Translation S
  fault ex code pa s = record {
    exception = ex;
    physical_address = pa;
    mmu = record s { regs = record s.regs { faultcode = code } };
  }

  unfoldable pub control_memory : ℕ → Mmu S → Translation S
  control_memory la s = record {
    exception = Exception.e_none;
    physical_address = la;
    mmu = record s {
      regs = record s.regs { batc = control_batc la; segment_descriptor_address = no_address };
      last_writeprotect = false;
      last_cacheinhibit = true;
      last_global = false;
      last_writethru = true;
    };
  }

  -- The area descriptor of the mode, and the `last_` variables that it sets.
  abbrev pub load_area : Mode → Mmu S → Mmu S
  load_area mode s =
      let a = (if is_user mode then s.regs.uapr else s.regs.sapr) in
      record s {
        regs = record s.regs { area_descriptor = a };
        last_cacheinhibit = a.cacheinhibit;
        last_global = a.global;
        last_writethru = a.writethru;
      }

  unfoldable pub straight_through : ℕ → Mmu S → Translation S
  straight_through la s = record {
    exception = Exception.e_none;
    physical_address = la;
    mmu = record s { regs = record s.regs { segment_descriptor_address = no_address } };
  }

  unfoldable pub through_batc : Exception → Access → ℕ → Batc → Mmu S → Translation S
  through_batc ex access la b s = record {
    exception = if b.writeprotect && is_write access then ex else Exception.e_none;
    physical_address = bit_or (b.p_base_address * 2 ^ 19 % 2 ^ 32) (la % 2 ^ 19);
    mmu = record s {
      regs = record s.regs { batc = b; segment_descriptor_address = no_address };
      last_cacheinhibit = s.last_cacheinhibit || b.cacheinhibit;
      last_global = s.last_global || b.global;
      last_writethru = s.last_writethru || b.writethru;
      last_writeprotect = b.writeprotect;
    };
  }
