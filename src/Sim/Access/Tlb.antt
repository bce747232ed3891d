-- ===== src/Sim/Access/Tlb.antt =====
-- sim/siminit.c and sim/misc.c: the software tlbs. A slot has the number of the simulated page whose
-- words it points to, and `none` is a null pointer; a segment without a table of its own, which is
-- `none`, shares the empty defaultpagetlb.
use g.Base.{ℕ, zero, suc, ◌+◌, ◌/◌, ◌%◌, ◌^◌, Option, none, some, ltb, if◌then◌else◌}
use g.Base.Words.{u32}
use g.Sim.Memory.{update}
use g.Sim.Cmmu.{Mode, user, supervisor}

abbrev pub Tlb : Type 0
Tlb = ℕ → Option (ℕ → Option ℕ)

-- u_load_tlb and s_load_tlb, u_store_tlb and s_store_tlb.
pub record Tlbs : Type 0 where
  pub load_tlb : Mode → Tlb
  pub store_tlb : Mode → Tlb

-- btos, btop and poff.
abbrev pub btos : ℕ → ℕ
btos a = a / 2 ^ 22

abbrev pub btop : ℕ → ℕ
btop a = a / 2 ^ 12 % 1024

abbrev pub poff : ℕ → ℕ
poff a = a % 4096

abbrev pub slot : Option (ℕ → Option ℕ) → ℕ → Option ℕ
slot none k = none
slot (some t) k = t k

-- `tlb[btos (a)][btop (a)]`
unfoldable pub entry : Tlb → ℕ → Option ℕ
entry tlb a = slot (tlb (btos a)) (btop a)

-- `tlb2[l_page] = page_base_address`, in a new table where the segment has none.
unfoldable pub enter : Tlb → ℕ → ℕ → Tlb
enter tlb a page = update tlb (btos a) (some (update (slot (tlb (btos a))) (btop a) (some page)))

abbrev pub set_mode : Mode → Tlb → (Mode → Tlb) → Mode → Tlb
set_mode user tlb tlbs user = tlb
set_mode supervisor tlb tlbs supervisor = tlb
set_mode mode tlb tlbs other = tlbs other

-- A slot of a segment that has a table of its own.
abbrev pub clear_slot : ℕ → ℕ → Tlb → Tlb
clear_slot seg k tlb = elim (tlb seg) [
  | none ↦ tlb
  | some t ↦ update tlb seg (some (update t k none))
]

abbrev pub clear_segment : ℕ → Tlb → Tlb
clear_segment seg tlb = elim (tlb seg) [ none ↦ tlb | some t ↦ update tlb seg (some (λ k. none)) ]

-- The same change of the two tlbs of a mode.
abbrev pub both : (Tlb → Tlb) → Mode → Tlbs → Tlbs
both f mode t = record {
  load_tlb = set_mode mode (f (t.load_tlb mode)) t.load_tlb;
  store_tlb = set_mode mode (f (t.store_tlb mode)) t.store_tlb;
}

-- flush_user_tlb_page and flush_supervisor_tlb_page; `none` is err.
unfoldable pub flush_tlb_page : Mode → ℕ → Tlbs → Option Tlbs
flush_tlb_page mode page t =
    let seg = page / 2 ^ 10 in
    if ltb seg 1024 then some (both (clear_slot seg (page % 1024)) mode t) else none

-- flush_user_tlb_segment and flush_supervisor_tlb_segment.
unfoldable pub flush_tlb_segment : Mode → ℕ → Tlbs → Option Tlbs
flush_tlb_segment mode segment t =
    if ltb segment 1024 then some (both (clear_segment segment) mode t) else none

-- The loop of flush_user_tlb_all and flush_supervisor_tlb_all, with as many segments left.
unfoldable pub flush_segments : Mode → ℕ → ℕ → Tlbs → Option Tlbs
flush_segments mode i zero t = some t
flush_segments mode i (suc left) t = elim (flush_tlb_segment mode i t) [
  | none ↦ none
  | some t' ↦ flush_segments mode (i + 1) left t'
]

unfoldable pub flush_tlb_all : Mode → Tlbs → Option Tlbs
flush_tlb_all mode t = flush_segments mode 0 1024 t

-- The loop of flush_tlb_range.
unfoldable pub flush_pages : Mode → ℕ → ℕ → Tlbs → Tlbs
flush_pages mode a zero t = t
flush_pages mode a (suc left) t =
    flush_pages mode (u32 (a + 4096)) left (both (clear_slot (btos a) (btop a)) mode t)

unfoldable pub flush_tlb_range : Mode → ℕ → ℕ → Tlbs → Tlbs
flush_tlb_range mode a length t = flush_pages mode a (u32 (length + 4095) / 2 ^ 12) t
