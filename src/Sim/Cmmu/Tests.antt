-- ===== src/Sim/Cmmu/Tests.antt =====
-- sim/cmmu.c: translations through two tables in a memory of four pages, and each theorem at one.
use g.Base.{ℕ, ◌≡◌, refl, true, false, none, some, [], ◌∷◌, ◌==◌, if◌then◌else◌, arith, ◌%◌, ◌&&◌}
use g.Sim.Bus.{Bus}
use g.Sim.Memory.{Memory, Page, read_sim_w, read_cell, find_page}
use g.Sim.Memory.View.{IsMemory, word_at}
use g.Sim.Cmmu.{Mode, Access, Exception, Area, Batc, Cmmu, search_batc}
use g.Sim.Cmmu.Walk.{
  translate, l_to_p, Cmmus, selected, answer, walk_segment, walk_page, check_writeprotect,
  update_descriptor,
}
use g.Sim.Cmmu.Tables.{Outcome, outcome, after, translate-resolve}
use g.Sim.Cmmu.Protection.{is_protected, l_to_p-keeps_page}

abbrev no_device : Bus
no_device = record { State = ℕ; load = λ size a n. (none, n); store = λ size a v n. (false, n) }

abbrev page_of : ℕ → Page
page_of w = record { values = λ i. if i == 0 then w else 0; decoded_part = none }

-- The segment table is in page 1 and its page table in page 2; both have one descriptor.
abbrev tables : Memory ℕ
tables = record {
  memory_size = 0x4000;
  page_table =
      λ i. if i == 1 then some (page_of 0x2001) else if i == 2 then some (page_of 0x3001) else none;
  sim_errno = false;
  io = 0;
}

abbrev area : Area
area = record {
  segment_table_base = 1;
  writethru = false;
  global = false;
  cacheinhibit = false;
  valid = true;
}

abbrev no_batc : Batc
no_batc = record {
  l_base_address = 0;
  p_base_address = 0;
  supervisor = false;
  writethru = false;
  global = false;
  cacheinhibit = false;
  writeprotect = false;
  valid = false;
}

abbrev regs : Cmmu
regs = record {
  sapr = area;
  uapr = area;
  bwp = no_batc ∷ [];
  faultcode = 0;
  batc = no_batc;
  area_descriptor = area;
  segment_descriptor = 0;
  segment_descriptor_address = 0;
  page_descriptor = 0;
  page_descriptor_address = 0;
}

abbrev cmmus : Cmmus ℕ
cmmus = record {
  cmmu_table = λ i. regs;
  cmmus = 0x11;
  selected_processor = 0;
  memory = tables;
  last_global = false;
  last_writethru = false;
  last_cacheinhibit = false;
  last_writeprotect = true;
}

tables-IsMemory : IsMemory tables
unfolding word_at
tables-IsMemory = record { words = λ i. ground arith }

translate-resolve_example :
    let r =
      translate no_device true Exception.e_dacc Mode.user Access.write 0x123 (selected cmmus 0) in
    (outcome r ≡ Outcome.mapped 0x3123)
    × ((j : ℕ)
        → word_at r.mmu.memory j
          ≡ after Access.write (Outcome.mapped 0x3123) 0x800 (word_at tables) j)
unfolding word_at search_batc
translate-resolve_example =
    translate-resolve no_device true 0 Mode.user Access.write 0x123 (selected cmmus 0) (omega arith)
      (omega arith) refl refl refl (omega arith) (omega arith) tables-IsMemory

abbrev written : Cmmus ℕ
written =
    (answer cmmus 0
      (translate no_device true Exception.e_dacc Mode.user Access.write 0x123 (selected cmmus 0))).2

l_to_p-keeps_page_example :
    let protected = is_protected no_device Mode.user 0x123 (cmmus.cmmu_table 0) tables in
    (0x3123 % 4096 ≡ 0x123 % 4096)
    × (written.last_writeprotect ≡ protected)
    × (true && protected ≡ false)
unfolding l_to_p translate search_batc walk_segment walk_page check_writeprotect update_descriptor
    read_sim_w read_cell find_page
l_to_p-keeps_page_example =
    l_to_p-keeps_page no_device true Mode.user 0x123 0 Access.write cmmus written 0x3123 refl
