-- ===== src/Sim/Access/Tests.antt =====
-- sim/execute.c and sim/misc.c: stores and loads in a memory that the CMMUs do not translate.
use g.Base.{ℕ, ◌≡◌, refl, true, false, Option, none, some, [], ◌==◌, if◌then◌else◌}
use g.Sim.Bus.{half}
use g.Sim.Memory.{find_page}
use g.Sim.Cmmu.{supervisor, e_dacc, Area, Batc, Cmmu, straight_through}
use g.Sim.Cmmu.Walk.{l_to_p, translate}
use g.Sim.Execute.{reg, lit, Decoded, Cpu, Ending, dispatch_next}
use g.Sim.Access.{Devices, Space, move, load_tlbs, memory_op, l_mem_op}
use g.Sim.Access.Host.{load_from, store_to, exchange, transfer, do_mem_op}
use g.Sim.Access.Tlb.{entry, enter}
use g.Sim.Access.Labels.{MemLabel, st_h, ld_h, ld_hu, xmem_bu, st_usr_sc, shape, calc_addr, access}
use g.Sim.Access.Stores.{StoresInLoads}
use g.Sim.Access.Steps.{Step, Reached, load-store_entry}
use g.Sim.Access.Bytes.{loaded}
use g.Sim.Access.Pairs.{Reads}
use g.Sim.Access.Reread.{access-retrieves}

abbrev no_devices : Devices
no_devices = record {
  bus = record { State = ℕ; load = λ size a n. (none, n); store = λ size a v n. (false, n) };
  io_operation = λ size op r pa c n. (e_dacc, c, n);
}

abbrev invalid : Area
invalid = record {
  segment_table_base = 0;
  writethru = false;
  global = false;
  cacheinhibit = false;
  valid = false;
}

abbrev no_batc : Batc
no_batc = record {
  l_base_address = 0;
  p_base_address = 0;
  supervisor = false;
  writethru = false;
  global = false;
  cacheinhibit = false;
  writeprotect = false;
  valid = false;
}

abbrev cmmu : Cmmu
cmmu = record {
  sapr = invalid;
  uapr = invalid;
  bwp = [];
  faultcode = 0;
  batc = no_batc;
  area_descriptor = invalid;
  segment_descriptor = 0;
  segment_descriptor_address = 0;
  page_descriptor = 0;
  page_descriptor_address = 0;
}

-- r1 is an address, and r2 and r3 are values.
abbrev cpu : Cpu
cpu = record {
  regs = λ n. if n == 1 then 0x1008 else if n == 2 then 0x1234fedc else if n == 3 then 7 else 0;
  sfu0_regs = λ n. if n == 1 then 0x800003f0 else 0;
  sfu1_regs = λ n. 0;
  dummy = 0;
}

abbrev space : Space ℕ
space = record {
  cmmus = record {
    cmmu_table = λ i. cmmu;
    cmmus = 0x11;
    selected_processor = 0;
    memory = record { memory_size = 0x4000; page_table = λ i. none; sim_errno = false; io = 0 };
    last_global = false;
    last_writethru = false;
    last_cacheinhibit = false;
    last_writeprotect = false;
  };
  tlbs = record { load_tlb = λ mode seg. none; store_tlb = λ mode seg. none };
  cpu = cpu;
  sim_catch_exception = λ n. false;
}

abbrev run : MemLabel → Decoded → Space ℕ → Option (Ending × Space ℕ)
run = access no_devices true (λ i. if i == 1 then 0 else 4) 32 (λ page o n. false) supervisor

abbrev state_of : Option (Ending × Space ℕ) → Space ℕ
state_of none = space
state_of (some (e, s)) = s

abbrev at_r1 : ℕ → Decoded
at_r1 n = record { dest = reg n; s1 = reg 1; s2 = lit 2 }

abbrev stored : Space ℕ
stored = state_of (run st_h (at_r1 2) space)

loaded_half : (state_of (run ld_h (at_r1 4) stored)).cpu.regs 4 ≡ 0xfffffedc
unfolding access shape calc_addr l_mem_op l_to_p translate straight_through memory_op move do_mem_op
    transfer store_to load_from find_page load_tlbs entry enter
loaded_half = refl

space-StoresInLoads : StoresInLoads space.tlbs
unfolding entry
space-StoresInLoads mode a page e = cc

-- Where the load is unsigned, from the state after the store.
access-retrieves_example :
    (e : Ending) × (s : Space ℕ) × (run ld_hu (at_r1 4) stored ≡ some (e, s))
    × (s.cpu.regs 4 ≡ loaded false half 0x1234fedc)
    × (s.tlbs ≡ stored.tlbs)
unfolding access shape calc_addr l_mem_op l_to_p translate straight_through memory_op move do_mem_op
    transfer store_to load_from find_page load_tlbs entry enter
access-retrieves_example =
    access-retrieves no_devices true (λ i. if i == 1 then 0 else 4) 32 (λ page o n. false)
      supervisor st_h ld_hu half false (at_r1 2) (at_r1 4) 4 1 space stored dispatch_next
      Reads.halves_u refl refl space-StoresInLoads refl refl refl refl

stored-Reached :
    Reached no_devices true (λ i. if i == 1 then 0 else 4) 32 (λ page o n. false) stored
unfolding access shape calc_addr l_mem_op l_to_p translate straight_through memory_op move do_mem_op
    transfer store_to load_from find_page load_tlbs entry enter
stored-Reached =
    Reached.steps space stored (Reached.starts space (λ mode a. refl))
      (Step.accesses supervisor st_h (at_r1 2) space stored dispatch_next refl)

load-store_entry_example : entry (stored.tlbs.load_tlb supervisor) 0x100a ≡ some 1
unfolding access shape calc_addr l_mem_op l_to_p translate straight_through memory_op move do_mem_op
    transfer store_to load_from find_page load_tlbs entry enter
load-store_entry_example =
    load-store_entry no_devices true (λ i. if i == 1 then 0 else 4) 32 (λ page o n. false) stored
      supervisor 0x100a 1 stored-Reached refl

-- The second store of a scaled word of the user, from r2 and r3, stores both of them.
abbrev word_of_r2 : Decoded
word_of_r2 = record { dest = reg 2; s1 = reg 1; s2 = lit 2 }

abbrev twice : Space ℕ
twice = state_of (run st_usr_sc word_of_r2 (state_of (run st_usr_sc word_of_r2 space)))

st_usr_sc_double : (find_page 1 twice.cmmus.memory).0.values 5 ≡ 7
unfolding access shape calc_addr l_mem_op l_to_p translate straight_through memory_op move do_mem_op
    transfer store_to load_from find_page load_tlbs entry enter
st_usr_sc_double = refl

-- An exchange of a byte exchanges a word where its page is not in the store tlb.
abbrev exchanged : Space ℕ
exchanged = state_of (run xmem_bu (record { dest = reg 2; s1 = reg 1; s2 = lit 0 }) space)

xmem_bu_word : (find_page 1 exchanged.cmmus.memory).0.values 2 ≡ 0x1234fedc
unfolding access shape calc_addr l_mem_op l_to_p translate straight_through memory_op move do_mem_op
    transfer store_to load_from exchange find_page load_tlbs entry enter
xmem_bu_word = refl
