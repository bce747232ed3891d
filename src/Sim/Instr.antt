-- ===== src/Sim/Instr.antt =====
-- sim/simdecode.c: the table of instructions of the simulator, the table of lists that is built from
-- it by the top six bits of an instruction, and the search of a list, which moves what it finds to
-- the front.
pub mod Entry
mod Alu
mod Branches
mod Memory
pub mod Unique
pub mod Lists
pub mod Search
mod Tests
use g.Base.{
  ℕ, ◌/◌, ◌^◌, Bool, true, false, Option, none, some, List, [], ◌∷◌, ◌++◌, ◌==◌, if◌then◌else◌,
}
use g.Decode.Entry.{Format}
use g.Sim.Instr.Entry.{SimInfo, SimTable, sim_entry, no_fix, fits, top_bits}
use g.Sim.Instr.Alu.{first_entries, bsr_entries, float_entries}
use g.Sim.Instr.Branches.{bb_entries, bb_n_entries}
use g.Sim.Instr.Memory.{load_entries, middle_entries, last_entries}

-- The instructions of in_tab, in its order.
unfoldable pub instructions : SimTable
unfolding first_entries bb_entries bb_n_entries bsr_entries float_entries load_entries
    middle_entries last_entries
instructions =
    first_entries
    ++ (bb_entries
        ++ (bb_n_entries
            ++ (bsr_entries
                ++ (float_entries ++ (load_entries ++ (middle_entries ++ last_entries))))))

-- The entries behind them, which stand for the labels that no instruction has; their masks are 0.
abbrev pub pseudo : SimTable
pseudo =
    sim_entry 0 0 "pseudo" Format.pseudo_format "end_of_page" no_fix
    ∷ sim_entry 0 0 "pseudo" Format.pseudo_format "not_decoded" no_fix
    ∷ sim_entry 0 0 "pseudo" Format.pseudo_format "opc_exception" no_fix
    ∷ []

-- `decodecache`: the list of each value of the top bits.
abbrev pub Cache : Type 0
Cache = ℕ → SimTable

-- `p->link = decodecache[i].link; decodecache[i].link = p`
abbrev pub push : SimInfo → Cache → Cache
push p cache k = if k == top_bits p.info.opcode then p ∷ cache k else cache k

-- The loop of builddecodetable.
unfoldable pub push_all : SimTable → Cache → Cache
push_all [] cache = cache
push_all (p ∷ ps) cache = push_all ps (push p cache)

unfoldable pub builddecodetable : Cache
builddecodetable = push_all (instructions ++ pseudo) (λ k. [])

-- The entry that is found, and the list without it.
unfoldable pub pull : SimTable → ℕ → Option (SimInfo × SimTable)
pull [] i = none
pull (p ∷ ps) i =
    let rest = pull ps i in
    if fits p i then some (p, ps) else elim rest [ none ↦ none | some (q, qs) ↦ some (q, p ∷ qs) ]

-- The list with what is found at its front.
abbrev pub move_to_front : SimTable → ℕ → SimTable
move_to_front ps i = elim (pull ps i) [ none ↦ ps | some (q, qs) ↦ q ∷ qs ]

abbrev pub found : SimTable → ℕ → Option SimInfo
found ps i = elim (pull ps i) [ none ↦ none | some (q, qs) ↦ some q ]

unfoldable pub sim_instruction_lookup : ℕ → Cache → Option SimInfo × Cache
sim_instruction_lookup i cache = (
  found (cache (top_bits i)) i,
  λ k. if k == top_bits i then move_to_front (cache k) i else cache k,
)
