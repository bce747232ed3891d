-- ===== src/Decode.antt =====
-- decode.c: the table of 88100 instructions, and the search of it for an instruction word.
pub mod Entry
pub mod Alu
pub mod Branches
pub mod Memory
pub mod Unique
pub mod Search
mod Tests
use g.Base.{ℕ, Bool, true, false, Option, none, some, List, [], ◌∷◌, ◌++◌, ◌==◌, if◌then◌else◌}
use g.Decode.Entry.{InstrInfo, Table, fits}
use g.Decode.Alu.{add_entries, bsr_entries, float_entries}
use g.Decode.Branches.{bcnd_entries, bb_entries, bb_n_entries}
use g.Decode.Memory.{load_entries, control_entries, store_entries, end_entry}

-- The entries of in_tab before the one that ends it, in its order.
unfoldable pub entries : Table
unfolding add_entries bsr_entries float_entries bcnd_entries bb_entries bb_n_entries load_entries
    control_entries store_entries
entries =
    add_entries
    ++ (bcnd_entries
        ++ (bb_entries
            ++ (bb_n_entries
                ++ (bsr_entries
                    ++ (float_entries ++ (load_entries ++ (control_entries ++ store_entries)))))))

unfoldable pub in_tab : Table
unfolding entries end_entry
in_tab = entries ++ end_entry

-- The loop of remote_instruction_lookup, from an entry on; `none` for a null pointer.
unfoldable pub lookup_from : Table → ℕ → Option InstrInfo
lookup_from [] i = none
lookup_from (p ∷ ps) i =
    if p.opmask == 0 then none else if fits p i then some p else lookup_from ps i

unfoldable pub remote_instruction_lookup : ℕ → Option InstrInfo
unfolding lookup_from in_tab
remote_instruction_lookup i = lookup_from in_tab i
