-- ===== src/Sim/Instr/Tests.antt =====
-- sim/simdecode.c: lookups of concrete words.
use g.Base.{◌≡◌, refl, ◌<◌, true, some, [], ◌∷◌, ◌⊎◌, inl, ◌↔◌, arith}
use g.Decode.Entry.{Format}
use g.Sim.Instr.{instructions, builddecodetable, push_all, pull, sim_instruction_lookup}
use g.Sim.Instr.Entry.{SimInfo, sim_entry, no_fix, fix_r0, fits, top_bits}
use g.Sim.Instr.Search.{after, opc_exception, sim_instruction_lookup-finds}

-- xmem.bu with a literal, after addu and add.
xmem_bu_invalid :
    (sim_instruction_lookup 0x00220004 (after (0x60210001 ∷ 0x70210001 ∷ []) builddecodetable)).0
    ≡ some opc_exception
unfolding sim_instruction_lookup builddecodetable instructions push_all pull
xmem_bu_invalid = refl

-- fxcr is found as xcr.
fxcr_found_as_xcr :
    (sim_instruction_lookup 0x8022c802 builddecodetable).0
    ≡ some (sim_entry 0x8000c000 0xfc00c000 "xcr" Format.xcr "xcr" no_fix)
unfolding sim_instruction_lookup builddecodetable instructions push_all pull
fxcr_found_as_xcr = refl

abbrev add_entry : SimInfo
add_entry = sim_entry 0x70000000 0xfc000000 "add" Format.intrl "add" fix_r0

sim_instruction_lookup-finds_example :
    ((top_bits 0x70210001 ≡ 0)
      × ((sim_instruction_lookup 0x70210001 (after (0x60210001 ∷ []) builddecodetable)).0
          ≡ some opc_exception))
    ⊎ ((0 < top_bits 0x70210001)
        × ((fits add_entry 0x70210001 ≡ true) ↔ (
            (sim_instruction_lookup 0x70210001 (after (0x60210001 ∷ []) builddecodetable)).0
            ≡ some add_entry)))
unfolding instructions
sim_instruction_lookup-finds_example =
    sim_instruction_lookup-finds (0x60210001 ∷ []) 0x70210001 add_entry (omega arith) refl
      (inl refl)
