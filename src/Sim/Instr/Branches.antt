-- ===== src/Sim/Instr/Branches.antt =====
-- sim/simdecode.c: entries of in_tab.
use g.Base.{[], ◌∷◌}
use g.Decode.Entry.{Format}
use g.Sim.Instr.Entry.{SimTable, sim_entry, no_fix}

unfoldable pub bb_entries : SimTable
bb_entries =
    sim_entry 0xd0000000 0xffe00000 "bb0_0" Format.bitbranch "bb0_0" no_fix
    ∷ sim_entry 0xd0200000 0xffe00000 "bb0_1" Format.bitbranch "bb0_1" no_fix
    ∷ sim_entry 0xd0400000 0xffe00000 "bb0_2" Format.bitbranch "bb0_2" no_fix
    ∷ sim_entry 0xd0600000 0xffe00000 "bb0_3" Format.bitbranch "bb0_3" no_fix
    ∷ sim_entry 0xd0800000 0xffe00000 "bb0_4" Format.bitbranch "bb0_4" no_fix
    ∷ sim_entry 0xd0a00000 0xffe00000 "bb0_5" Format.bitbranch "bb0_5" no_fix
    ∷ sim_entry 0xd0c00000 0xffe00000 "bb0_6" Format.bitbranch "bb0_6" no_fix
    ∷ sim_entry 0xd0e00000 0xffe00000 "bb0_7" Format.bitbranch "bb0_7" no_fix
    ∷ sim_entry 0xd1000000 0xffe00000 "bb0_8" Format.bitbranch "bb0_8" no_fix
    ∷ sim_entry 0xd1200000 0xffe00000 "bb0_9" Format.bitbranch "bb0_9" no_fix
    ∷ sim_entry 0xd1400000 0xffe00000 "bb0_10" Format.bitbranch "bb0_10" no_fix
    ∷ sim_entry 0xd1600000 0xffe00000 "bb0_11" Format.bitbranch "bb0_11" no_fix
    ∷ sim_entry 0xd1800000 0xffe00000 "bb0_12" Format.bitbranch "bb0_12" no_fix
    ∷ sim_entry 0xd1a00000 0xffe00000 "bb0_13" Format.bitbranch "bb0_13" no_fix
    ∷ sim_entry 0xd1c00000 0xffe00000 "bb0_14" Format.bitbranch "bb0_14" no_fix
    ∷ sim_entry 0xd1e00000 0xffe00000 "bb0_15" Format.bitbranch "bb0_15" no_fix
    ∷ sim_entry 0xd2000000 0xffe00000 "bb0_16" Format.bitbranch "bb0_16" no_fix
    ∷ sim_entry 0xd2200000 0xffe00000 "bb0_17" Format.bitbranch "bb0_17" no_fix
    ∷ sim_entry 0xd2400000 0xffe00000 "bb0_18" Format.bitbranch "bb0_18" no_fix
    ∷ sim_entry 0xd2600000 0xffe00000 "bb0_19" Format.bitbranch "bb0_19" no_fix
    ∷ sim_entry 0xd2800000 0xffe00000 "bb0_20" Format.bitbranch "bb0_20" no_fix
    ∷ sim_entry 0xd2a00000 0xffe00000 "bb0_21" Format.bitbranch "bb0_21" no_fix
    ∷ sim_entry 0xd2c00000 0xffe00000 "bb0_22" Format.bitbranch "bb0_22" no_fix
    ∷ sim_entry 0xd2e00000 0xffe00000 "bb0_23" Format.bitbranch "bb0_23" no_fix
    ∷ sim_entry 0xd3000000 0xffe00000 "bb0_24" Format.bitbranch "bb0_24" no_fix
    ∷ sim_entry 0xd3200000 0xffe00000 "bb0_25" Format.bitbranch "bb0_25" no_fix
    ∷ sim_entry 0xd3400000 0xffe00000 "bb0_26" Format.bitbranch "bb0_26" no_fix
    ∷ sim_entry 0xd3600000 0xffe00000 "bb0_27" Format.bitbranch "bb0_27" no_fix
    ∷ sim_entry 0xd3800000 0xffe00000 "bb0_28" Format.bitbranch "bb0_28" no_fix
    ∷ sim_entry 0xd3a00000 0xffe00000 "bb0_29" Format.bitbranch "bb0_29" no_fix
    ∷ sim_entry 0xd3c00000 0xffe00000 "bb0_30" Format.bitbranch "bb0_30" no_fix
    ∷ sim_entry 0xd3e00000 0xffe00000 "bb0_31" Format.bitbranch "bb0_31" no_fix
    ∷ sim_entry 0xd8000000 0xffe00000 "bb1_0" Format.bitbranch "bb1_0" no_fix
    ∷ sim_entry 0xd8200000 0xffe00000 "bb1_1" Format.bitbranch "bb1_1" no_fix
    ∷ sim_entry 0xd8400000 0xffe00000 "bb1_2" Format.bitbranch "bb1_2" no_fix
    ∷ sim_entry 0xd8600000 0xffe00000 "bb1_3" Format.bitbranch "bb1_3" no_fix
    ∷ sim_entry 0xd8800000 0xffe00000 "bb1_4" Format.bitbranch "bb1_4" no_fix
    ∷ sim_entry 0xd8a00000 0xffe00000 "bb1_5" Format.bitbranch "bb1_5" no_fix
    ∷ sim_entry 0xd8c00000 0xffe00000 "bb1_6" Format.bitbranch "bb1_6" no_fix
    ∷ sim_entry 0xd8e00000 0xffe00000 "bb1_7" Format.bitbranch "bb1_7" no_fix
    ∷ sim_entry 0xd9000000 0xffe00000 "bb1_8" Format.bitbranch "bb1_8" no_fix
    ∷ sim_entry 0xd9200000 0xffe00000 "bb1_9" Format.bitbranch "bb1_9" no_fix
    ∷ sim_entry 0xd9400000 0xffe00000 "bb1_10" Format.bitbranch "bb1_10" no_fix
    ∷ sim_entry 0xd9600000 0xffe00000 "bb1_11" Format.bitbranch "bb1_11" no_fix
    ∷ sim_entry 0xd9800000 0xffe00000 "bb1_12" Format.bitbranch "bb1_12" no_fix
    ∷ sim_entry 0xd9a00000 0xffe00000 "bb1_13" Format.bitbranch "bb1_13" no_fix
    ∷ sim_entry 0xd9c00000 0xffe00000 "bb1_14" Format.bitbranch "bb1_14" no_fix
    ∷ sim_entry 0xd9e00000 0xffe00000 "bb1_15" Format.bitbranch "bb1_15" no_fix
    ∷ sim_entry 0xda000000 0xffe00000 "bb1_16" Format.bitbranch "bb1_16" no_fix
    ∷ sim_entry 0xda200000 0xffe00000 "bb1_17" Format.bitbranch "bb1_17" no_fix
    ∷ sim_entry 0xda400000 0xffe00000 "bb1_18" Format.bitbranch "bb1_18" no_fix
    ∷ sim_entry 0xda600000 0xffe00000 "bb1_19" Format.bitbranch "bb1_19" no_fix
    ∷ sim_entry 0xda800000 0xffe00000 "bb1_20" Format.bitbranch "bb1_20" no_fix
    ∷ sim_entry 0xdaa00000 0xffe00000 "bb1_21" Format.bitbranch "bb1_21" no_fix
    ∷ sim_entry 0xdac00000 0xffe00000 "bb1_22" Format.bitbranch "bb1_22" no_fix
    ∷ sim_entry 0xdae00000 0xffe00000 "bb1_23" Format.bitbranch "bb1_23" no_fix
    ∷ sim_entry 0xdb000000 0xffe00000 "bb1_24" Format.bitbranch "bb1_24" no_fix
    ∷ sim_entry 0xdb200000 0xffe00000 "bb1_25" Format.bitbranch "bb1_25" no_fix
    ∷ sim_entry 0xdb400000 0xffe00000 "bb1_26" Format.bitbranch "bb1_26" no_fix
    ∷ sim_entry 0xdb600000 0xffe00000 "bb1_27" Format.bitbranch "bb1_27" no_fix
    ∷ sim_entry 0xdb800000 0xffe00000 "bb1_28" Format.bitbranch "bb1_28" no_fix
    ∷ sim_entry 0xdba00000 0xffe00000 "bb1_29" Format.bitbranch "bb1_29" no_fix
    ∷ sim_entry 0xdbc00000 0xffe00000 "bb1_30" Format.bitbranch "bb1_30" no_fix
    ∷ sim_entry 0xdbe00000 0xffe00000 "bb1_31" Format.bitbranch "bb1_31" no_fix
    ∷ []

unfoldable pub bb_n_entries : SimTable
bb_n_entries =
    sim_entry 0xd4000000 0xffe00000 "bb0_n_0" Format.bitbranch "bb0_n_0" no_fix
    ∷ sim_entry 0xd4200000 0xffe00000 "bb0_n_1" Format.bitbranch "bb0_n_1" no_fix
    ∷ sim_entry 0xd4400000 0xffe00000 "bb0_n_2" Format.bitbranch "bb0_n_2" no_fix
    ∷ sim_entry 0xd4600000 0xffe00000 "bb0_n_3" Format.bitbranch "bb0_n_3" no_fix
    ∷ sim_entry 0xd4800000 0xffe00000 "bb0_n_4" Format.bitbranch "bb0_n_4" no_fix
    ∷ sim_entry 0xd4a00000 0xffe00000 "bb0_n_5" Format.bitbranch "bb0_n_5" no_fix
    ∷ sim_entry 0xd4c00000 0xffe00000 "bb0_n_6" Format.bitbranch "bb0_n_6" no_fix
    ∷ sim_entry 0xd4e00000 0xffe00000 "bb0_n_7" Format.bitbranch "bb0_n_7" no_fix
    ∷ sim_entry 0xd5000000 0xffe00000 "bb0_n_8" Format.bitbranch "bb0_n_8" no_fix
    ∷ sim_entry 0xd5200000 0xffe00000 "bb0_n_9" Format.bitbranch "bb0_n_9" no_fix
    ∷ sim_entry 0xd5400000 0xffe00000 "bb0_n_10" Format.bitbranch "bb0_n_10" no_fix
    ∷ sim_entry 0xd5600000 0xffe00000 "bb0_n_11" Format.bitbranch "bb0_n_11" no_fix
    ∷ sim_entry 0xd5800000 0xffe00000 "bb0_n_12" Format.bitbranch "bb0_n_12" no_fix
    ∷ sim_entry 0xd5a00000 0xffe00000 "bb0_n_13" Format.bitbranch "bb0_n_13" no_fix
    ∷ sim_entry 0xd5c00000 0xffe00000 "bb0_n_14" Format.bitbranch "bb0_n_14" no_fix
    ∷ sim_entry 0xd5e00000 0xffe00000 "bb0_n_15" Format.bitbranch "bb0_n_15" no_fix
    ∷ sim_entry 0xd6000000 0xffe00000 "bb0_n_16" Format.bitbranch "bb0_n_16" no_fix
    ∷ sim_entry 0xd6200000 0xffe00000 "bb0_n_17" Format.bitbranch "bb0_n_17" no_fix
    ∷ sim_entry 0xd6400000 0xffe00000 "bb0_n_18" Format.bitbranch "bb0_n_18" no_fix
    ∷ sim_entry 0xd6600000 0xffe00000 "bb0_n_19" Format.bitbranch "bb0_n_19" no_fix
    ∷ sim_entry 0xd6800000 0xffe00000 "bb0_n_20" Format.bitbranch "bb0_n_20" no_fix
    ∷ sim_entry 0xd6a00000 0xffe00000 "bb0_n_21" Format.bitbranch "bb0_n_21" no_fix
    ∷ sim_entry 0xd6c00000 0xffe00000 "bb0_n_22" Format.bitbranch "bb0_n_22" no_fix
    ∷ sim_entry 0xd6e00000 0xffe00000 "bb0_n_23" Format.bitbranch "bb0_n_23" no_fix
    ∷ sim_entry 0xd7000000 0xffe00000 "bb0_n_24" Format.bitbranch "bb0_n_24" no_fix
    ∷ sim_entry 0xd7200000 0xffe00000 "bb0_n_25" Format.bitbranch "bb0_n_25" no_fix
    ∷ sim_entry 0xd7400000 0xffe00000 "bb0_n_26" Format.bitbranch "bb0_n_26" no_fix
    ∷ sim_entry 0xd7600000 0xffe00000 "bb0_n_27" Format.bitbranch "bb0_n_27" no_fix
    ∷ sim_entry 0xd7800000 0xffe00000 "bb0_n_28" Format.bitbranch "bb0_n_28" no_fix
    ∷ sim_entry 0xd7a00000 0xffe00000 "bb0_n_29" Format.bitbranch "bb0_n_29" no_fix
    ∷ sim_entry 0xd7c00000 0xffe00000 "bb0_n_30" Format.bitbranch "bb0_n_30" no_fix
    ∷ sim_entry 0xd7e00000 0xffe00000 "bb0_n_31" Format.bitbranch "bb0_n_31" no_fix
    ∷ sim_entry 0xdc000000 0xffe00000 "bb1_n_0" Format.bitbranch "bb1_n_0" no_fix
    ∷ sim_entry 0xdc200000 0xffe00000 "bb1_n_1" Format.bitbranch "bb1_n_1" no_fix
    ∷ sim_entry 0xdc400000 0xffe00000 "bb1_n_2" Format.bitbranch "bb1_n_2" no_fix
    ∷ sim_entry 0xdc600000 0xffe00000 "bb1_n_3" Format.bitbranch "bb1_n_3" no_fix
    ∷ sim_entry 0xdc800000 0xffe00000 "bb1_n_4" Format.bitbranch "bb1_n_4" no_fix
    ∷ sim_entry 0xdca00000 0xffe00000 "bb1_n_5" Format.bitbranch "bb1_n_5" no_fix
    ∷ sim_entry 0xdcc00000 0xffe00000 "bb1_n_6" Format.bitbranch "bb1_n_6" no_fix
    ∷ sim_entry 0xdce00000 0xffe00000 "bb1_n_7" Format.bitbranch "bb1_n_7" no_fix
    ∷ sim_entry 0xdd000000 0xffe00000 "bb1_n_8" Format.bitbranch "bb1_n_8" no_fix
    ∷ sim_entry 0xdd200000 0xffe00000 "bb1_n_9" Format.bitbranch "bb1_n_9" no_fix
    ∷ sim_entry 0xdd400000 0xffe00000 "bb1_n_10" Format.bitbranch "bb1_n_10" no_fix
    ∷ sim_entry 0xdd600000 0xffe00000 "bb1_n_11" Format.bitbranch "bb1_n_11" no_fix
    ∷ sim_entry 0xdd800000 0xffe00000 "bb1_n_12" Format.bitbranch "bb1_n_12" no_fix
    ∷ sim_entry 0xdda00000 0xffe00000 "bb1_n_13" Format.bitbranch "bb1_n_13" no_fix
    ∷ sim_entry 0xddc00000 0xffe00000 "bb1_n_14" Format.bitbranch "bb1_n_14" no_fix
    ∷ sim_entry 0xdde00000 0xffe00000 "bb1_n_15" Format.bitbranch "bb1_n_15" no_fix
    ∷ sim_entry 0xde000000 0xffe00000 "bb1_n_16" Format.bitbranch "bb1_n_16" no_fix
    ∷ sim_entry 0xde200000 0xffe00000 "bb1_n_17" Format.bitbranch "bb1_n_17" no_fix
    ∷ sim_entry 0xde400000 0xffe00000 "bb1_n_18" Format.bitbranch "bb1_n_18" no_fix
    ∷ sim_entry 0xde600000 0xffe00000 "bb1_n_19" Format.bitbranch "bb1_n_19" no_fix
    ∷ sim_entry 0xde800000 0xffe00000 "bb1_n_20" Format.bitbranch "bb1_n_20" no_fix
    ∷ sim_entry 0xdea00000 0xffe00000 "bb1_n_21" Format.bitbranch "bb1_n_21" no_fix
    ∷ sim_entry 0xdec00000 0xffe00000 "bb1_n_22" Format.bitbranch "bb1_n_22" no_fix
    ∷ sim_entry 0xdee00000 0xffe00000 "bb1_n_23" Format.bitbranch "bb1_n_23" no_fix
    ∷ sim_entry 0xdf000000 0xffe00000 "bb1_n_24" Format.bitbranch "bb1_n_24" no_fix
    ∷ sim_entry 0xdf200000 0xffe00000 "bb1_n_25" Format.bitbranch "bb1_n_25" no_fix
    ∷ sim_entry 0xdf400000 0xffe00000 "bb1_n_26" Format.bitbranch "bb1_n_26" no_fix
    ∷ sim_entry 0xdf600000 0xffe00000 "bb1_n_27" Format.bitbranch "bb1_n_27" no_fix
    ∷ sim_entry 0xdf800000 0xffe00000 "bb1_n_28" Format.bitbranch "bb1_n_28" no_fix
    ∷ sim_entry 0xdfa00000 0xffe00000 "bb1_n_29" Format.bitbranch "bb1_n_29" no_fix
    ∷ sim_entry 0xdfc00000 0xffe00000 "bb1_n_30" Format.bitbranch "bb1_n_30" no_fix
    ∷ sim_entry 0xdfe00000 0xffe00000 "bb1_n_31" Format.bitbranch "bb1_n_31" no_fix
    ∷ []
