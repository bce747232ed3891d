-- ===== src/Decode/Branches.antt =====
-- decode.c: the branches of in_tab.
use g.Base.{[], ◌∷◌}
use g.Decode.Entry.{Format, Table, entry}

-- Branches on a condition on a register, and `br`.
unfoldable pub bcnd_entries : Table
bcnd_entries =
    entry 0xe8400000 0xffe00000 "bcnd_eq0" Format.cbranch
    ∷ entry 0xe9a00000 0xffe00000 "bcnd_ne0" Format.cbranch
    ∷ entry 0xe8200000 0xffe00000 "bcnd_gt0" Format.cbranch
    ∷ entry 0xe9800000 0xffe00000 "bcnd_lt0" Format.cbranch
    ∷ entry 0xe8600000 0xffe00000 "bcnd_ge0" Format.cbranch
    ∷ entry 0xe9c00000 0xffe00000 "bcnd_le0" Format.cbranch
    ∷ entry 0xe8000000 0xffe00000 "bcnd_0" Format.cbranch
    ∷ entry 0xe8800000 0xffe00000 "bcnd_4" Format.cbranch
    ∷ entry 0xe8a00000 0xffe00000 "bcnd_5" Format.cbranch
    ∷ entry 0xe8c00000 0xffe00000 "bcnd_6" Format.cbranch
    ∷ entry 0xe8e00000 0xffe00000 "bcnd_7" Format.cbranch
    ∷ entry 0xe9000000 0xffe00000 "bcnd_8" Format.cbranch
    ∷ entry 0xe9200000 0xffe00000 "bcnd_9" Format.cbranch
    ∷ entry 0xe9400000 0xffe00000 "bcnd_10" Format.cbranch
    ∷ entry 0xe9600000 0xffe00000 "bcnd_11" Format.cbranch
    ∷ entry 0xe9e00000 0xffe00000 "bcnd_always" Format.cbranch
    ∷ entry 0xec400000 0xffe00000 "bcnd_eq0_n" Format.cbranch
    ∷ entry 0xeda00000 0xffe00000 "bcnd_ne0_n" Format.cbranch
    ∷ entry 0xec200000 0xffe00000 "bcnd_gt0_n" Format.cbranch
    ∷ entry 0xed800000 0xffe00000 "bcnd_lt0_n" Format.cbranch
    ∷ entry 0xec600000 0xffe00000 "bcnd_ge0_n" Format.cbranch
    ∷ entry 0xedc00000 0xffe00000 "bcnd_le0_n" Format.cbranch
    ∷ entry 0xec000000 0xffe00000 "bcnd_0_n" Format.cbranch
    ∷ entry 0xec800000 0xffe00000 "bcnd_4_n" Format.cbranch
    ∷ entry 0xeca00000 0xffe00000 "bcnd_5_n" Format.cbranch
    ∷ entry 0xecc00000 0xffe00000 "bcnd_6_n" Format.cbranch
    ∷ entry 0xece00000 0xffe00000 "bcnd_7_n" Format.cbranch
    ∷ entry 0xed000000 0xffe00000 "bcnd_8_n" Format.cbranch
    ∷ entry 0xed200000 0xffe00000 "bcnd_9_n" Format.cbranch
    ∷ entry 0xed400000 0xffe00000 "bcnd_10_n" Format.cbranch
    ∷ entry 0xed600000 0xffe00000 "bcnd_11_n" Format.cbranch
    ∷ entry 0xede00000 0xffe00000 "bcnd_always_n" Format.cbranch
    ∷ entry 0xc0000000 0xfc000000 "br" Format.iprel
    ∷ entry 0xc4000000 0xfc000000 "br.n" Format.iprel
    ∷ []

-- Branches on one bit of a register.
unfoldable pub bb_entries : Table
bb_entries =
    entry 0xd0000000 0xffe00000 "bb0_0" Format.bitbranch
    ∷ entry 0xd0200000 0xffe00000 "bb0_1" Format.bitbranch
    ∷ entry 0xd0400000 0xffe00000 "bb0_2" Format.bitbranch
    ∷ entry 0xd0600000 0xffe00000 "bb0_3" Format.bitbranch
    ∷ entry 0xd0800000 0xffe00000 "bb0_4" Format.bitbranch
    ∷ entry 0xd0a00000 0xffe00000 "bb0_5" Format.bitbranch
    ∷ entry 0xd0c00000 0xffe00000 "bb0_6" Format.bitbranch
    ∷ entry 0xd0e00000 0xffe00000 "bb0_7" Format.bitbranch
    ∷ entry 0xd1000000 0xffe00000 "bb0_8" Format.bitbranch
    ∷ entry 0xd1200000 0xffe00000 "bb0_9" Format.bitbranch
    ∷ entry 0xd1400000 0xffe00000 "bb0_10" Format.bitbranch
    ∷ entry 0xd1600000 0xffe00000 "bb0_11" Format.bitbranch
    ∷ entry 0xd1800000 0xffe00000 "bb0_12" Format.bitbranch
    ∷ entry 0xd1a00000 0xffe00000 "bb0_13" Format.bitbranch
    ∷ entry 0xd1c00000 0xffe00000 "bb0_14" Format.bitbranch
    ∷ entry 0xd1e00000 0xffe00000 "bb0_15" Format.bitbranch
    ∷ entry 0xd2000000 0xffe00000 "bb0_16" Format.bitbranch
    ∷ entry 0xd2200000 0xffe00000 "bb0_17" Format.bitbranch
    ∷ entry 0xd2400000 0xffe00000 "bb0_18" Format.bitbranch
    ∷ entry 0xd2600000 0xffe00000 "bb0_19" Format.bitbranch
    ∷ entry 0xd2800000 0xffe00000 "bb0_20" Format.bitbranch
    ∷ entry 0xd2a00000 0xffe00000 "bb0_21" Format.bitbranch
    ∷ entry 0xd2c00000 0xffe00000 "bb0_22" Format.bitbranch
    ∷ entry 0xd2e00000 0xffe00000 "bb0_23" Format.bitbranch
    ∷ entry 0xd3000000 0xffe00000 "bb0_24" Format.bitbranch
    ∷ entry 0xd3200000 0xffe00000 "bb0_25" Format.bitbranch
    ∷ entry 0xd3400000 0xffe00000 "bb0_26" Format.bitbranch
    ∷ entry 0xd3600000 0xffe00000 "bb0_27" Format.bitbranch
    ∷ entry 0xd3800000 0xffe00000 "bb0_28" Format.bitbranch
    ∷ entry 0xd3a00000 0xffe00000 "bb0_29" Format.bitbranch
    ∷ entry 0xd3c00000 0xffe00000 "bb0_30" Format.bitbranch
    ∷ entry 0xd3e00000 0xffe00000 "bb0_31" Format.bitbranch
    ∷ entry 0xd8000000 0xffe00000 "bb1_0" Format.bitbranch
    ∷ entry 0xd8200000 0xffe00000 "bb1_1" Format.bitbranch
    ∷ entry 0xd8400000 0xffe00000 "bb1_2" Format.bitbranch
    ∷ entry 0xd8600000 0xffe00000 "bb1_3" Format.bitbranch
    ∷ entry 0xd8800000 0xffe00000 "bb1_4" Format.bitbranch
    ∷ entry 0xd8a00000 0xffe00000 "bb1_5" Format.bitbranch
    ∷ entry 0xd8c00000 0xffe00000 "bb1_6" Format.bitbranch
    ∷ entry 0xd8e00000 0xffe00000 "bb1_7" Format.bitbranch
    ∷ entry 0xd9000000 0xffe00000 "bb1_8" Format.bitbranch
    ∷ entry 0xd9200000 0xffe00000 "bb1_9" Format.bitbranch
    ∷ entry 0xd9400000 0xffe00000 "bb1_10" Format.bitbranch
    ∷ entry 0xd9600000 0xffe00000 "bb1_11" Format.bitbranch
    ∷ entry 0xd9800000 0xffe00000 "bb1_12" Format.bitbranch
    ∷ entry 0xd9a00000 0xffe00000 "bb1_13" Format.bitbranch
    ∷ entry 0xd9c00000 0xffe00000 "bb1_14" Format.bitbranch
    ∷ entry 0xd9e00000 0xffe00000 "bb1_15" Format.bitbranch
    ∷ entry 0xda000000 0xffe00000 "bb1_16" Format.bitbranch
    ∷ entry 0xda200000 0xffe00000 "bb1_17" Format.bitbranch
    ∷ entry 0xda400000 0xffe00000 "bb1_18" Format.bitbranch
    ∷ entry 0xda600000 0xffe00000 "bb1_19" Format.bitbranch
    ∷ entry 0xda800000 0xffe00000 "bb1_20" Format.bitbranch
    ∷ entry 0xdaa00000 0xffe00000 "bb1_21" Format.bitbranch
    ∷ entry 0xdac00000 0xffe00000 "bb1_22" Format.bitbranch
    ∷ entry 0xdae00000 0xffe00000 "bb1_23" Format.bitbranch
    ∷ entry 0xdb000000 0xffe00000 "bb1_24" Format.bitbranch
    ∷ entry 0xdb200000 0xffe00000 "bb1_25" Format.bitbranch
    ∷ entry 0xdb400000 0xffe00000 "bb1_26" Format.bitbranch
    ∷ entry 0xdb600000 0xffe00000 "bb1_27" Format.bitbranch
    ∷ entry 0xdb800000 0xffe00000 "bb1_28" Format.bitbranch
    ∷ entry 0xdba00000 0xffe00000 "bb1_29" Format.bitbranch
    ∷ entry 0xdbc00000 0xffe00000 "bb1_30" Format.bitbranch
    ∷ entry 0xdbe00000 0xffe00000 "bb1_31" Format.bitbranch
    ∷ []

-- The same with the next instruction executed first.
unfoldable pub bb_n_entries : Table
bb_n_entries =
    entry 0xd4000000 0xffe00000 "bb0_n_0" Format.bitbranch
    ∷ entry 0xd4200000 0xffe00000 "bb0_n_1" Format.bitbranch
    ∷ entry 0xd4400000 0xffe00000 "bb0_n_2" Format.bitbranch
    ∷ entry 0xd4600000 0xffe00000 "bb0_n_3" Format.bitbranch
    ∷ entry 0xd4800000 0xffe00000 "bb0_n_4" Format.bitbranch
    ∷ entry 0xd4a00000 0xffe00000 "bb0_n_5" Format.bitbranch
    ∷ entry 0xd4c00000 0xffe00000 "bb0_n_6" Format.bitbranch
    ∷ entry 0xd4e00000 0xffe00000 "bb0_n_7" Format.bitbranch
    ∷ entry 0xd5000000 0xffe00000 "bb0_n_8" Format.bitbranch
    ∷ entry 0xd5200000 0xffe00000 "bb0_n_9" Format.bitbranch
    ∷ entry 0xd5400000 0xffe00000 "bb0_n_10" Format.bitbranch
    ∷ entry 0xd5600000 0xffe00000 "bb0_n_11" Format.bitbranch
    ∷ entry 0xd5800000 0xffe00000 "bb0_n_12" Format.bitbranch
    ∷ entry 0xd5a00000 0xffe00000 "bb0_n_13" Format.bitbranch
    ∷ entry 0xd5c00000 0xffe00000 "bb0_n_14" Format.bitbranch
    ∷ entry 0xd5e00000 0xffe00000 "bb0_n_15" Format.bitbranch
    ∷ entry 0xd6000000 0xffe00000 "bb0_n_16" Format.bitbranch
    ∷ entry 0xd6200000 0xffe00000 "bb0_n_17" Format.bitbranch
    ∷ entry 0xd6400000 0xffe00000 "bb0_n_18" Format.bitbranch
    ∷ entry 0xd6600000 0xffe00000 "bb0_n_19" Format.bitbranch
    ∷ entry 0xd6800000 0xffe00000 "bb0_n_20" Format.bitbranch
    ∷ entry 0xd6a00000 0xffe00000 "bb0_n_21" Format.bitbranch
    ∷ entry 0xd6c00000 0xffe00000 "bb0_n_22" Format.bitbranch
    ∷ entry 0xd6e00000 0xffe00000 "bb0_n_23" Format.bitbranch
    ∷ entry 0xd7000000 0xffe00000 "bb0_n_24" Format.bitbranch
    ∷ entry 0xd7200000 0xffe00000 "bb0_n_25" Format.bitbranch
    ∷ entry 0xd7400000 0xffe00000 "bb0_n_26" Format.bitbranch
    ∷ entry 0xd7600000 0xffe00000 "bb0_n_27" Format.bitbranch
    ∷ entry 0xd7800000 0xffe00000 "bb0_n_28" Format.bitbranch
    ∷ entry 0xd7a00000 0xffe00000 "bb0_n_29" Format.bitbranch
    ∷ entry 0xd7c00000 0xffe00000 "bb0_n_30" Format.bitbranch
    ∷ entry 0xd7e00000 0xffe00000 "bb0_n_31" Format.bitbranch
    ∷ entry 0xdc000000 0xffe00000 "bb1_n_0" Format.bitbranch
    ∷ entry 0xdc200000 0xffe00000 "bb1_n_1" Format.bitbranch
    ∷ entry 0xdc400000 0xffe00000 "bb1_n_2" Format.bitbranch
    ∷ entry 0xdc600000 0xffe00000 "bb1_n_3" Format.bitbranch
    ∷ entry 0xdc800000 0xffe00000 "bb1_n_4" Format.bitbranch
    ∷ entry 0xdca00000 0xffe00000 "bb1_n_5" Format.bitbranch
    ∷ entry 0xdcc00000 0xffe00000 "bb1_n_6" Format.bitbranch
    ∷ entry 0xdce00000 0xffe00000 "bb1_n_7" Format.bitbranch
    ∷ entry 0xdd000000 0xffe00000 "bb1_n_8" Format.bitbranch
    ∷ entry 0xdd200000 0xffe00000 "bb1_n_9" Format.bitbranch
    ∷ entry 0xdd400000 0xffe00000 "bb1_n_10" Format.bitbranch
    ∷ entry 0xdd600000 0xffe00000 "bb1_n_11" Format.bitbranch
    ∷ entry 0xdd800000 0xffe00000 "bb1_n_12" Format.bitbranch
    ∷ entry 0xdda00000 0xffe00000 "bb1_n_13" Format.bitbranch
    ∷ entry 0xddc00000 0xffe00000 "bb1_n_14" Format.bitbranch
    ∷ entry 0xdde00000 0xffe00000 "bb1_n_15" Format.bitbranch
    ∷ entry 0xde000000 0xffe00000 "bb1_n_16" Format.bitbranch
    ∷ entry 0xde200000 0xffe00000 "bb1_n_17" Format.bitbranch
    ∷ entry 0xde400000 0xffe00000 "bb1_n_18" Format.bitbranch
    ∷ entry 0xde600000 0xffe00000 "bb1_n_19" Format.bitbranch
    ∷ entry 0xde800000 0xffe00000 "bb1_n_20" Format.bitbranch
    ∷ entry 0xdea00000 0xffe00000 "bb1_n_21" Format.bitbranch
    ∷ entry 0xdec00000 0xffe00000 "bb1_n_22" Format.bitbranch
    ∷ entry 0xdee00000 0xffe00000 "bb1_n_23" Format.bitbranch
    ∷ entry 0xdf000000 0xffe00000 "bb1_n_24" Format.bitbranch
    ∷ entry 0xdf200000 0xffe00000 "bb1_n_25" Format.bitbranch
    ∷ entry 0xdf400000 0xffe00000 "bb1_n_26" Format.bitbranch
    ∷ entry 0xdf600000 0xffe00000 "bb1_n_27" Format.bitbranch
    ∷ entry 0xdf800000 0xffe00000 "bb1_n_28" Format.bitbranch
    ∷ entry 0xdfa00000 0xffe00000 "bb1_n_29" Format.bitbranch
    ∷ entry 0xdfc00000 0xffe00000 "bb1_n_30" Format.bitbranch
    ∷ entry 0xdfe00000 0xffe00000 "bb1_n_31" Format.bitbranch
    ∷ []
