-- ===== src/Sim/Instr/Alu.antt =====
-- sim/simdecode.c: entries of in_tab.
use g.Base.{[], ◌∷◌}
use g.Decode.Entry.{Format}
use g.Sim.Instr.Entry.{SimTable, sim_entry, no_fix, fix_r0, fix_and, fix_and_u}

unfoldable pub first_entries : SimTable
first_entries =
    sim_entry 0x70000000 0xfc000000 "add" Format.intrl "add" fix_r0
    ∷ sim_entry 0xf4007000 0xfc00ffe0 "add" Format.intrr "add" fix_r0
    ∷ sim_entry 0xf4007100 0xfc00ffe0 "add.co" Format.intrr "add_co" fix_r0
    ∷ sim_entry 0xf4007200 0xfc00ffe0 "add.ci" Format.intrr "add_ci" fix_r0
    ∷ sim_entry 0xf4007300 0xfc00ffe0 "add.cio" Format.intrr "add_cio" fix_r0
    ∷ sim_entry 0x60000000 0xfc000000 "addu" Format.intrl "addu" fix_r0
    ∷ sim_entry 0xf4006000 0xfc00ffe0 "addu" Format.intrr "addu" fix_r0
    ∷ sim_entry 0xf4006100 0xfc00ffe0 "addu.co" Format.intrr "addu_co" fix_r0
    ∷ sim_entry 0xf4006200 0xfc00ffe0 "addu.ci" Format.intrr "addu_ci" fix_r0
    ∷ sim_entry 0xf4006300 0xfc00ffe0 "addu.cio" Format.intrr "addu_cio" fix_r0
    ∷ sim_entry 0x40000000 0xfc000000 "and" Format.intrl "and" fix_and
    ∷ sim_entry 0x44000000 0xfc000000 "and.u" Format.intrl "and" fix_and_u
    ∷ sim_entry 0xf4004000 0xfc00ffe0 "and" Format.intrr "and" fix_r0
    ∷ sim_entry 0xf4004400 0xfc00ffe0 "and.c" Format.intrr "and_c" fix_r0
    ∷ sim_entry 0xe8400000 0xffe00000 "bcnd_eq0" Format.cbranch "bcnd_eq0" no_fix
    ∷ sim_entry 0xe9a00000 0xffe00000 "bcnd_ne0" Format.cbranch "bcnd_ne0" no_fix
    ∷ sim_entry 0xe8200000 0xffe00000 "bcnd_gt0" Format.cbranch "bcnd_gt0" no_fix
    ∷ sim_entry 0xe9800000 0xffe00000 "bcnd_lt0" Format.cbranch "bcnd_lt0" no_fix
    ∷ sim_entry 0xe8600000 0xffe00000 "bcnd_ge0" Format.cbranch "bcnd_ge0" no_fix
    ∷ sim_entry 0xe9c00000 0xffe00000 "bcnd_le0" Format.cbranch "bcnd_le0" no_fix
    ∷ sim_entry 0xe8000000 0xffe00000 "bcnd_0" Format.cbranch "noop" no_fix
    ∷ sim_entry 0xe8800000 0xffe00000 "bcnd_4" Format.cbranch "bcnd_4" no_fix
    ∷ sim_entry 0xe8a00000 0xffe00000 "bcnd_5" Format.cbranch "bcnd_5" no_fix
    ∷ sim_entry 0xe8c00000 0xffe00000 "bcnd_6" Format.cbranch "bcnd_6" no_fix
    ∷ sim_entry 0xe8e00000 0xffe00000 "bcnd_7" Format.cbranch "bcnd_7" no_fix
    ∷ sim_entry 0xe9000000 0xffe00000 "bcnd_8" Format.cbranch "bcnd_8" no_fix
    ∷ sim_entry 0xe9200000 0xffe00000 "bcnd_9" Format.cbranch "bcnd_9" no_fix
    ∷ sim_entry 0xe9400000 0xffe00000 "bcnd_10" Format.cbranch "bcnd_10" no_fix
    ∷ sim_entry 0xe9600000 0xffe00000 "bcnd_11" Format.cbranch "bcnd_11" no_fix
    ∷ sim_entry 0xe9e00000 0xffe00000 "bcnd_always" Format.cbranch "bcnd_always" no_fix
    ∷ sim_entry 0xec400000 0xffe00000 "bcnd_eq0_n" Format.cbranch "bcnd_eq0_n" no_fix
    ∷ sim_entry 0xeda00000 0xffe00000 "bcnd_ne0_n" Format.cbranch "bcnd_ne0_n" no_fix
    ∷ sim_entry 0xec200000 0xffe00000 "bcnd_gt0_n" Format.cbranch "bcnd_gt0_n" no_fix
    ∷ sim_entry 0xed800000 0xffe00000 "bcnd_lt0_n" Format.cbranch "bcnd_lt0_n" no_fix
    ∷ sim_entry 0xec600000 0xffe00000 "bcnd_ge0_n" Format.cbranch "bcnd_ge0_n" no_fix
    ∷ sim_entry 0xedc00000 0xffe00000 "bcnd_le0_n" Format.cbranch "bcnd_le0_n" no_fix
    ∷ sim_entry 0xec000000 0xffe00000 "bcnd_0_n" Format.cbranch "noop" no_fix
    ∷ sim_entry 0xec800000 0xffe00000 "bcnd_4_n" Format.cbranch "bcnd_4_n" no_fix
    ∷ sim_entry 0xeca00000 0xffe00000 "bcnd_5_n" Format.cbranch "bcnd_5_n" no_fix
    ∷ sim_entry 0xecc00000 0xffe00000 "bcnd_6_n" Format.cbranch "bcnd_6_n" no_fix
    ∷ sim_entry 0xece00000 0xffe00000 "bcnd_7_n" Format.cbranch "bcnd_7_n" no_fix
    ∷ sim_entry 0xed000000 0xffe00000 "bcnd_8_n" Format.cbranch "bcnd_8_n" no_fix
    ∷ sim_entry 0xed200000 0xffe00000 "bcnd_9_n" Format.cbranch "bcnd_9_n" no_fix
    ∷ sim_entry 0xed400000 0xffe00000 "bcnd_10_n" Format.cbranch "bcnd_10_n" no_fix
    ∷ sim_entry 0xed600000 0xffe00000 "bcnd_11_n" Format.cbranch "bcnd_11_n" no_fix
    ∷ sim_entry 0xede00000 0xffe00000 "bcnd_always_n" Format.cbranch "bcnd_always_n" no_fix
    ∷ sim_entry 0xc0000000 0xfc000000 "br" Format.iprel "br" no_fix
    ∷ sim_entry 0xc4000000 0xfc000000 "br.n" Format.iprel "br_n" no_fix
    ∷ []

unfoldable pub bsr_entries : SimTable
bsr_entries =
    sim_entry 0xc8000000 0xfc000000 "bsr" Format.iprel "bsr" no_fix
    ∷ sim_entry 0xcc000000 0xfc000000 "bsr.n" Format.iprel "bsr_n" no_fix
    ∷ sim_entry 0xf0008000 0xfc00fc00 "clr" Format.bitfield "clr" fix_r0
    ∷ sim_entry 0xf4008000 0xfc00ffe0 "clr" Format.intrr "clr" fix_r0
    ∷ sim_entry 0x7c000000 0xfc000000 "cmp" Format.intrl "cmp" fix_r0
    ∷ sim_entry 0xf4007c00 0xfc00fee0 "cmp" Format.intrr "cmp" fix_r0
    ∷ sim_entry 0x78000000 0xfc000000 "div" Format.intrl "div" fix_r0
    ∷ sim_entry 0xf4007800 0xfc00fee0 "div" Format.intrr "div" fix_r0
    ∷ sim_entry 0x68000000 0xfc000000 "divu" Format.intrl "divu" fix_r0
    ∷ sim_entry 0xf4006800 0xfc00fee0 "divu" Format.intrr "divu" fix_r0
    ∷ sim_entry 0xf0009000 0xfc00fc00 "ext" Format.bitfield "ext" fix_r0
    ∷ sim_entry 0xf4009000 0xfc00ffe0 "ext" Format.intrr "ext" fix_r0
    ∷ sim_entry 0xf0009800 0xfc00fc00 "extu" Format.bitfield "extu" fix_r0
    ∷ sim_entry 0xf4009800 0xfc00ffe0 "extu" Format.intrr "extu" fix_r0
    ∷ []

unfoldable pub float_entries : SimTable
float_entries =
    sim_entry 0x84002800 0xfc00ffe0 "fadd.sss" Format.intrr "fadd_sss" fix_r0
    ∷ sim_entry 0x84002880 0xfc00ffe0 "fadd.ssd" Format.intrr "fadd_ssd" fix_r0
    ∷ sim_entry 0x84002a00 0xfc00ffe0 "fadd.sds" Format.intrr "fadd_sds" fix_r0
    ∷ sim_entry 0x84002a80 0xfc00ffe0 "fadd.sdd" Format.intrr "fadd_sdd" fix_r0
    ∷ sim_entry 0x84002820 0xfc00ffe0 "fadd.dss" Format.intrr "fadd_dss" fix_r0
    ∷ sim_entry 0x840028a0 0xfc00ffe0 "fadd.dsd" Format.intrr "fadd_dsd" fix_r0
    ∷ sim_entry 0x84002a20 0xfc00ffe0 "fadd.dds" Format.intrr "fadd_dds" fix_r0
    ∷ sim_entry 0x84002aa0 0xfc00ffe0 "fadd.ddd" Format.intrr "fadd_ddd" fix_r0
    ∷ sim_entry 0x84003800 0xfc00ffe0 "fcmp.sss" Format.intrr "fcmp_sss" fix_r0
    ∷ sim_entry 0x84003880 0xfc00ffe0 "fcmp.ssd" Format.intrr "fcmp_ssd" fix_r0
    ∷ sim_entry 0x84003a00 0xfc00ffe0 "fcmp.sds" Format.intrr "fcmp_sds" fix_r0
    ∷ sim_entry 0x84003a80 0xfc00ffe0 "fcmp.sdd" Format.intrr "fcmp_sdd" fix_r0
    ∷ sim_entry 0x84007000 0xfc00ffe0 "fdiv.sss" Format.intrr "fdiv_sss" fix_r0
    ∷ sim_entry 0x84007080 0xfc00ffe0 "fdiv.ssd" Format.intrr "fdiv_ssd" fix_r0
    ∷ sim_entry 0x84007200 0xfc00ffe0 "fdiv.sds" Format.intrr "fdiv_sds" fix_r0
    ∷ sim_entry 0x84007280 0xfc00ffe0 "fdiv.sdd" Format.intrr "fdiv_sdd" fix_r0
    ∷ sim_entry 0x84007020 0xfc00ffe0 "fdiv.dss" Format.intrr "fdiv_dss" fix_r0
    ∷ sim_entry 0x840070a0 0xfc00ffe0 "fdiv.dsd" Format.intrr "fdiv_dsd" fix_r0
    ∷ sim_entry 0x84007220 0xfc00ffe0 "fdiv.dds" Format.intrr "fdiv_dds" fix_r0
    ∷ sim_entry 0x840072a0 0xfc00ffe0 "fdiv.ddd" Format.intrr "fdiv_ddd" fix_r0
    ∷ sim_entry 0xf400ec00 0xfc1fffe0 "ff0" Format.intrr2op "ff0" fix_r0
    ∷ sim_entry 0xf400e800 0xfc1fffe0 "ff1" Format.intrr2op "ff1" fix_r0
    ∷ sim_entry 0x80004800 0xfc1ff81f "fldcr" Format.fldcr "ldcr" fix_r0
    ∷ sim_entry 0x84002000 0xfc1fffe0 "flt.ss" Format.intrr2op "flt_ss" fix_r0
    ∷ sim_entry 0x84002020 0xfc1fffe0 "flt.ds" Format.intrr2op "flt_ds" fix_r0
    ∷ sim_entry 0x84000000 0xfc00ffe0 "fmul.sss" Format.intrr "fmul_sss" fix_r0
    ∷ sim_entry 0x84000080 0xfc00ffe0 "fmul.ssd" Format.intrr "fmul_ssd" fix_r0
    ∷ sim_entry 0x84000200 0xfc00ffe0 "fmul.sds" Format.intrr "fmul_sds" fix_r0
    ∷ sim_entry 0x84000280 0xfc00ffe0 "fmul.sdd" Format.intrr "fmul_sdd" fix_r0
    ∷ sim_entry 0x84000020 0xfc00ffe0 "fmul.dss" Format.intrr "fmul_dss" fix_r0
    ∷ sim_entry 0x840000a0 0xfc00ffe0 "fmul.dsd" Format.intrr "fmul_dsd" fix_r0
    ∷ sim_entry 0x84000220 0xfc00ffe0 "fmul.dds" Format.intrr "fmul_dds" fix_r0
    ∷ sim_entry 0x840002a0 0xfc00ffe0 "fmul.ddd" Format.intrr "fmul_ddd" fix_r0
    ∷ sim_entry 0x80008800 0xffe0f800 "fstcr" Format.fstcr "stcr" no_fix
    ∷ sim_entry 0x84003000 0xfc00ffe0 "fsub.sss" Format.intrr "fsub_sss" fix_r0
    ∷ sim_entry 0x84003080 0xfc00ffe0 "fsub.ssd" Format.intrr "fsub_ssd" fix_r0
    ∷ sim_entry 0x84003200 0xfc00ffe0 "fsub.sds" Format.intrr "fsub_sds" fix_r0
    ∷ sim_entry 0x84003280 0xfc00ffe0 "fsub.sdd" Format.intrr "fsub_sdd" fix_r0
    ∷ sim_entry 0x84003020 0xfc00ffe0 "fsub.dss" Format.intrr "fsub_dss" fix_r0
    ∷ sim_entry 0x840030a0 0xfc00ffe0 "fsub.dsd" Format.intrr "fsub_dsd" fix_r0
    ∷ sim_entry 0x84003220 0xfc00ffe0 "fsub.dds" Format.intrr "fsub_dds" fix_r0
    ∷ sim_entry 0x840032a0 0xfc00ffe0 "fsub.ddd" Format.intrr "fsub_ddd" fix_r0
    ∷ sim_entry 0x8000c800 0xfc00f800 "fxcr" Format.fxcr "xcr" no_fix
    ∷ sim_entry 0x84004800 0xfc1fffe0 "int.ss" Format.intrr2op "int_ss" fix_r0
    ∷ sim_entry 0x84004880 0xfc1fffe0 "int.sd" Format.intrr2op "int_sd" fix_r0
    ∷ []
