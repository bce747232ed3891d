-- ===== src/Sim/Instr/Memory.antt =====
-- sim/simdecode.c: entries of in_tab.
use g.Base.{[], ◌∷◌}
use g.Decode.Entry.{Format}
use g.Sim.Instr.Entry.{SimTable, sim_entry, no_fix, fix_r0, fix_mask_u, fix_or_u}

unfoldable pub load_entries : SimTable
load_entries =
    sim_entry 0xf400c000 0xffffffe0 "jmp" Format.jmp "jmp" no_fix
    ∷ sim_entry 0xf400c400 0xffffffe0 "jmp.n" Format.jmp "jmp_n" no_fix
    ∷ sim_entry 0xf400c800 0xffffffe0 "jsr" Format.jmp "jsr" no_fix
    ∷ sim_entry 0xf400cc00 0xffffffe0 "jsr.n" Format.jmp "jsr_n" no_fix
    ∷ sim_entry 0x10000000 0xfc000000 "ld.d" Format.ldlit "ld_d" no_fix
    ∷ sim_entry 0x14000000 0xfc000000 "ld" Format.ldlit "ld" fix_r0
    ∷ sim_entry 0x18000000 0xfc000000 "ld.h" Format.ldlit "ld_h" fix_r0
    ∷ sim_entry 0x1c000000 0xfc000000 "ld.b" Format.ldlit "ld_b" fix_r0
    ∷ sim_entry 0x00000000 0xfc000000 "xmem.bu" Format.ldlit "xmem_bu" no_fix
    ∷ sim_entry 0x04000000 0xfc000000 "xmem" Format.ldlit "xmem" no_fix
    ∷ sim_entry 0x08000000 0xfc000000 "ld.hu" Format.ldlit "ld_hu" fix_r0
    ∷ sim_entry 0x0c000000 0xfc000000 "ld.bu" Format.ldlit "ld_bu" fix_r0
    ∷ sim_entry 0xf4000000 0xfc00ffe0 "xmem.bu" Format.ldro "xmem_bu" no_fix
    ∷ sim_entry 0xf4000400 0xfc00ffe0 "xmem" Format.ldro "xmem" no_fix
    ∷ sim_entry 0xf4000800 0xfc00ffe0 "ld.hu" Format.ldro "ld_hu" fix_r0
    ∷ sim_entry 0xf4000c00 0xfc00ffe0 "ld.bu" Format.ldro "ld_bu" fix_r0
    ∷ sim_entry 0xf4001000 0xfc00ffe0 "ld.d" Format.ldro "ld_d" fix_r0
    ∷ sim_entry 0xf4001400 0xfc00ffe0 "ld" Format.ldro "ld" fix_r0
    ∷ sim_entry 0xf4001800 0xfc00ffe0 "ld.h" Format.ldro "ld_h" fix_r0
    ∷ sim_entry 0xf4001c00 0xfc00ffe0 "ld.b" Format.ldro "ld_b" fix_r0
    ∷ sim_entry 0xf4000200 0xfc00ffe0 "xmem.bu" Format.ldri "xmem_bu" no_fix
    ∷ sim_entry 0xf4000600 0xfc00ffe0 "xmem" Format.ldri "xmem_sc" no_fix
    ∷ sim_entry 0xf4000a00 0xfc00ffe0 "ld.hu" Format.ldri "ld_hu_sc" fix_r0
    ∷ sim_entry 0xf4000e00 0xfc00ffe0 "ld.bu" Format.ldri "ld_bu" fix_r0
    ∷ sim_entry 0xf4001200 0xfc00ffe0 "ld.d" Format.ldri "ld_d_sc" no_fix
    ∷ sim_entry 0xf4001600 0xfc00ffe0 "ld" Format.ldri "ld_sc" fix_r0
    ∷ sim_entry 0xf4001a00 0xfc00ffe0 "ld.h" Format.ldri "ld_h_sc" fix_r0
    ∷ sim_entry 0xf4001e00 0xfc00ffe0 "ld.b" Format.ldri "ld_b" fix_r0
    ∷ sim_entry 0xf4000900 0xfc00ffe0 "ld.hu.usr" Format.ldro "ld_hu_usr" fix_r0
    ∷ sim_entry 0xf4000d00 0xfc00ffe0 "ld.bu.usr" Format.ldro "ld_bu_usr" fix_r0
    ∷ sim_entry 0xf4001100 0xfc00ffe0 "ld.d.usr" Format.ldro "ld_d_usr" no_fix
    ∷ sim_entry 0xf4001500 0xfc00ffe0 "ld.usr" Format.ldro "ld_usr" fix_r0
    ∷ sim_entry 0xf4001900 0xfc00ffe0 "ld.h.usr" Format.ldro "ld_h_usr" fix_r0
    ∷ sim_entry 0xf4001d00 0xfc00ffe0 "ld.b.usr" Format.ldro "ld_b_usr" fix_r0
    ∷ sim_entry 0xf4000b00 0xfc00ffe0 "ld.hu.usr" Format.ldri "ld_hu_usr_sc" fix_r0
    ∷ sim_entry 0xf4000f00 0xfc00ffe0 "ld.bu.usr" Format.ldri "ld_bu_usr" fix_r0
    ∷ sim_entry 0xf4001300 0xfc00ffe0 "ld.d.usr" Format.ldri "ld_d_usr_sc" no_fix
    ∷ sim_entry 0xf4001700 0xfc00ffe0 "ld.usr" Format.ldri "ld_usr_sc" fix_r0
    ∷ sim_entry 0xf4001b00 0xfc00ffe0 "ld.h.usr" Format.ldri "ld_h_usr_sc" fix_r0
    ∷ sim_entry 0xf4001f00 0xfc00ffe0 "ld.b.usr" Format.ldri "ld_b_usr" fix_r0
    ∷ sim_entry 0xf4000100 0xfc00ffe0 "xmem.bu.usr" Format.ldro "xmem_bu_usr" no_fix
    ∷ sim_entry 0xf4000500 0xfc00ffe0 "xmem.usr" Format.ldro "xmem_usr" no_fix
    ∷ sim_entry 0xf4000300 0xfc00ffe0 "xmem.bu.usr" Format.ldri "xmem_bu_usr" no_fix
    ∷ sim_entry 0xf4000700 0xfc00ffe0 "xmem.usr" Format.ldri "xmem_usr_sc" no_fix
    ∷ []

unfoldable pub middle_entries : SimTable
middle_entries =
    sim_entry 0x30000000 0xfc000000 "lda.d" Format.intrl "addu" fix_r0
    ∷ sim_entry 0x34000000 0xfc000000 "lda" Format.intrl "addu" fix_r0
    ∷ sim_entry 0x38000000 0xfc000000 "lda.h" Format.intrl "addu" fix_r0
    ∷ sim_entry 0x3c000000 0xfc000000 "lda.b" Format.intrl "addu" fix_r0
    ∷ sim_entry 0xf4003000 0xfc00ffe0 "lda.d" Format.intrr "addu" fix_r0
    ∷ sim_entry 0xf4003400 0xfc00ffe0 "lda" Format.intrr "addu" fix_r0
    ∷ sim_entry 0xf4003800 0xfc00ffe0 "lda.h" Format.intrr "addu" fix_r0
    ∷ sim_entry 0xf4003c00 0xfc00ffe0 "lda.b" Format.intrr "addu" fix_r0
    ∷ sim_entry 0xf4003200 0xfc00ffe0 "lda.d" Format.intrr "lda_d" fix_r0
    ∷ sim_entry 0xf4003600 0xfc00ffe0 "lda" Format.intrr "lda" fix_r0
    ∷ sim_entry 0xf4003a00 0xfc00ffe0 "lda.h" Format.intrr "lda_h" fix_r0
    ∷ sim_entry 0xf4003e00 0xfc00ffe0 "lda.b" Format.intrr "addu" fix_r0
    ∷ sim_entry 0x80004000 0xfc1ff81f "ldcr" Format.ldcr "ldcr" fix_r0
    ∷ sim_entry 0xf000a000 0xfc00fc00 "mak" Format.bitfield "mak" fix_r0
    ∷ sim_entry 0xf400a000 0xfc00ffe0 "mak" Format.intrr "mak" fix_r0
    ∷ sim_entry 0x48000000 0xfc000000 "mask" Format.intrl "and" fix_r0
    ∷ sim_entry 0x4c000000 0xfc000000 "mask.u" Format.intrl "and" fix_mask_u
    ∷ sim_entry 0x6c000000 0xfc000000 "mul" Format.intrl "mul" fix_r0
    ∷ sim_entry 0xf4006c00 0xfc00fee0 "mul" Format.intrr "mul" fix_r0
    ∷ sim_entry 0x84005000 0xfc1fffe0 "nint.ss" Format.intrr2op "nint_ss" fix_r0
    ∷ sim_entry 0x84005080 0xfc1fffe0 "nint.sd" Format.intrr2op "nint_sd" fix_r0
    ∷ sim_entry 0x58000000 0xfc000000 "or" Format.intrl "or" fix_r0
    ∷ sim_entry 0x5c000000 0xfc000000 "or.u" Format.intrl "or" fix_or_u
    ∷ sim_entry 0xf4005800 0xfc00ffe0 "or" Format.intrr "or" fix_r0
    ∷ sim_entry 0xf4005c00 0xfc00ffe0 "or.c" Format.intrr "or_c" fix_r0
    ∷ sim_entry 0xf000a800 0xfc00ffe0 "rot" Format.rot "rot" fix_r0
    ∷ sim_entry 0xf400a800 0xfc00ffe0 "rot" Format.intrr "rot" fix_r0
    ∷ sim_entry 0xf400fc00 0xffffffff "rte" Format.rte "rte" no_fix
    ∷ sim_entry 0xf0008800 0xfc00fc00 "set" Format.bitfield "set" fix_r0
    ∷ sim_entry 0xf4008800 0xfc00ffe0 "set" Format.intrr "set" fix_r0
    ∷ []

unfoldable pub last_entries : SimTable
last_entries =
    sim_entry 0x20000000 0xfc000000 "st.d" Format.stlit "st_d" no_fix
    ∷ sim_entry 0x24000000 0xfc000000 "st" Format.stlit "st" no_fix
    ∷ sim_entry 0x28000000 0xfc000000 "st.h" Format.stlit "st_h" no_fix
    ∷ sim_entry 0x2c000000 0xfc000000 "st.b" Format.stlit "st_b" no_fix
    ∷ sim_entry 0xf4002000 0xfc00ffe0 "st.d" Format.stro "st_d" no_fix
    ∷ sim_entry 0xf4002400 0xfc00ffe0 "st" Format.stro "st" no_fix
    ∷ sim_entry 0xf4002800 0xfc00ffe0 "st.h" Format.stro "st_h" no_fix
    ∷ sim_entry 0xf4002c00 0xfc00ffe0 "st.b" Format.stro "st_b" no_fix
    ∷ sim_entry 0xf4002200 0xfc00ffe0 "st.d" Format.stri "st_d_sc" no_fix
    ∷ sim_entry 0xf4002600 0xfc00ffe0 "st" Format.stri "st_sc" no_fix
    ∷ sim_entry 0xf4002a00 0xfc00ffe0 "st.h" Format.stri "st_h_sc" no_fix
    ∷ sim_entry 0xf4002e00 0xfc00ffe0 "st.b" Format.stri "st_b" no_fix
    ∷ sim_entry 0xf4002100 0xfc00ffe0 "st.d.usr" Format.stro "st_d_usr" no_fix
    ∷ sim_entry 0xf4002500 0xfc00ffe0 "st.usr" Format.stro "st_usr" no_fix
    ∷ sim_entry 0xf4002900 0xfc00ffe0 "st.h.usr" Format.stro "st_h_usr" no_fix
    ∷ sim_entry 0xf4002d00 0xfc00ffe0 "st.b.usr" Format.stro "st_b_usr" no_fix
    ∷ sim_entry 0xf4002300 0xfc00ffe0 "st.d.usr" Format.stri "st_d_usr_sc" no_fix
    ∷ sim_entry 0xf4002700 0xfc00ffe0 "st.usr" Format.stri "st_usr_sc" no_fix
    ∷ sim_entry 0xf4002b00 0xfc00ffe0 "st.h.usr" Format.stri "st_h_usr_sc" no_fix
    ∷ sim_entry 0xf4002f00 0xfc00ffe0 "st.b.usr" Format.stri "st_b_usr" no_fix
    ∷ sim_entry 0x80008000 0xffe0f800 "stcr" Format.stcr "stcr" no_fix
    ∷ sim_entry 0x74000000 0xfc000000 "sub" Format.intrl "sub" fix_r0
    ∷ sim_entry 0xf4007400 0xfc00ffe0 "sub" Format.intrr "sub" fix_r0
    ∷ sim_entry 0xf4007500 0xfc00ffe0 "sub.bo" Format.intrr "sub_bo" fix_r0
    ∷ sim_entry 0xf4007600 0xfc00ffe0 "sub.bi" Format.intrr "sub_bi" fix_r0
    ∷ sim_entry 0xf4007700 0xfc00ffe0 "sub.bio" Format.intrr "sub_bio" fix_r0
    ∷ sim_entry 0x64000000 0xfc000000 "subu" Format.intrl "subu" fix_r0
    ∷ sim_entry 0xf4006400 0xfc00ffe0 "subu" Format.intrr "subu" fix_r0
    ∷ sim_entry 0xf4006500 0xfc00ffe0 "subu.bo" Format.intrr "subu_bo" fix_r0
    ∷ sim_entry 0xf4006600 0xfc00ffe0 "subu.bi" Format.intrr "subu_bi" fix_r0
    ∷ sim_entry 0xf4006700 0xfc00ffe0 "subu.bio" Format.intrr "subu_bio" fix_r0
    ∷ sim_entry 0xf000d000 0xfc00fe00 "tb0" Format.trap "tb0" no_fix
    ∷ sim_entry 0xf000d800 0xfc00fe00 "tb1" Format.trap "tb1" no_fix
    ∷ sim_entry 0xf8000000 0xffe00000 "tbnd" Format.tbnd "tbnd" no_fix
    ∷ sim_entry 0xf400f800 0xffe0ffe0 "tbnd" Format.intrr_s1_s2 "tbnd" no_fix
    ∷ sim_entry 0xf000e800 0xfc00fe00 "tcnd" Format.tcnd "tcnd" no_fix
    ∷ sim_entry 0x84005800 0xfc1fffe0 "trnc.ss" Format.intrr2op "trnc_ss" fix_r0
    ∷ sim_entry 0x84005880 0xfc1fffe0 "trnc.sd" Format.intrr2op "trnc_sd" fix_r0
    ∷ sim_entry 0x8000c000 0xfc00c000 "xcr" Format.xcr "xcr" no_fix
    ∷ sim_entry 0x50000000 0xfc000000 "xor" Format.intrl "xor" fix_r0
    ∷ sim_entry 0x54000000 0xfc000000 "xor.u" Format.intrl "xor" fix_or_u
    ∷ sim_entry 0xf4005000 0xfc00ffe0 "xor" Format.intrr "xor" fix_r0
    ∷ sim_entry 0xf4005400 0xfc00ffe0 "xor.c" Format.intrr "xor_c" fix_r0
    ∷ []
