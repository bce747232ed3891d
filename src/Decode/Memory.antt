-- ===== src/Decode/Memory.antt =====
-- decode.c: the loads and stores of in_tab, and the entries among and behind them.
use g.Base.{[], ◌∷◌}
use g.Decode.Entry.{Format, Table, entry}

-- Loads, exchanges and `lda`.
unfoldable pub load_entries : Table
load_entries =
    entry 0x10000000 0xfc000000 "ld.d" Format.ldlit
    ∷ entry 0x14000000 0xfc000000 "ld" Format.ldlit
    ∷ entry 0x18000000 0xfc000000 "ld.h" Format.ldlit
    ∷ entry 0x1c000000 0xfc000000 "ld.b" Format.ldlit
    ∷ entry 0x00000000 0xfc000000 "xmem.bu" Format.ldlit
    ∷ entry 0x04000000 0xfc000000 "xmem" Format.ldlit
    ∷ entry 0x08000000 0xfc000000 "ld.hu" Format.ldlit
    ∷ entry 0x0c000000 0xfc000000 "ld.bu" Format.ldlit
    ∷ entry 0xf4000000 0xfc00ffe0 "xmem.bu" Format.ldro
    ∷ entry 0xf4000400 0xfc00ffe0 "xmem" Format.ldro
    ∷ entry 0xf4000800 0xfc00ffe0 "ld.hu" Format.ldro
    ∷ entry 0xf4000c00 0xfc00ffe0 "ld.bu" Format.ldro
    ∷ entry 0xf4001000 0xfc00ffe0 "ld.d" Format.ldro
    ∷ entry 0xf4001400 0xfc00ffe0 "ld" Format.ldro
    ∷ entry 0xf4001800 0xfc00ffe0 "ld.h" Format.ldro
    ∷ entry 0xf4001c00 0xfc00ffe0 "ld.b" Format.ldro
    ∷ entry 0xf4000200 0xfc00ffe0 "xmem.bu" Format.ldri
    ∷ entry 0xf4000600 0xfc00ffe0 "xmem" Format.ldri
    ∷ entry 0xf4000a00 0xfc00ffe0 "ld.hu" Format.ldri
    ∷ entry 0xf4000e00 0xfc00ffe0 "ld.bu" Format.ldri
    ∷ entry 0xf4001200 0xfc00ffe0 "ld.d" Format.ldri
    ∷ entry 0xf4001600 0xfc00ffe0 "ld" Format.ldri
    ∷ entry 0xf4001a00 0xfc00ffe0 "ld.h" Format.ldri
    ∷ entry 0xf4001e00 0xfc00ffe0 "ld.b" Format.ldri
    ∷ entry 0xf4000900 0xfc00ffe0 "ld.hu.usr" Format.ldro
    ∷ entry 0xf4000d00 0xfc00ffe0 "ld.bu.usr" Format.ldro
    ∷ entry 0xf4001100 0xfc00ffe0 "ld.d.usr" Format.ldro
    ∷ entry 0xf4001500 0xfc00ffe0 "ld.usr" Format.ldro
    ∷ entry 0xf4001900 0xfc00ffe0 "ld.h.usr" Format.ldro
    ∷ entry 0xf4001d00 0xfc00ffe0 "ld.b.usr" Format.ldro
    ∷ entry 0xf4000b00 0xfc00ffe0 "ld.hu.usr" Format.ldri
    ∷ entry 0xf4000f00 0xfc00ffe0 "ld.bu.usr" Format.ldri
    ∷ entry 0xf4001300 0xfc00ffe0 "ld.d.usr" Format.ldri
    ∷ entry 0xf4001700 0xfc00ffe0 "ld.usr" Format.ldri
    ∷ entry 0xf4001b00 0xfc00ffe0 "ld.h.usr" Format.ldri
    ∷ entry 0xf4001f00 0xfc00ffe0 "ld.b.usr" Format.ldri
    ∷ entry 0xf4000100 0xfc00ffe0 "xmem.bu.usr" Format.ldro
    ∷ entry 0xf4000500 0xfc00ffe0 "xmem.usr" Format.ldro
    ∷ entry 0xf4000300 0xfc00ffe0 "xmem.bu.usr" Format.ldri
    ∷ entry 0xf4000700 0xfc00ffe0 "xmem.usr" Format.ldri
    ∷ entry 0x30000000 0xfc000000 "lda.d" Format.intrl
    ∷ entry 0x34000000 0xfc000000 "lda" Format.intrl
    ∷ entry 0x38000000 0xfc000000 "lda.h" Format.intrl
    ∷ entry 0x3c000000 0xfc000000 "lda.b" Format.intrl
    ∷ entry 0xf4003000 0xfc00ffe0 "lda.d" Format.intrr
    ∷ entry 0xf4003400 0xfc00ffe0 "lda" Format.intrr
    ∷ entry 0xf4003800 0xfc00ffe0 "lda.h" Format.intrr
    ∷ entry 0xf4003c00 0xfc00ffe0 "lda.b" Format.intrr
    ∷ entry 0xf4003200 0xfc00ffe0 "lda.d" Format.intrr
    ∷ entry 0xf4003600 0xfc00ffe0 "lda" Format.intrr
    ∷ entry 0xf4003a00 0xfc00ffe0 "lda.h" Format.intrr
    ∷ entry 0xf4003e00 0xfc00ffe0 "lda.b" Format.intrr
    ∷ []

-- Control registers, bit fields and logic.
unfoldable pub control_entries : Table
control_entries =
    entry 0x80004000 0xfc1ff81f "ldcr" Format.ldcr
    ∷ entry 0xf000a000 0xfc00fc00 "mak" Format.bitfield
    ∷ entry 0xf400a000 0xfc00ffe0 "mak" Format.intrr
    ∷ entry 0x48000000 0xfc000000 "mask" Format.intrl
    ∷ entry 0x4c000000 0xfc000000 "mask.u" Format.intrl
    ∷ entry 0x6c000000 0xfc000000 "mul" Format.intrl
    ∷ entry 0xf4006c00 0xfc00fee0 "mul" Format.intrr
    ∷ entry 0x84005000 0xfc1fffe0 "nint.ss" Format.intrr2op
    ∷ entry 0x84005080 0xfc1fffe0 "nint.sd" Format.intrr2op
    ∷ entry 0x58000000 0xfc000000 "or" Format.intrl
    ∷ entry 0x5c000000 0xfc000000 "or.u" Format.intrl
    ∷ entry 0xf4005800 0xfc00ffe0 "or" Format.intrr
    ∷ entry 0xf4005c00 0xfc00ffe0 "or.c" Format.intrr
    ∷ entry 0xf000a800 0xfc00ffe0 "rot" Format.rot
    ∷ entry 0xf400a800 0xfc00ffe0 "rot" Format.intrr
    ∷ entry 0xf400fc00 0xffffffff "rte" Format.rte
    ∷ entry 0xf0008800 0xfc00fc00 "set" Format.bitfield
    ∷ entry 0xf4008800 0xfc00ffe0 "set" Format.intrr
    ∷ []

-- Stores, subtraction, traps and `xor`.
unfoldable pub store_entries : Table
store_entries =
    entry 0x20000000 0xfc000000 "st.d" Format.stlit
    ∷ entry 0x24000000 0xfc000000 "st" Format.stlit
    ∷ entry 0x28000000 0xfc000000 "st.h" Format.stlit
    ∷ entry 0x2c000000 0xfc000000 "st.b" Format.stlit
    ∷ entry 0xf4002000 0xfc00ffe0 "st.d" Format.stro
    ∷ entry 0xf4002400 0xfc00ffe0 "st" Format.stro
    ∷ entry 0xf4002800 0xfc00ffe0 "st.h" Format.stro
    ∷ entry 0xf4002c00 0xfc00ffe0 "st.b" Format.stro
    ∷ entry 0xf4002200 0xfc00ffe0 "st.d" Format.stri
    ∷ entry 0xf4002600 0xfc00ffe0 "st" Format.stri
    ∷ entry 0xf4002a00 0xfc00ffe0 "st.h" Format.stri
    ∷ entry 0xf4002e00 0xfc00ffe0 "st.b" Format.stri
    ∷ entry 0xf4002100 0xfc00ffe0 "st.d.usr" Format.stro
    ∷ entry 0xf4002500 0xfc00ffe0 "st.usr" Format.stro
    ∷ entry 0xf4002900 0xfc00ffe0 "st.h.usr" Format.stro
    ∷ entry 0xf4002d00 0xfc00ffe0 "st.b.usr" Format.stro
    ∷ entry 0xf4002300 0xfc00ffe0 "st.d.usr" Format.stri
    ∷ entry 0xf4002700 0xfc00ffe0 "st.usr" Format.stri
    ∷ entry 0xf4002b00 0xfc00ffe0 "st.h.usr" Format.stri
    ∷ entry 0xf4002f00 0xfc00ffe0 "st.b.usr" Format.stri
    ∷ entry 0x80008000 0xffe0f800 "stcr" Format.stcr
    ∷ entry 0x74000000 0xfc000000 "sub" Format.intrl
    ∷ entry 0xf4007400 0xfc00ffe0 "sub" Format.intrr
    ∷ entry 0xf4007500 0xfc00ffe0 "sub.bo" Format.intrr
    ∷ entry 0xf4007600 0xfc00ffe0 "sub.bi" Format.intrr
    ∷ entry 0xf4007700 0xfc00ffe0 "sub.bio" Format.intrr
    ∷ entry 0x64000000 0xfc000000 "subu" Format.intrl
    ∷ entry 0xf4006400 0xfc00ffe0 "subu" Format.intrr
    ∷ entry 0xf4006500 0xfc00ffe0 "subu.bo" Format.intrr
    ∷ entry 0xf4006600 0xfc00ffe0 "subu.bi" Format.intrr
    ∷ entry 0xf4006700 0xfc00ffe0 "subu.bio" Format.intrr
    ∷ entry 0xf000d000 0xfc00fe00 "tb0" Format.trap
    ∷ entry 0xf000d800 0xfc00fe00 "tb1" Format.trap
    ∷ entry 0xf8000000 0xffe00000 "tbnd" Format.tbnd
    ∷ entry 0xf400f800 0xffe0ffe0 "tbnd" Format.intrr_s1_s2
    ∷ entry 0xf000e800 0xfc00fe00 "tcnd" Format.tcnd
    ∷ entry 0x84005800 0xfc1fffe0 "trnc.ss" Format.intrr2op
    ∷ entry 0x84005880 0xfc1fffe0 "trnc.sd" Format.intrr2op
    ∷ entry 0x8000c000 0xfc00c000 "xcr" Format.xcr
    ∷ entry 0x50000000 0xfc000000 "xor" Format.intrl
    ∷ entry 0x54000000 0xfc000000 "xor.u" Format.intrl
    ∷ entry 0xf4005000 0xfc00ffe0 "xor" Format.intrr
    ∷ entry 0xf4005400 0xfc00ffe0 "xor.c" Format.intrr
    ∷ []

-- The entry with an empty mask that ends the table.
unfoldable pub end_entry : Table
end_entry = entry 0x00000000 0x00000000 "pseudo" Format.pseudo_format ∷ []
