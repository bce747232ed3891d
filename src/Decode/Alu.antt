-- ===== src/Decode/Alu.antt =====
-- decode.c: the arithmetic and the floating point of in_tab.
use g.Base.{[], ◌∷◌}
use g.Decode.Entry.{Format, Table, entry}

-- Additions and `and`, which stand first.
unfoldable pub add_entries : Table
add_entries =
    entry 0x70000000 0xfc000000 "add" Format.intrl
    ∷ entry 0xf4007000 0xfc00ffe0 "add" Format.intrr
    ∷ entry 0xf4007100 0xfc00ffe0 "add.co" Format.intrr
    ∷ entry 0xf4007200 0xfc00ffe0 "add.ci" Format.intrr
    ∷ entry 0xf4007300 0xfc00ffe0 "add.cio" Format.intrr
    ∷ entry 0x60000000 0xfc000000 "addu" Format.intrl
    ∷ entry 0xf4006000 0xfc00ffe0 "addu" Format.intrr
    ∷ entry 0xf4006100 0xfc00ffe0 "addu.co" Format.intrr
    ∷ entry 0xf4006200 0xfc00ffe0 "addu.ci" Format.intrr
    ∷ entry 0xf4006300 0xfc00ffe0 "addu.cio" Format.intrr
    ∷ entry 0x40000000 0xfc000000 "and" Format.intrl
    ∷ entry 0x44000000 0xfc000000 "and.u" Format.intrl
    ∷ entry 0xf4004000 0xfc00ffe0 "and" Format.intrr
    ∷ entry 0xf4004400 0xfc00ffe0 "and.c" Format.intrr
    ∷ []

-- Calls, bit fields, comparison and division.
unfoldable pub bsr_entries : Table
bsr_entries =
    entry 0xc8000000 0xfc000000 "bsr" Format.iprel
    ∷ entry 0xcc000000 0xfc000000 "bsr.n" Format.iprel
    ∷ entry 0xf0008000 0xfc00fc00 "clr" Format.bitfield
    ∷ entry 0xf4008000 0xfc00ffe0 "clr" Format.intrr
    ∷ entry 0x7c000000 0xfc000000 "cmp" Format.intrl
    ∷ entry 0xf4007c00 0xfc00fee0 "cmp" Format.intrr
    ∷ entry 0x78000000 0xfc000000 "div" Format.intrl
    ∷ entry 0xf4007800 0xfc00fee0 "div" Format.intrr
    ∷ entry 0x68000000 0xfc000000 "divu" Format.intrl
    ∷ entry 0xf4006800 0xfc00fee0 "divu" Format.intrr
    ∷ entry 0xf0009000 0xfc00fc00 "ext" Format.bitfield
    ∷ entry 0xf4009000 0xfc00ffe0 "ext" Format.intrr
    ∷ entry 0xf0009800 0xfc00fc00 "extu" Format.bitfield
    ∷ entry 0xf4009800 0xfc00ffe0 "extu" Format.intrr
    ∷ []

-- The floating point unit, find-first and jumps.
unfoldable pub float_entries : Table
float_entries =
    entry 0x84002800 0xfc00ffe0 "fadd.sss" Format.intrr
    ∷ entry 0x84002880 0xfc00ffe0 "fadd.ssd" Format.intrr
    ∷ entry 0x84002a00 0xfc00ffe0 "fadd.sds" Format.intrr
    ∷ entry 0x84002a80 0xfc00ffe0 "fadd.sdd" Format.intrr
    ∷ entry 0x84002820 0xfc00ffe0 "fadd.dss" Format.intrr
    ∷ entry 0x840028a0 0xfc00ffe0 "fadd.dsd" Format.intrr
    ∷ entry 0x84002a20 0xfc00ffe0 "fadd.dds" Format.intrr
    ∷ entry 0x84002aa0 0xfc00ffe0 "fadd.ddd" Format.intrr
    ∷ entry 0x84003800 0xfc00ffe0 "fcmp.sss" Format.intrr
    ∷ entry 0x84003880 0xfc00ffe0 "fcmp.ssd" Format.intrr
    ∷ entry 0x84003a00 0xfc00ffe0 "fcmp.sds" Format.intrr
    ∷ entry 0x84003a80 0xfc00ffe0 "fcmp.sdd" Format.intrr
    ∷ entry 0x84007000 0xfc00ffe0 "fdiv.sss" Format.intrr
    ∷ entry 0x84007080 0xfc00ffe0 "fdiv.ssd" Format.intrr
    ∷ entry 0x84007200 0xfc00ffe0 "fdiv.sds" Format.intrr
    ∷ entry 0x84007280 0xfc00ffe0 "fdiv.sdd" Format.intrr
    ∷ entry 0x84007020 0xfc00ffe0 "fdiv.dss" Format.intrr
    ∷ entry 0x840070a0 0xfc00ffe0 "fdiv.dsd" Format.intrr
    ∷ entry 0x84007220 0xfc00ffe0 "fdiv.dds" Format.intrr
    ∷ entry 0x840072a0 0xfc00ffe0 "fdiv.ddd" Format.intrr
    ∷ entry 0xf400ec00 0xfc1fffe0 "ff0" Format.intrr2op
    ∷ entry 0xf400e800 0xfc1fffe0 "ff1" Format.intrr2op
    ∷ entry 0x80004800 0xfc1ff81f "fldcr" Format.fldcr
    ∷ entry 0x84002000 0xfc1fffe0 "flt.ss" Format.intrr2op
    ∷ entry 0x84002020 0xfc1fffe0 "flt.ds" Format.intrr2op
    ∷ entry 0x84000000 0xfc00ffe0 "fmul.sss" Format.intrr
    ∷ entry 0x84000080 0xfc00ffe0 "fmul.ssd" Format.intrr
    ∷ entry 0x84000200 0xfc00ffe0 "fmul.sds" Format.intrr
    ∷ entry 0x84000280 0xfc00ffe0 "fmul.sdd" Format.intrr
    ∷ entry 0x84000020 0xfc00ffe0 "fmul.dss" Format.intrr
    ∷ entry 0x840000a0 0xfc00ffe0 "fmul.dsd" Format.intrr
    ∷ entry 0x84000220 0xfc00ffe0 "fmul.dds" Format.intrr
    ∷ entry 0x840002a0 0xfc00ffe0 "fmul.ddd" Format.intrr
    ∷ entry 0x80008800 0xffe0f800 "fstcr" Format.fstcr
    ∷ entry 0x84003000 0xfc00ffe0 "fsub.sss" Format.intrr
    ∷ entry 0x84003080 0xfc00ffe0 "fsub.ssd" Format.intrr
    ∷ entry 0x84003200 0xfc00ffe0 "fsub.sds" Format.intrr
    ∷ entry 0x84003280 0xfc00ffe0 "fsub.sdd" Format.intrr
    ∷ entry 0x84003020 0xfc00ffe0 "fsub.dss" Format.intrr
    ∷ entry 0x840030a0 0xfc00ffe0 "fsub.dsd" Format.intrr
    ∷ entry 0x84003220 0xfc00ffe0 "fsub.dds" Format.intrr
    ∷ entry 0x840032a0 0xfc00ffe0 "fsub.ddd" Format.intrr
    ∷ entry 0x8000c800 0xfc00f800 "fxcr" Format.fxcr
    ∷ entry 0x84004800 0xfc1fffe0 "int.ss" Format.intrr2op
    ∷ entry 0x84004880 0xfc1fffe0 "int.sd" Format.intrr2op
    ∷ entry 0xf400c000 0xffffffe0 "jmp" Format.jmp
    ∷ entry 0xf400c400 0xffffffe0 "jmp.n" Format.jmp
    ∷ entry 0xf400c800 0xffffffe0 "jsr" Format.jmp
    ∷ entry 0xf400cc00 0xffffffe0 "jsr.n" Format.jmp
    ∷ []
