-- ===== src/Link/Table/Words.antt =====
-- compress.h: the entries for words, 0 to 19, and for half words, 20 to 119.
use g.Base.{List, [], ◌∷◌}
use g.Link.Entry.{Compress, compress}

unfoldable pub upper_entries : List Compress
upper_entries =
    compress 0xf000d9ff 4
    ∷ compress 0x0 4
    ∷ compress 0x5da00100 4
    ∷ compress 0x5da00000 4
    ∷ compress 0x5da00008 4
    ∷ compress 0xf400c001 4
    ∷ compress 0xf4405819 4
    ∷ compress 0xc0000001 4
    ∷ compress 0xf5427d00 4
    ∷ compress 0x2d4d0209 4
    ∷ compress 0x5c400008 4
    ∷ compress 0xf4405818 4
    ∷ compress 0x80018241 4
    ∷ compress 0xc0000002 4
    ∷ compress 0xf5497d00 4
    ∷ compress 0xf4405817 4
    ∷ compress 0x58400000 4
    ∷ compress 0x5c600008 4
    ∷ compress 0xf7205802 4
    ∷ compress 0xd84a0003 4
    ∷ compress 0x0 2
    ∷ compress 0xc000 2
    ∷ compress 0x4 2
    ∷ compress 0x8 2
    ∷ compress 0x1 2
    ∷ compress 0xcbff 2
    ∷ compress 0xc 2
    ∷ compress 0x7d00 2
    ∷ compress 0xd86a 2
    ∷ compress 0x2 2
    ∷ compress 0x10 2
    ∷ compress 0xc800 2
    ∷ compress 0xd84a 2
    ∷ compress 0x14 2
    ∷ compress 0x5940 2
    ∷ compress 0x3 2
    ∷ compress 0x5 2
    ∷ compress 0x18 2
    ∷ compress 0x6 2
    ∷ compress 0xcbfe 2
    ∷ compress 0xf460 2
    ∷ compress 0x20 2
    ∷ compress 0x5842 2
    ∷ compress 0x5802 2
    ∷ compress 0x1c 2
    ∷ compress 0x24 2
    ∷ compress 0x67ff 2
    ∷ compress 0x5880 2
    ∷ compress 0x63ff 2
    ∷ compress 0x243f 2
    ∷ compress 0x143f 2
    ∷ compress 0x273f 2
    ∷ compress 0x173f 2
    ∷ compress 0xf440 2
    ∷ compress 0x7 2
    ∷ compress 0x5860 2
    ∷ compress 0xe 2
    ∷ compress 0x271f 2
    ∷ compress 0x171f 2
    ∷ compress 0x5816 2
    ∷ compress 0xf129 2
    ∷ compress 0xa 2
    ∷ compress 0x5818 2
    ∷ compress 0x152d 2
    ∷ compress 0x5817 2
    ∷ compress 0x28 2
    ∷ compress 0xf400 2
    ∷ compress 0xf 2
    ∷ compress 0x5863 2
    ∷ compress 0x5819 2
    ∷ compress 0x9 2
    ∷ compress 0xd88a 2
    ∷ compress 0xf548 2
    ∷ compress 0xf480 2
    ∷ compress 0x26ff 2
    ∷ compress 0x6059 2
    ∷ compress 0x9a00 2
    ∷ compress 0x16ff 2
    ∷ compress 0x5840 2
    ∷ compress 0xf700 2
    ∷ compress 0xd8aa 2
    ∷ compress 0x2c 2
    ∷ compress 0x150d 2
    ∷ compress 0xf547 2
    ∷ compress 0x9200 2
    ∷ compress 0x144d 2
    ∷ compress 0xb 2
    ∷ compress 0x5929 2
    ∷ compress 0x7d49 2
    ∷ compress 0x34 2
    ∷ compress 0x148d 2
    ∷ compress 0x38 2
    ∷ compress 0x5803 2
    ∷ compress 0x100 2
    ∷ compress 0x48 2
    ∷ compress 0x30 2
    ∷ compress 0x1539 2
    ∷ compress 0xf520 2
    ∷ compress 0xf544 2
    ∷ compress 0xf6e0 2
    ∷ compress 0x40 2
    ∷ compress 0xf546 2
    ∷ compress 0xf545 2
    ∷ compress 0x26df 2
    ∷ compress 0x16df 2
    ∷ compress 0x16 2
    ∷ compress 0xd 2
    ∷ compress 0x1459 2
    ∷ compress 0x214 2
    ∷ compress 0x5908 2
    ∷ compress 0x14cd 2
    ∷ compress 0xf4a0 2
    ∷ compress 0x5815 2
    ∷ compress 0x5d20 2
    ∷ compress 0xa00 2
    ∷ compress 0x6079 2
    ∷ compress 0x14ed 2
    ∷ compress 0xcc00 2
    ∷ compress 0xd8ea 2
    ∷ compress 0x7265 2
    ∷ []
