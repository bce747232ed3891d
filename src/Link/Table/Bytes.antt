-- ===== src/Link/Table/Bytes.antt =====
-- compress.h: the entries for bytes from 120 on, with the four between them that are avoided, and the end.
use g.Base.{List, [], ◌∷◌}
use g.Link.Entry.{Compress, compress}

unfoldable pub lower_entries : List Compress
lower_entries =
    compress 0x0 1
    ∷ compress 0x20 1
    ∷ compress 0x14 1
    ∷ compress 0xf5 1
    ∷ compress 0x58 1
    ∷ compress 0x2 1
    ∷ compress 0x60 1
    ∷ compress 0x64 1
    ∷ compress 0x24 1
    ∷ compress 0x0 129
    ∷ compress 0x0 130
    ∷ compress 0x0 131
    ∷ compress 0x0 132
    ∷ compress 0x8 1
    ∷ compress 0xff 1
    ∷ compress 0x9 1
    ∷ compress 0x18 1
    ∷ compress 0x7d 1
    ∷ compress 0x25 1
    ∷ compress 0x65 1
    ∷ compress 0x63 1
    ∷ compress 0x28 1
    ∷ compress 0x15 1
    ∷ compress 0x19 1
    ∷ compress 0xf4 1
    ∷ compress 0x80 1
    ∷ compress 0xf0 1
    ∷ compress 0x73 1
    ∷ compress 0x61 1
    ∷ compress 0x1 1
    ∷ compress 0x29 1
    ∷ compress 0x74 1
    ∷ compress 0x16 1
    ∷ compress 0xa0 1
    ∷ compress 0x40 1
    ∷ compress 0x69 1
    ∷ compress 0x4 1
    ∷ compress 0x72 1
    ∷ compress 0x6c 1
    ∷ compress 0x6d 1
    ∷ compress 0x2d 1
    ∷ compress 0x59 1
    ∷ compress 0x70 1
    ∷ compress 0x26 1
    ∷ compress 0xc0 1
    ∷ compress 0x78 1
    ∷ compress 0x17 1
    ∷ compress 0x6f 1
    ∷ compress 0x5f 1
    ∷ compress 0x6e 1
    ∷ compress 0x49 1
    ∷ compress 0xa 1
    ∷ compress 0x2c 1
    ∷ compress 0x79 1
    ∷ compress 0x3 1
    ∷ compress 0xc 1
    ∷ compress 0x5c 1
    ∷ compress 0xd8 1
    ∷ compress 0xd0 1
    ∷ compress 0x39 1
    ∷ compress 0x1c 1
    ∷ compress 0xf1 1
    ∷ compress 0xd9 1
    ∷ compress 0xf6 1
    ∷ compress 0x42 1
    ∷ compress 0x98 1
    ∷ compress 0xd 1
    ∷ compress 0x7 1
    ∷ compress 0x90 1
    ∷ compress 0x84 1
    ∷ compress 0x62 1
    ∷ compress 0x5 1
    ∷ compress 0x43 1
    ∷ compress 0x75 1
    ∷ compress 0x6 1
    ∷ compress 0x3e 1
    ∷ compress 0x99 1
    ∷ compress 0xf7 1
    ∷ compress 0x38 1
    ∷ compress 0xf9 1
    ∷ compress 0x67 1
    ∷ compress 0xe7 1
    ∷ compress 0x48 1
    ∷ compress 0x7f 1
    ∷ compress 0xe8 1
    ∷ compress 0x44 1
    ∷ compress 0x1f 1
    ∷ compress 0xe0 1
    ∷ compress 0xc6 1
    ∷ compress 0xa5 1
    ∷ compress 0x66 1
    ∷ compress 0x22 1
    ∷ compress 0xbf 1
    ∷ compress 0xf8 1
    ∷ compress 0x2e 1
    ∷ compress 0x27 1
    ∷ compress 0xad 1
    ∷ compress 0xb9 1
    ∷ compress 0x57 1
    ∷ compress 0x41 1
    ∷ compress 0x3d 1
    ∷ compress 0x4a 1
    ∷ compress 0x5d 1
    ∷ compress 0x4d 1
    ∷ compress 0x68 1
    ∷ compress 0x5b 1
    ∷ compress 0x9f 1
    ∷ compress 0x2a 1
    ∷ compress 0x56 1
    ∷ compress 0x21 1
    ∷ compress 0x36 1
    ∷ compress 0xc4 1
    ∷ compress 0x30 1
    ∷ compress 0x3a 1
    ∷ compress 0xc8 1
    ∷ compress 0x5a 1
    ∷ compress 0x4c 1
    ∷ compress 0x88 1
    ∷ compress 0x55 1
    ∷ compress 0x1a 1
    ∷ compress 0x50 1
    ∷ compress 0x13 1
    ∷ compress 0x54 1
    ∷ compress 0x76 1
    ∷ compress 0x1d 1
    ∷ compress 0x3f 1
    ∷ compress 0x45 1
    ∷ compress 0xb8 1
    ∷ compress 0x77 1
    ∷ compress 0xca 1
    ∷ compress 0x6b 1
    ∷ compress 0x12 1
    ∷ compress 0x3c 1
    ∷ compress 0xa4 1
    ∷ compress 0x10 1
    ∷ compress 0xed 1
    ∷ compress 0x0 0
    ∷ []
