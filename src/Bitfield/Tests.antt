-- ===== src/Bitfield/Tests.antt =====
-- values.c: a field of three bits, and one that passes the end of a long.
use g.Base.{◌≡◌, refl, true, some, ltb, leb, ◌&&◌, arith, if◌then◌else◌}
use g.Base.Digits.{test}
use g.Bitfield.Reread.{modify_field-unpack_field_as_long}
use g.Bitfield.{Buffer, load, store, modify_field, unpack_field_as_long}

abbrev ones : Buffer
ones x = 0xff

abbrev changed : Buffer
changed = store true 0x5fffffff ones 1

set_to_two : modify_field true (λ w. 0) ones 1 2 0 3 ≡ some changed
unfolding modify_field
set_to_two = refl

modify_field-unpack_field_as_long_example :
    (unpack_field_as_long true (λ w. 0) changed 8 3 ≡ 2)
    × (test 29 (load true changed 1)
        ≡ (if leb 29 29 && ltb 29 32 then test 0 2 else test 29 (load true ones 1)))
modify_field-unpack_field_as_long_example =
    modify_field-unpack_field_as_long true (λ w. 0) ones changed 8 3 2 29 (omega arith)
      (omega arith) (omega arith) (omega arith) set_to_two
