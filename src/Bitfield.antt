-- ===== src/Bitfield.antt =====
-- values.c: unpack_field_as_long and modify_field, for a target whose bit fields are counted from the
-- most significant bit (BITS_BIG_ENDIAN). A buffer is a function from its places to bytes; the order of
-- the bytes of a long is a parameter, and so is a shift by a negative count.
pub mod Places
pub mod Reread
mod Tests
use Prim.Native.Nat.{bit_and, bit_or}
use g.Base.{
  ℕ, ◌+◌, ◌-◌, ◌*◌, ◌/◌, ◌%◌, ◌^◌, Bool, true, false, Option, none, some, ◌==◌, ltb, if◌then◌else◌,
}
use g.Base.Words.{shift_left}

abbrev pub Buffer : Type 0
Buffer = ℕ → ℕ

-- `bcopy (addr, &val, sizeof val)`
abbrev pub load : Bool → Buffer → ℕ → ℕ
load big m a =
    if big
    then m a * 2 ^ 24 + m (a + 1) * 2 ^ 16 + m (a + 2) * 2 ^ 8 + m (a + 3)
    else m (a + 3) * 2 ^ 24 + m (a + 2) * 2 ^ 16 + m (a + 1) * 2 ^ 8 + m a

-- The byte of a word at an offset.
abbrev pub long_byte : Bool → ℕ → ℕ → ℕ
long_byte big i w = if big then w / 2 ^ (8 * (3 - i)) % 2 ^ 8 else w / 2 ^ (8 * i) % 2 ^ 8

-- `bcopy (&oword, addr, sizeof oword)`
abbrev pub store : Bool → ℕ → Buffer → ℕ → Buffer
store big w m a x =
    if x == a
    then long_byte big 0 w
    else if x == a + 1
    then long_byte big 1 w
    else if x == a + 2
    then long_byte big 2 w
    else if x == a + 3
    then long_byte big 3 w
    else m x

-- `(1 << bitsize) - 1`
abbrev pub bits_mask : ℕ → ℕ
bits_mask bitsize = 2 ^ bitsize - 1

abbrev pub complement : ℕ → ℕ
complement w = 2 ^ 32 - 1 - w

-- `val >> k`, of a signed long.
abbrev pub shift_right : ℕ → ℕ → ℕ
shift_right w k =
    if w / 2 ^ 31 == 0 then w / 2 ^ k else bit_or (w / 2 ^ k) ((2 ^ k - 1) * 2 ^ (32 - k))

-- `oword` with the field, which is `bitpos` bits above the lowest.
abbrev pub put_field : ℕ → ℕ → ℕ → ℕ → ℕ
put_field oword fieldval bitpos bitsize =
    bit_or (bit_and oword (complement (shift_left (bits_mask bitsize) bitpos)))
      (shift_left fieldval bitpos)

module _ (big : Bool) (negative_shift : ℕ → ℕ) where
  unfoldable pub unpack_field_as_long : Buffer → ℕ → ℕ → ℕ
  unpack_field_as_long valaddr bitpos bitsize =
      let val = load big valaddr (bitpos / 8) in
      let shifted =
        if ltb 32 (bitpos % 8 + bitsize)
        then negative_shift val
        else shift_right val (32 - bitpos % 8 - bitsize) in
      bit_and shifted (bits_mask bitsize)

  -- `none` where the value is rejected.
  unfoldable pub modify_field : Buffer → ℕ → ℕ → ℕ → ℕ → Option Buffer
  modify_field m addr fieldval bitpos bitsize =
      let oword = load big m addr in
      let new =
        if ltb 32 (bitpos + bitsize)
        then negative_shift oword
        else put_field oword fieldval (32 - bitpos - bitsize) bitsize in
      if bit_and fieldval (complement (bits_mask bitsize)) == 0
      then some (store big new m addr)
      else none
