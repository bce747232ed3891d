-- ===== src/Link.antt =====
-- remote.c, remote.h and hmon/mon.c: the compressed bytes that the debugger and the monitor send to
-- each other, and the checksum over them. A line is the characters that are sent, in their order;
-- the buffers and the waiting are left out, and so is the trace.
pub mod Entry
pub mod Table
pub mod Codes
pub mod Stream
pub mod Yields
pub mod Values
pub mod Roundtrip
mod Tests
use Prim.Native.Nat.{bit_or}
use g.Base.{
  ℕ, zero, suc, ◌+◌, ◌-◌, ◌*◌, ◌/◌, ◌%◌, ◌^◌, Bool, true, false, Option, none, some, List, [], ◌∷◌,
  ◌++◌, ◌==◌, ltb, ◌||◌, ◌&&◌, if◌then◌else◌, drop, get_or,
}
use g.Base.Words.{u32, shift_left}
use g.Link.Entry.{Compress, compress}
use g.Link.Table.{compress_table}

-- add_to_checksum
abbrev pub add_to_checksum : ℕ → ℕ → ℕ
add_to_checksum b checksum =
    let sum = u32 (checksum + b) in bit_or (shift_left sum 1) (sum / 2 ^ 31)

-- The side that sends.
pub record Out : Type 0 where
  pub sent : List ℕ
  pub checksum : ℕ
  pub checksumming : Bool

abbrev pub put_remote_char : ℕ → Out → Out
put_remote_char c o = record o {
  sent = o.sent ++ c ∷ [];
  checksum = if o.checksumming then add_to_checksum c o.checksum else o.checksum;
}

unfoldable pub put_all : List ℕ → Out → Out
put_all [] o = o
put_all (c ∷ cs) o = put_all cs (put_remote_char c o)

-- The loops of send_word, send_short and send_byte, from an entry and its index on.
unfoldable pub word_code : ℕ → List Compress → ℕ → Option ℕ
word_code w [] i = none
word_code w (ct ∷ cts) i =
    let rest = word_code w cts (i + 1) in
    if ct.length == 4 || ct.length == 0
    then if ct.pattern == w && ct.length == 4 then some i else rest
    else none

unfoldable pub short_code : ℕ → List Compress → ℕ → Option ℕ
short_code s [] i = none
short_code s (ct ∷ cts) i =
    let rest = short_code s cts (i + 1) in
    if ct.length == 2 || ct.length == 0
    then if ct.pattern == s && ct.length == 2 then some i else rest
    else none

unfoldable pub byte_code : ℕ → List Compress → ℕ → Option ℕ
byte_code b [] i = none
byte_code b (ct ∷ cts) i =
    let rest = byte_code b cts (i + 1) in
    if ltb i 256 then if ct.pattern == b && ct.length == 1 then some i else rest else none

-- The code that a loop found, or what is sent in the place of one.
abbrev pub coded : Option ℕ → List ℕ → List ℕ
coded (some i) uncoded = i % 256 ∷ []
coded none uncoded = uncoded

-- What send_byte, send_short and send_word put on the line; COMMAND_PREFIX1 is 0x83 and
-- COMMAND_PREFIX2 is 0x84.
unfoldable pub byte_chars : ℕ → List ℕ
byte_chars b =
    coded (byte_code b (drop 120 compress_table) 120)
      ((if b / 2 ^ 7 % 2 == 1 then 0x84 else 0x83) ∷ b % 2 ^ 7 ∷ [])

unfoldable pub short_chars : ℕ → List ℕ
short_chars s =
    coded (short_code s (drop 20 compress_table) 20)
      (byte_chars (s / 2 ^ 8 % 2 ^ 8) ++ byte_chars (s % 2 ^ 8))

unfoldable pub word_chars : ℕ → List ℕ
word_chars w =
    coded (word_code w compress_table 0)
      (short_chars (w / 2 ^ 16 % 2 ^ 16) ++ short_chars (w % 2 ^ 16))

abbrev pub send_byte : ℕ → Out → Out
send_byte b o = put_all (byte_chars b) o

abbrev pub send_short : ℕ → Out → Out
send_short s o = put_all (short_chars s) o

abbrev pub send_word : ℕ → Out → Out
send_word w o = put_all (word_chars w) o

-- init_checksum and send_checksum.
abbrev pub start_sum : Out → Out
start_sum o = record o { checksum = 0; checksumming = true }

abbrev pub send_checksum : Out → Out
send_checksum o = send_word o.checksum (record o { checksumming = false })

-- The side that receives: the characters that are on the line, and `partial`.
pub record In : Type 0 where
  pub input : List ℕ
  pub partial : ℕ
  pub partial_length : ℕ
  pub checksum : ℕ
  pub checksumming : Bool

-- What a call for a byte comes to: it returns, it waits for the other side, or it ends in an error.
pub data Reply (A : Type 0) : Type 0 where
  received : A → In → Reply A
  waits rejects : Reply A

abbrev pub next : {A B : Type 0} → Reply A → (A → In → Reply B) → Reply B
next (Reply.received a s) f = f a s
next Reply.waits f = Reply.waits
next Reply.rejects f = Reply.rejects

-- The state once a character is taken from the line.
abbrev pub heard : ℕ → List ℕ → In → In
heard c rest s = record s {
  input = rest;
  checksum = if s.checksumming then add_to_checksum c s.checksum else s.checksum;
}

abbrev pub take_char : List ℕ → In → Reply ℕ
take_char [] s = Reply.waits
take_char (c ∷ rest) s = Reply.received c (heard c rest s)

abbrev pub get_remote_char : In → Reply ℕ
get_remote_char s = take_char s.input s

-- `compress_table[c]`
abbrev pub entry : ℕ → Compress
entry c = get_or compress_table c (compress 0 0)

-- A byte of `partial`.
abbrev pub from_partial : ℕ → In → Reply ℕ
from_partial left s =
    Reply.received (s.partial / 2 ^ 24 % 2 ^ 8)
      (record s { partial = shift_left s.partial 8; partial_length = left })

-- The cases of the length of the entry that both sides share.
abbrev pub decode : Compress → In → Reply ℕ
decode ct s =
    if ct.length == 1
    then Reply.received ct.pattern s
    else if ct.length == 2
    then Reply.received (ct.pattern / 2 ^ 8 % 2 ^ 8)
        (record s { partial_length = 1; partial = shift_left ct.pattern 24 })
    else if ct.length == 4
    then Reply.received (ct.pattern / 2 ^ 24 % 2 ^ 8)
        (record s { partial_length = 3; partial = shift_left ct.pattern 8 })
    else Reply.rejects

-- get_byte of the debugger; what the target reports in the place of a byte is an error, as it is while
-- the target is not running.
abbrev pub host_entry : Compress → In → Reply ℕ
host_entry ct s =
    let quoted = get_remote_char s in
    if ct.length == 0x83
    then next quoted (λ q s'. if ltb 0x7f q then Reply.rejects else Reply.received q s')
    else if ct.length == 0x84
    then next quoted (λ q s'. if ltb 0x7f q then Reply.rejects else Reply.received (q + 0x80) s')
    else decode ct s

abbrev pub host_at : ℕ → In → Reply ℕ
host_at zero s = next (get_remote_char s) (λ c s'. host_entry (entry c) s')
host_at (suc left) s = from_partial left s

unfoldable pub host_get_byte : In → Reply ℕ
host_get_byte s = host_at s.partial_length s

-- get_remote_char of the monitor, which passes over VSTART and VSTOP, and waits for another character.
abbrev pub is_flow : ℕ → Bool
is_flow c = c == 0x81 || c == 0x82

abbrev pub monitor_take : List ℕ → In → Reply ℕ
monitor_take [] s = Reply.waits
monitor_take (c ∷ rest) s =
    let later = monitor_take rest s in
    if is_flow c then later else Reply.received c (heard c rest s)

abbrev pub monitor_remote_char : In → Reply ℕ
monitor_remote_char s = monitor_take s.input s

-- get_byte of the monitor, whose bytes are `unsigned char`; ABORT is 0x81.
abbrev pub monitor_entry : Compress → In → Reply ℕ
monitor_entry ct s =
    let quoted = monitor_remote_char s in
    if ct.length == 0x83
    then quoted
    else if ct.length == 0x84
    then next quoted (λ q s'. Reply.received ((q + 0x80) % 2 ^ 8) s')
    else decode ct s

abbrev pub monitor_at : ℕ → In → Reply ℕ
monitor_at zero s =
    next (monitor_remote_char s)
      (λ c s'. if c == 0x81 then Reply.received 0x81 s' else monitor_entry (entry c) s')
monitor_at (suc left) s = from_partial left s

unfoldable pub monitor_get_byte : In → Reply ℕ
monitor_get_byte s = monitor_at s.partial_length s

-- get_word and get_short, over the get_byte of a side.
module _ (get_byte : In → Reply ℕ) where
  -- The loop of get_word.
  unfoldable pub get_bytes : ℕ → ℕ → In → Reply ℕ
  get_bytes zero t s = Reply.received t s
  get_bytes (suc left) t s =
      next (get_byte s) (λ b s'. get_bytes left (bit_or (shift_left t 8) b) s')

  abbrev pub get_word : In → Reply ℕ
  get_word s = get_bytes 4 0 s

  abbrev pub get_short : In → Reply ℕ
  get_short s =
      next (get_byte s)
        (λ w s1. next (get_byte s1) (λ b s2. Reply.received (bit_or (shift_left w 8) b) s2))

  -- `true` where the checksums agree, and an error where they do not.
  unfoldable pub verify_checksum : In → Reply Bool
  verify_checksum s =
      next (get_word (record s { checksumming = false }))
        (λ sum s'. if s.checksum == sum then Reply.received true s' else Reply.rejects)
