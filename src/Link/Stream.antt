-- ===== src/Link/Stream.antt =====
-- remote.c and hmon/mon.c: what a side that receives makes of a code, of a quoted byte and of the
-- bytes that are left of a code.
use g.Base.{
  ℕ, suc, ◌+◌, ◌/◌, ◌%◌, ◌^◌, ◌<◌, ◌≡◌, ◌≢◌, ◌∙◌, refl, ap, Bool, false, List, ◌∷◌, ◌==◌, ltb,
  if◌then◌else◌, arith,
}
use g.Base.Words.{shift_left}
use g.Link.Codes.{IsCode, IsCode-not_start, IsCode-not_stop}
use g.Link.Entry.{compress}
use g.Link.Table.{compress_table}
use g.Link.{
  add_to_checksum, In, Reply, next, entry, decode, is_flow, host_entry, monitor_entry,
  host_get_byte, monitor_get_byte,
}

-- The two sides.
pub data Side : Type 0 where
  host monitor : Side

abbrev pub get_byte_of : Side → In → Reply ℕ
get_byte_of host = host_get_byte
get_byte_of monitor = monitor_get_byte

-- The side that receives, with `left` bytes in `partial`.
abbrev pub hears : List ℕ → ℕ → ℕ → ℕ → Bool → In
hears line partial left sum summing = record {
  input = line;
  partial = partial;
  partial_length = left;
  checksum = sum;
  checksumming = summing;
}

abbrev pub summed : Bool → ℕ → ℕ → ℕ
summed summing c sum = if summing then add_to_checksum c sum else sum

entry-IsCode : (len pattern k : ℕ) → IsCode len pattern k → entry k ≡ compress pattern len
entry-IsCode len pattern k c = λ i. record { pattern = c.pattern_is i; length = c.length_is i }

monitor_gate :
    (k : ℕ) (a : Reply ℕ) (s : In) (f : ℕ → In → Reply ℕ)
    → k ≢ 0x81
    → k ≢ 0x82
    → next (if is_flow k then a else Reply.received k s) f ≡ f k s
monitor_gate k a s f h h' =
    let no_flow : is_flow k ≡ false = ground (arith, h, h') in
    ap (λ x. next (if x then a else Reply.received k s) f) no_flow

not_abort : (k : ℕ) (a b : Reply ℕ) → k ≢ 0x81 → (if k == 0x81 then a else b) ≡ b
not_abort k a b h = ground (arith, h)

not_quoted :
    (len : ℕ) (a b c : Reply ℕ)
    → len < 0x81
    → (if len == 0x83 then a else if len == 0x84 then b else c) ≡ c
not_quoted len a b c h = ground (arith, h)

not_flow : (b : ℕ) (a x : Reply ℕ) → b < 0x80 → (if is_flow b then a else x) ≡ x
not_flow b a x h = ground (arith, h)

accepted : (b : ℕ) (x : Reply ℕ) → b < 0x80 → (if ltb 0x7f b then Reply.rejects else x) ≡ x
accepted b x h = ground (arith, h)

-- Taking the code of an entry from the line, on either side.
pub get_byte-IsCode :
    (side : Side) (len pattern k : ℕ) (line : List ℕ) (partial sum : ℕ) (summing : Bool)
    → IsCode len pattern k
    → len < 0x81
    → get_byte_of side (hears (k ∷ line) partial 0 sum summing)
      ≡ decode (compress pattern len) (hears line partial 0 (summed summing k sum) summing)
unfolding host_get_byte monitor_get_byte
get_byte-IsCode host len pattern k line partial sum summing c h =
    let s = hears line partial 0 (summed summing k sum) summing in
    ap (λ ct. host_entry ct s) (entry-IsCode len pattern k c) ∙ not_quoted len _ _ _ h
get_byte-IsCode monitor len pattern k line partial sum summing c h =
    let s = hears line partial 0 (summed summing k sum) summing in
    let start = IsCode-not_start len pattern k c h in
    monitor_gate k _ s _ start (IsCode-not_stop len pattern k c h)
    ∙ not_abort k _ _ start
    ∙ ap (λ ct. monitor_entry ct s) (entry-IsCode len pattern k c)
    ∙ not_quoted len _ _ _ h

pub get_byte_left :
    (side : Side) (left partial sum : ℕ) (line : List ℕ) (summing : Bool)
    → get_byte_of side (hears line partial (suc left) sum summing)
      ≡ Reply.received
          (partial / 2 ^ 24 % 2 ^ 8)
          (hears line (shift_left partial 8) left sum summing)
unfolding host_get_byte monitor_get_byte
get_byte_left host left partial sum line summing = refl
get_byte_left monitor left partial sum line summing = refl

-- A byte under a prefix.
pub get_byte_low :
    (side : Side) (b : ℕ) (line : List ℕ) (partial sum : ℕ) (summing : Bool)
    → b < 0x80
    → get_byte_of side (hears (0x83 ∷ b ∷ line) partial 0 sum summing)
      ≡ Reply.received b (hears line partial 0 (summed summing b (summed summing 0x83 sum)) summing)
unfolding host_get_byte monitor_get_byte compress_table
get_byte_low host b line partial sum summing h = accepted b _ h
get_byte_low monitor b line partial sum summing h = not_flow b _ _ h

pub get_byte_high :
    (side : Side) (b : ℕ) (line : List ℕ) (partial sum : ℕ) (summing : Bool)
    → b < 0x80
    → get_byte_of side (hears (0x84 ∷ b ∷ line) partial 0 sum summing)
      ≡ Reply.received
          (b + 0x80)
          (hears line partial 0 (summed summing b (summed summing 0x84 sum)) summing)
unfolding host_get_byte monitor_get_byte compress_table
get_byte_high host b line partial sum summing h = accepted b _ h
get_byte_high monitor b line partial sum summing h =
    let fits : (b + 0x80) % 2 ^ 8 ≡ b + 0x80 = omega arith in
    let s = hears line partial 0 (summed summing b (summed summing 0x84 sum)) summing in
    let f = λ (q : ℕ) (r : In). Reply.received ((q + 0x80) % 2 ^ 8) r in
    ap (λ r. next r f) (not_flow b _ (Reply.received b s) h) ∙ ap (λ x. Reply.received x s) fits
