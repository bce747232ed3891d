-- ===== src/Link/Roundtrip.antt =====
-- remote.c and hmon/mon.c: a message of words, shorts and bytes with its checksum, sent by one side
-- and received by the other.
use mathlib.Core.List.{append_assoc, append-nil}
use Prim.Native.Nat.{bit_or}
use g.Base.{
  ℕ, ◌+◌, ◌*◌, ◌/◌, ◌%◌, ◌^◌, ◌<◌, ◌≡◌, ◌∙◌, refl, sym, ap, subst, Bool, true, false, List, [], ◌∷◌,
  ◌++◌, ◌==◌, if◌then◌else◌, arith,
}
use g.Base.Bits.{or-shifted}
use g.Base.Words.{u32, shift_left}
use g.Link.Stream.{Side, get_byte_of, hears}
use g.Link.Yields.{sum_of, sum_of-append}
use g.Link.Values.{
  Width, whole, half, single, Item, bits, send_wide, get_wide, wide_chars, get_wide-chars,
}
use g.Link.{
  add_to_checksum, Out, In, Reply, next, word_chars, verify_checksum, put_remote_char, put_all,
  start_sum, send_checksum,
}

-- Sending and receiving a message; the other side knows the widths of its values.
unfoldable pub send_items : List Item → Out → Out
send_items [] o = o
send_items (i ∷ is) o = send_items is (send_wide i.width i.value o)

unfoldable pub get_items : Side → List Width → In → Reply (List ℕ)
get_items side [] s = Reply.received [] s
get_items side (width ∷ widths) s =
    next (get_wide side width s)
      (λ v s1. next (get_items side widths s1) (λ vs s2. Reply.received (v ∷ vs) s2))

unfoldable pub widths_of : List Item → List Width
widths_of [] = []
widths_of (i ∷ is) = i.width ∷ widths_of is

unfoldable pub values_of : List Item → List ℕ
values_of [] = []
values_of (i ∷ is) = i.value ∷ values_of is

unfoldable chars_of : List Item → List ℕ
chars_of [] = []
chars_of (i ∷ is) = wide_chars i.width i.value ++ chars_of is

-- Every value fits in its width.
pub data Fit : List Item → Type 0 where
  none_left : Fit []
  fits : (i : Item) (is : List Item) → i.value < 2 ^ bits i.width → Fit is → Fit (i ∷ is)

-- The message and its checksum, checked.
abbrev pub get_message : Side → List Width → In → Reply (List ℕ)
get_message side widths s =
    next (get_items side widths s)
      (λ vs s1. next (verify_checksum (get_byte_of side) s1) (λ ok s2. Reply.received vs s2))

-- The state of the side that sends, after the characters.
abbrev sends : List ℕ → Out → Out
sends cs o = record {
  sent = o.sent ++ cs;
  checksum = sum_of o.checksumming cs o.checksum;
  checksumming = o.checksumming;
}

put_all-sends : (cs : List ℕ) (o : Out) → put_all cs o ≡ sends cs o
unfolding put_all sum_of
put_all-sends [] o = ap (λ x. record o { sent = x }) (sym (append-nil o.sent))
put_all-sends (c ∷ cs) o =
    put_all-sends cs (put_remote_char c o)
    ∙ ap (λ x. record (sends (c ∷ cs) o) { sent = x }) (append_assoc o.sent (c ∷ []) cs)

put_all-append : (cs ds : List ℕ) (o : Out) → put_all (cs ++ ds) o ≡ put_all ds (put_all cs o)
unfolding put_all
put_all-append [] ds o = refl
put_all-append (c ∷ cs) ds o = put_all-append cs ds (put_remote_char c o)

send_wide-chars :
    (width : Width) (v : ℕ) (o : Out) → send_wide width v o ≡ put_all (wide_chars width v) o
send_wide-chars whole v o = refl
send_wide-chars half v o = refl
send_wide-chars single v o = refl

send_items-chars : (is : List Item) (o : Out) → send_items is o ≡ put_all (chars_of is) o
unfolding send_items chars_of put_all
send_items-chars [] o = refl
send_items-chars (i ∷ is) o =
    ap (send_items is) (send_wide-chars i.width i.value o)
    ∙ send_items-chars is (put_all (wide_chars i.width i.value) o)
    ∙ sym (put_all-append (wide_chars i.width i.value) (chars_of is) o)

-- The checksum is a word.
add_to_checksum-below : (c sum : ℕ) → add_to_checksum c sum < 2 ^ 32
add_to_checksum-below c sum =
    let s = u32 (sum + c) in
    let even : shift_left s 1 ≡ s % 2 ^ 31 * 2 ^ 1 = omega arith in
    let or : add_to_checksum c sum ≡ s % 2 ^ 31 * 2 ^ 1 + s / 2 ^ 31 =
      ap (λ x. bit_or x (s / 2 ^ 31)) even ∙ or-shifted 1 (s % 2 ^ 31) (s / 2 ^ 31) (omega arith) in
    subst (λ x. x < 2 ^ 32) (sym or) (omega arith)

sum_of-below : (cs : List ℕ) (sum : ℕ) → sum < 2 ^ 32 → sum_of true cs sum < 2 ^ 32
unfolding sum_of
sum_of-below [] sum h = h
sum_of-below (c ∷ cs) sum h = sum_of-below cs (add_to_checksum c sum) (add_to_checksum-below c sum)

get_items-chars :
    (side : Side) (is : List Item) (line : List ℕ) (partial sum : ℕ) (summing : Bool)
    → Fit is
    → (partial' : ℕ) × (get_items side
          (widths_of is)
          (hears (chars_of is ++ line) partial 0 sum summing)
        ≡ Reply.received
            (values_of is)
            (hears line partial' 0 (sum_of summing (chars_of is) sum) summing))
unfolding get_items widths_of values_of chars_of sum_of
get_items-chars side _ line partial sum summing none_left = (partial, refl)
get_items-chars side _ line partial sum summing (fits i is h f) =
    let (p, e) = get_wide-chars side i.width i.value (chars_of is ++ line) partial sum summing h in
    let (q, e') =
      get_items-chars side is line p (sum_of summing (wide_chars i.width i.value) sum) summing f in
    let cs = wide_chars i.width i.value in
    let sum1 = sum_of summing cs sum in
    let later = λ (v : ℕ) (vs : List ℕ) (r : In). Reply.received (v ∷ vs) r in
    let rest = λ (v : ℕ) (r : In). next (get_items side (widths_of is) r) (later v) in
    let line_is = append_assoc cs (chars_of is) line in
    (
      q,
      ap (λ l. next (get_wide side i.width (hears l partial 0 sum summing)) rest) line_is
          ∙ ap (λ r. next r rest) e
          ∙ ap (λ r. next r (later i.value)) e'
          ∙ ap (λ x. Reply.received (i.value ∷ values_of is) (hears line q 0 x summing))
              (sym (sum_of-append summing cs (chars_of is) sum)),
    )

-- The message as it is on the line, with its checksum.
abbrev pub message : List Item → Out → Out
message is o = send_checksum (send_items is (start_sum o))

sum_of-false : (cs : List ℕ) (sum : ℕ) → sum_of false cs sum ≡ sum
unfolding sum_of
sum_of-false [] sum = refl
sum_of-false (c ∷ cs) sum = sum_of-false cs sum

message-sends :
    (is : List Item) (o : Out)
    → let sum = sum_of true (chars_of is) 0 in
      message is o ≡ record {
        sent = (o.sent ++ chars_of is) ++ word_chars sum;
        checksum = sum;
        checksumming = false;
      }
message-sends is o =
    let sum = sum_of true (chars_of is) 0 in
    let o1 : Out = record { sent = o.sent ++ chars_of is; checksum = sum; checksumming = false } in
    ap send_checksum (send_items-chars is (start_sum o) ∙ put_all-sends (chars_of is) (start_sum o))
    ∙ put_all-sends (word_chars sum) o1
    ∙ ap (λ x. record (sends (word_chars sum) o1) { checksum = x })
        (sum_of-false (word_chars sum) sum)

agrees :
    (sum : ℕ) (s : In)
    → (if sum == sum then Reply.received true s else Reply.rejects) ≡ Reply.received true s
agrees sum s = ground (arith)

-- The checksum that follows is the one that the other side has.
verify_checksum-sent :
    (side : Side) (line : List ℕ) (partial sum : ℕ)
    → sum < 2 ^ 32
    → (partial' : ℕ) × (verify_checksum
          (get_byte_of side)
          (hears (word_chars sum ++ line) partial 0 sum true)
        ≡ Reply.received true (hears line partial' 0 sum false))
unfolding verify_checksum
verify_checksum-sent side line partial sum h =
    let (q, e) = get_wide-chars side whole sum line partial sum false h in
    let check = λ (v : ℕ) (r : In). if sum == v then Reply.received true r else Reply.rejects in
    (
      q,
      ap (λ r. next r check) e
          ∙ agrees sum _
          ∙ ap (λ x. Reply.received true (hears line q 0 x false))
              (sum_of-false (word_chars sum) sum),
    )

message_line :
    (is : List Item) (o : Out) (line : List ℕ)
    → o.sent ≡ []
    → (message is o).sent ++ line
      ≡ chars_of is ++ (word_chars (sum_of true (chars_of is) 0) ++ line)
message_line is o line h =
    let check = word_chars (sum_of true (chars_of is) 0) in
    ap (λ (x : Out). x.sent ++ line) (message-sends is o)
    ∙ ap (λ x. ((x ++ chars_of is) ++ check) ++ line) h
    ∙ append_assoc (chars_of is) check line

-- The side that receives a message of values that fit, with the widths they were sent with, gets these
-- values and accepts the checksum; it is left with what follows on the line, between bytes, and with
-- the checksum of the side that sent. So does the debugger and so does the monitor.
pub get_message-message :
    (side : Side) (is : List Item) (o : Out) (line : List ℕ) (partial : ℕ)
    → o.sent ≡ []
    → Fit is
    → let o' = message is o in
      (partial' : ℕ) × (get_message side (widths_of is) (hears (o'.sent ++ line) partial 0 0 true)
        ≡ Reply.received (values_of is) (hears line partial' 0 o'.checksum false))
get_message-message side is o line partial h f =
    let sum = sum_of true (chars_of is) 0 in
    let below = sum_of-below (chars_of is) 0 (omega arith) in
    let (p, e) = get_items-chars side is (word_chars sum ++ line) partial 0 true f in
    let (q, e') = verify_checksum-sent side line p sum below in
    let last = λ (vs : List ℕ) (ok : Bool) (r : In). Reply.received vs r in
    let check = λ (vs : List ℕ) (r : In). next (verify_checksum (get_byte_of side) r) (last vs) in
    (
      q,
      ap (λ l. get_message side (widths_of is) (hears l partial 0 0 true))
            (message_line is o line h)
          ∙ ap (λ r. next r check) e
          ∙ ap (λ r. next r (last (values_of is))) e'
          ∙ ap (λ (x : Out). Reply.received (values_of is) (hears line q 0 x.checksum false))
              (sym (message-sends is o)),
    )
