-- ===== src/Link/Values.antt =====
-- remote.c and hmon/mon.c: a word, a short or a byte that get_word, get_short and get_byte put together.
use Prim.Native.Nat.{bit_or}
use g.Base.{
  ℕ, ◌+◌, ◌*◌, ◌/◌, ◌%◌, ◌^◌, ◌<◌, ◌≡◌, ◌∙◌, refl, ap, Bool, List, [], ◌∷◌, ◌++◌, arith, length,
}
use g.Base.Bits.{or-shifted}
use g.Base.Words.{shift_left}
use g.Link.Stream.{Side, get_byte_of, hears}
use g.Link.Yields.{
  Yields, done, gives, sum_of, high_byte, low_byte, bytes_of_short, bytes_of_word,
  byte_chars-Carries, short_chars-Carries, word_chars-Carries,
}
use g.Link.{
  Out, In, Reply, next, byte_chars, short_chars, word_chars, get_bytes, get_word, get_short,
  send_byte, send_short, send_word,
}

joined : (t b : ℕ) → t < 2 ^ 24 → b < 2 ^ 8 → bit_or (shift_left t 8) b ≡ t * 2 ^ 8 + b
joined t b h k =
    let fits : shift_left t 8 ≡ t * 2 ^ 8 = omega arith in
    ap (λ x. bit_or x b) fits ∙ or-shifted 8 t b k

unfoldable combine : ℕ → List ℕ → ℕ
combine t [] = t
combine t (b ∷ bs) = combine (bit_or (shift_left t 8) b) bs

combine_step :
    (t b : ℕ) (bs : List ℕ)
    → t < 2 ^ 24
    → b < 2 ^ 8
    → combine t (b ∷ bs) ≡ combine (t * 2 ^ 8 + b) bs
unfolding combine
combine_step t b bs h k = ap (λ x. combine x bs) (joined t b h k)

combine_four :
    (a b c d : ℕ)
    → a < 2 ^ 8
    → b < 2 ^ 8
    → c < 2 ^ 8
    → d < 2 ^ 8
    → combine 0 (a ∷ b ∷ c ∷ d ∷ []) ≡ ((a * 2 ^ 8 + b) * 2 ^ 8 + c) * 2 ^ 8 + d
unfolding combine
combine_four a b c d p q r s =
    let first : 0 * 2 ^ 8 + a ≡ a = omega arith in
    combine_step 0 a (b ∷ c ∷ d ∷ []) (omega arith) p
    ∙ ap (λ x. combine x (b ∷ c ∷ d ∷ [])) first
    ∙ combine_step a b (c ∷ d ∷ []) (omega arith) q
    ∙ combine_step (a * 2 ^ 8 + b) c (d ∷ []) (omega arith) r
    ∙ combine_step ((a * 2 ^ 8 + b) * 2 ^ 8 + c) d [] (omega arith) s

combine-bytes_of_word : (w : ℕ) → w < 2 ^ 32 → combine 0 (bytes_of_word w) ≡ w
combine-bytes_of_word w h =
    let high = w / 2 ^ 16 % 2 ^ 16 in
    let low = w % 2 ^ 16 in
    let whole : ((high_byte high * 2 ^ 8 + low_byte high) * 2 ^ 8 + high_byte low) * 2 ^ 8
          + low_byte low
        ≡ w =
      omega arith in
    combine_four (high_byte high) (low_byte high) (high_byte low) (low_byte low) (omega arith)
      (omega arith) (omega arith) (omega arith)
    ∙ whole

get_bytes-Yields :
    (side : Side) (bs : List ℕ) (t : ℕ) (s s' : In)
    → Yields side s bs s'
    → get_bytes (get_byte_of side) (length bs) t s ≡ Reply.received (combine t bs) s'
unfolding get_bytes combine
get_bytes-Yields side _ t _ _ (done s) = refl
get_bytes-Yields side _ t _ s' (gives b bs s s1 _ e y) =
    let left =
      λ (x : ℕ) (r : In). get_bytes (get_byte_of side) (length bs) (bit_or (shift_left t 8) x) r in
    ap (λ r. next r left) e ∙ get_bytes-Yields side bs (bit_or (shift_left t 8) b) s1 s' y

get_word-Yields :
    (side : Side) (w : ℕ) (s s' : In)
    → w < 2 ^ 32
    → Yields side s (bytes_of_word w) s'
    → get_word (get_byte_of side) s ≡ Reply.received w s'
get_word-Yields side w s s' h y =
    get_bytes-Yields side (bytes_of_word w) 0 s s' y
    ∙ ap (λ x. Reply.received x s') (combine-bytes_of_word w h)

get_byte-Yields :
    (side : Side) (b : ℕ) (s s' : In)
    → Yields side s (b ∷ []) s'
    → get_byte_of side s ≡ Reply.received b s'
get_byte-Yields side b _ _ (gives _ _ s s' _ e (done _)) = e

get_short-Yields :
    (side : Side) (v : ℕ) (s s' : In)
    → v < 2 ^ 16
    → Yields side s (bytes_of_short v) s'
    → get_short (get_byte_of side) s ≡ Reply.received v s'
get_short-Yields side v s s' h (gives _ _ _ s1 _ e y) =
    let high = λ (a : ℕ) (r : In).
      next (get_byte_of side r) (λ b r'. Reply.received (bit_or (shift_left a 8) b) r') in
    let low = λ (b : ℕ) (r : In). Reply.received (bit_or (shift_left (high_byte v) 8) b) r in
    let whole : high_byte v * 2 ^ 8 + low_byte v ≡ v = omega arith in
    ap (λ r. next r high) e
    ∙ ap (λ r. next r low) (get_byte-Yields side (low_byte v) s1 s' y)
    ∙ ap (λ x. Reply.received x s')
        (joined (high_byte v) (low_byte v) (omega arith) (omega arith) ∙ whole)

-- A value of a message and the width it is sent with.
pub data Width : Type 0 where
  whole half single : Width

pub record Item : Type 0 where
  pub width : Width
  pub value : ℕ

abbrev pub bits : Width → ℕ
bits whole = 32
bits half = 16
bits single = 8

abbrev pub send_wide : Width → ℕ → Out → Out
send_wide whole v o = send_word v o
send_wide half v o = send_short v o
send_wide single v o = send_byte v o

abbrev pub get_wide : Side → Width → In → Reply ℕ
get_wide side whole s = get_word (get_byte_of side) s
get_wide side half s = get_short (get_byte_of side) s
get_wide side single s = get_byte_of side s

abbrev pub wide_chars : Width → ℕ → List ℕ
wide_chars whole v = word_chars v
wide_chars half v = short_chars v
wide_chars single v = byte_chars v

-- The characters for a value, at the other side.
pub get_wide-chars :
    (side : Side) (width : Width) (v : ℕ) (line : List ℕ) (partial sum : ℕ) (summing : Bool)
    → v < 2 ^ bits width
    → (partial' : ℕ) × (get_wide side width
          (hears (wide_chars width v ++ line) partial 0 sum summing)
        ≡ Reply.received v
            (hears line partial' 0 (sum_of summing (wide_chars width v) sum) summing))
get_wide-chars side whole v line partial sum summing h =
    let (p, y) = word_chars-Carries v side line partial sum summing in
    (p, get_word-Yields side v _ _ h y)
get_wide-chars side half v line partial sum summing h =
    let (p, y) = short_chars-Carries v side line partial sum summing in
    (p, get_short-Yields side v _ _ h y)
get_wide-chars side single v line partial sum summing h =
    let (p, y) = byte_chars-Carries v h side line partial sum summing in
    (p, get_byte-Yields side v _ _ y)
