-- ===== src/Link/Yields.antt =====
-- remote.c and hmon/mon.c: the bytes that come of what was sent for a byte, for two and for four.
use mathlib.Core.List.{append_assoc}
use g.Base.{
  ℕ, ◌+◌, ◌/◌, ◌%◌, ◌^◌, ◌<◌, ◌≡◌, refl, sym, ap, subst, Bool, Option, none, some, List, [], ◌∷◌,
  ◌++◌, ◌==◌, if◌then◌else◌, arith, drop, Bool-cases, inl, inr,
}
use g.Base.Words.{shift_left}
use g.Link.Codes.{IsCode, word_code-IsCode, short_code-IsCode, byte_code-IsCode}
use g.Link.Table.{compress_table}
use g.Link.Stream.{
  Side, get_byte_of, hears, summed, get_byte-IsCode, get_byte_left, get_byte_low, get_byte_high,
}
use g.Link.{In, Reply, byte_code, short_code, word_code, coded, byte_chars, short_chars, word_chars}

-- The calls of get_byte that lead from a state to another give the bytes, in their order.
pub data Yields (side : Side) : In → List ℕ → In → Type 0 where
  done : (s : In) → Yields side s [] s
  gives :
      (b : ℕ) (bs : List ℕ) (s s' s'' : In)
      → get_byte_of side s ≡ Reply.received b s'
      → Yields side s' bs s''
      → Yields side s (b ∷ bs) s''

pub Yields-append :
    (side : Side) (bs cs : List ℕ) (s s' s'' : In)
    → Yields side s bs s'
    → Yields side s' cs s''
    → Yields side s (bs ++ cs) s''
Yields-append side _ cs _ _ s'' (done s) z = z
Yields-append side _ cs _ s' s'' (gives b bs s s1 _ e y) z =
    gives b (bs ++ cs) s s1 s'' e (Yields-append side bs cs s1 s' s'' y z)

-- The checksum after the characters.
unfoldable pub sum_of : Bool → List ℕ → ℕ → ℕ
sum_of summing [] sum = sum
sum_of summing (c ∷ cs) sum = sum_of summing cs (summed summing c sum)

pub sum_of-append :
    (summing : Bool) (cs ds : List ℕ) (sum : ℕ)
    → sum_of summing (cs ++ ds) sum ≡ sum_of summing ds (sum_of summing cs sum)
unfolding sum_of
sum_of-append summing [] ds sum = refl
sum_of-append summing (c ∷ cs) ds sum = sum_of-append summing cs ds (summed summing c sum)

-- The characters come to the bytes, whatever follows them on the line.
abbrev pub Carries : List ℕ → List ℕ → Type 0
Carries cs bs =
    (side : Side) (line : List ℕ) (partial sum : ℕ) (summing : Bool)
    → (partial' : ℕ) × Yields side (hears (cs ++ line) partial 0 sum summing) bs
        (hears line partial' 0 (sum_of summing cs sum) summing)

pub Carries-append :
    (cs ds bs es : List ℕ) → Carries cs bs → Carries ds es → Carries (cs ++ ds) (bs ++ es)
Carries-append cs ds bs es f g side line partial sum summing =
    let (p, y) = f side (ds ++ line) partial sum summing in
    let (q, z) = g side line p (sum_of summing cs sum) summing in
    let s' = hears (ds ++ line) p 0 (sum_of summing cs sum) summing in
    (q, rw (append_assoc, sum_of-append) (Yields-append side bs es _ s' _ y z))

same_bytes :
    (a a' b b' c c' d d' : ℕ)
    → a ≡ a'
    → b ≡ b'
    → c ≡ c'
    → d ≡ d'
    → (a ∷ b ∷ c ∷ d ∷ []) ≡ (a' ∷ b' ∷ c' ∷ d' ∷ [])
same_bytes a a' b b' c c' d d' p q r s = λ i. p i ∷ q i ∷ r i ∷ s i ∷ []

other_bytes :
    (side : Side) (bs cs : List ℕ) (s s' : In) → bs ≡ cs → Yields side s bs s' → Yields side s cs s'
other_bytes side bs cs s s' e y = subst (λ x. Yields side s x s') e y

-- A code of one byte, of two or of four.
Carries-byte : (k b : ℕ) → IsCode 1 b k → Carries (k ∷ []) (b ∷ [])
unfolding sum_of
Carries-byte k b c side line partial sum summing =
    let e = get_byte-IsCode side 1 b k line partial sum summing c (omega arith) in
    (partial, gives b [] _ _ _ e (done _))

-- The bytes that are left in `partial`.
Yields-left_1 :
    (side : Side) (partial sum : ℕ) (line : List ℕ) (summing : Bool)
    → Yields side
        (hears line partial 1 sum summing)
        (partial / 2 ^ 24 % 2 ^ 8 ∷ [])
        (hears line (shift_left partial 8) 0 sum summing)
Yields-left_1 side partial sum line summing =
    gives _ [] _ _ _ (get_byte_left side 0 partial sum line summing) (done _)

Yields-left_3 :
    (side : Side) (partial sum : ℕ) (line : List ℕ) (summing : Bool)
    → let p1 = shift_left partial 8 in
      let p2 = shift_left p1 8 in
      Yields side
        (hears line partial 3 sum summing)
        (partial / 2 ^ 24 % 2 ^ 8 ∷ p1 / 2 ^ 24 % 2 ^ 8 ∷ p2 / 2 ^ 24 % 2 ^ 8 ∷ [])
        (hears line (shift_left p2 8) 0 sum summing)
Yields-left_3 side partial sum line summing =
    let p1 = shift_left partial 8 in
    let y = Yields-left_1 side (shift_left p1 8) sum line summing in
    let y' = gives _ _ _ _ _ (get_byte_left side 1 p1 sum line summing) y in
    gives _ _ _ _ _ (get_byte_left side 2 partial sum line summing) y'

abbrev pub high_byte : ℕ → ℕ
high_byte s = s / 2 ^ 8 % 2 ^ 8

abbrev pub low_byte : ℕ → ℕ
low_byte s = s % 2 ^ 8

abbrev pub bytes_of_short : ℕ → List ℕ
bytes_of_short s = high_byte s ∷ low_byte s ∷ []

abbrev pub bytes_of_word : ℕ → List ℕ
bytes_of_word w = bytes_of_short (w / 2 ^ 16 % 2 ^ 16) ++ bytes_of_short (w % 2 ^ 16)

Carries-short : (k s : ℕ) → IsCode 2 s k → Carries (k ∷ []) (bytes_of_short s)
unfolding sum_of
Carries-short k s c side line partial sum summing =
    let e = get_byte-IsCode side 2 s k line partial sum summing c (omega arith) in
    let p = shift_left s 24 in
    let last : p / 2 ^ 24 % 2 ^ 8 ≡ low_byte s = omega arith in
    let y = Yields-left_1 side p (summed summing k sum) line summing in
    (
      shift_left p 8,
      gives (high_byte s) (low_byte s ∷ []) _ _ _ e
          (other_bytes side _ _ _ _ (ap (λ x. x ∷ []) last) y),
    )

Carries-word : (k w : ℕ) → IsCode 4 w k → Carries (k ∷ []) (bytes_of_word w)
unfolding sum_of
Carries-word k w c side line partial sum summing =
    let e = get_byte-IsCode side 4 w k line partial sum summing c (omega arith) in
    let p = shift_left w 8 in
    let b3 : w / 2 ^ 24 % 2 ^ 8 ≡ high_byte (w / 2 ^ 16 % 2 ^ 16) = omega arith in
    let b2 : p / 2 ^ 24 % 2 ^ 8 ≡ low_byte (w / 2 ^ 16 % 2 ^ 16) = omega arith in
    let b1 : shift_left p 8 / 2 ^ 24 % 2 ^ 8 ≡ high_byte (w % 2 ^ 16) = omega arith in
    let b0 : shift_left (shift_left p 8) 8 / 2 ^ 24 % 2 ^ 8 ≡ low_byte (w % 2 ^ 16) = omega arith in
    let y = Yields-left_3 side p (summed summing k sum) line summing in
    (
      shift_left (shift_left (shift_left p 8) 8) 8,
      other_bytes side _ _ _ _ (same_bytes _ _ _ _ _ _ _ _ b3 b2 b1 b0) (gives _ _ _ _ _ e y),
    )

Carries-low : (b : ℕ) → b < 0x80 → Carries (0x83 ∷ b ∷ []) (b ∷ [])
unfolding sum_of
Carries-low b h side line partial sum summing =
    (partial, gives b [] _ _ _ (get_byte_low side b line partial sum summing h) (done _))

Carries-high : (b : ℕ) → b < 0x80 → Carries (0x84 ∷ b ∷ []) ((b + 0x80) ∷ [])
unfolding sum_of
Carries-high b h side line partial sum summing =
    (partial, gives _ [] _ _ _ (get_byte_high side b line partial sum summing h) (done _))

other_chars : (cs cs' bs bs' : List ℕ) → cs ≡ cs' → bs ≡ bs' → Carries cs bs → Carries cs' bs'
other_chars cs cs' bs bs' e h f = subst (λ x. Carries x bs') e (subst (λ x. Carries cs x) h f)

-- What is sent for a byte with a prefix.
Carries-quoted :
    (b : ℕ)
    → b < 2 ^ 8
    → Carries ((if b / 2 ^ 7 % 2 == 1 then 0x84 else 0x83) ∷ b % 2 ^ 7 ∷ []) (b ∷ [])
Carries-quoted b h = elim (Bool-cases (b / 2 ^ 7 % 2 == 1)) [
  | inl e ↦
      let prefix : 0x84 ≡ (if b / 2 ^ 7 % 2 == 1 then 0x84 else 0x83) =
        ap (λ x. if x then 0x84 else 0x83) (sym e) in
      let whole : b % 2 ^ 7 + 0x80 ≡ b = ground (arith, e) in
      other_chars _ _ _ _ (ap (λ x. x ∷ b % 2 ^ 7 ∷ []) prefix) (ap (λ x. x ∷ []) whole)
        (Carries-high (b % 2 ^ 7) (omega arith))
  | inr e ↦
      let prefix : 0x83 ≡ (if b / 2 ^ 7 % 2 == 1 then 0x84 else 0x83) =
        ap (λ x. if x then 0x84 else 0x83) (sym e) in
      let whole : b % 2 ^ 7 ≡ b = ground (arith, e) in
      other_chars _ _ _ _ (ap (λ x. x ∷ b % 2 ^ 7 ∷ []) prefix) (ap (λ x. x ∷ []) whole)
        (Carries-low (b % 2 ^ 7) (omega arith))
]

Carries-coded :
    (o : Option ℕ) (uncoded bs : List ℕ)
    → ((k : ℕ) → o ≡ some k → (k < 256) × Carries (k ∷ []) bs)
    → Carries uncoded bs
    → Carries (coded o uncoded) bs
Carries-coded none uncoded bs f g = g
Carries-coded (some k) uncoded bs f g =
    let (b, c) = f k refl in
    let whole : k ≡ k % 256 = omega arith in other_chars _ _ bs bs (ap (λ x. x ∷ []) whole) refl c

pub byte_chars-Carries : (b : ℕ) → b < 2 ^ 8 → Carries (byte_chars b) (b ∷ [])
unfolding byte_chars
byte_chars-Carries b h =
    Carries-coded (byte_code b (drop 120 compress_table) 120) _ _
      (λ k e. let c = byte_code-IsCode b k e in (c.below, Carries-byte k b c)) (Carries-quoted b h)

pub short_chars-Carries : (s : ℕ) → Carries (short_chars s) (bytes_of_short s)
unfolding short_chars
short_chars-Carries s =
    Carries-coded (short_code s (drop 20 compress_table) 20) _ _
      (λ k e. let c = short_code-IsCode s k e in (c.below, Carries-short k s c))
      (Carries-append _ _ _ _ (byte_chars-Carries (high_byte s) (omega arith))
        (byte_chars-Carries (low_byte s) (omega arith)))

pub word_chars-Carries : (w : ℕ) → Carries (word_chars w) (bytes_of_word w)
unfolding word_chars
word_chars-Carries w =
    Carries-coded (word_code w compress_table 0) _ _
      (λ k e. let c = word_code-IsCode w k e in (c.below, Carries-word k w c))
      (Carries-append _ _ _ _ (short_chars-Carries (w / 2 ^ 16 % 2 ^ 16))
        (short_chars-Carries (w % 2 ^ 16)))
