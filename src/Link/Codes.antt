-- ===== src/Link/Codes.antt =====
-- remote.c and hmon/mon.c: the entries of the table that the loops of the sending side find.
use g.Base.{
  ℕ, zero, suc, ◌+◌, ◌<◌, ◌≡◌, ◌≢◌, ◌⊎◌, refl, sym, ap, ◌∙◌, Bool, true, false, Option, none, some,
  List, [], ◌∷◌, ◌==◌, ltb, ◌||◌, ◌&&◌, if◌then◌else◌, length, drop, get_or, arith, inl, inr,
}
use g.Link.Entry.{Compress, compress}
use g.Link.Table.{compress_table}
use g.Link.{word_code, short_code, byte_code, entry}

-- The entry at an index has the length and the pattern.
abbrev Has : Compress → ℕ → ℕ → Type 0
Has ct len pattern = (ct.length ≡ len) × (ct.pattern ≡ pattern)

-- A loop that began at the index `i` found the entry at the index `k`.
abbrev Found : List Compress → ℕ → ℕ → ℕ → ℕ → Type 0
Found cts len pattern i k =
    (j : ℕ) × (k ≡ i + j) × (j < length cts) × Has (get_or cts j (compress 0 0)) len pattern

both_equal : (a b c d : ℕ) → (a == b && c == d) ≡ true → (c ≡ d) × (a ≡ b)
both_equal a b c d e = (ground (arith, e), ground (arith, e))

-- A round of a loop: the entry itself, or what the rest of the table gives.
round_cases :
    (go hit : Bool) (rest : Option ℕ) (i k : ℕ)
    → (if go then if hit then some i else rest else none) ≡ some k
    → ((hit ≡ true) × (k ≡ i)) ⊎ (rest ≡ some k)
round_cases false hit rest i k e = absurd (cc)
round_cases true true rest i k e = inl (refl, (cc))
round_cases true false rest i k e = inr e

this_entry :
    (ct : Compress) (cts : List Compress) (len pattern i k : ℕ)
    → (ct.pattern == pattern && ct.length == len) ≡ true
    → k ≡ i
    → Found (ct ∷ cts) len pattern i k
this_entry ct cts len pattern i k e h =
    (0, omega arith, omega arith, both_equal ct.pattern pattern ct.length len e)

later_entry :
    (ct : Compress) (cts : List Compress) (len pattern i k : ℕ)
    → Found cts len pattern (i + 1) k
    → Found (ct ∷ cts) len pattern i k
later_entry ct cts len pattern i k (j, e, b, h) = (suc j, omega arith, omega arith, h)

word_code-Found :
    (w : ℕ) (cts : List Compress) (i k : ℕ) → word_code w cts i ≡ some k → Found cts 4 w i k
unfolding word_code
word_code-Found w [] i k e = absurd (cc)
word_code-Found w (ct ∷ cts) i k e =
    elim (round_cases (ct.length == 4 || ct.length == 0) (ct.pattern == w && ct.length == 4)
      (word_code w cts (i + 1)) i k e) [
        | inl (h, q) ↦ this_entry ct cts 4 w i k h q
        | inr r ↦ later_entry ct cts 4 w i k (word_code-Found w cts (i + 1) k r)
      ]

short_code-Found :
    (w : ℕ) (cts : List Compress) (i k : ℕ) → short_code w cts i ≡ some k → Found cts 2 w i k
unfolding short_code
short_code-Found w [] i k e = absurd (cc)
short_code-Found w (ct ∷ cts) i k e =
    elim (round_cases (ct.length == 2 || ct.length == 0) (ct.pattern == w && ct.length == 2)
      (short_code w cts (i + 1)) i k e) [
        | inl (h, q) ↦ this_entry ct cts 2 w i k h q
        | inr r ↦ later_entry ct cts 2 w i k (short_code-Found w cts (i + 1) k r)
      ]

byte_code-Found :
    (w : ℕ) (cts : List Compress) (i k : ℕ) → byte_code w cts i ≡ some k → Found cts 1 w i k
unfolding byte_code
byte_code-Found w [] i k e = absurd (cc)
byte_code-Found w (ct ∷ cts) i k e =
    elim (round_cases (ltb i 256) (ct.pattern == w && ct.length == 1) (byte_code w cts (i + 1)) i k
      e) [
        | inl (h, q) ↦ this_entry ct cts 1 w i k h q
        | inr r ↦ later_entry ct cts 1 w i k (byte_code-Found w cts (i + 1) k r)
      ]

get_or-drop :
    (n j : ℕ) (cts : List Compress) (d : Compress) → get_or (drop n cts) j d ≡ get_or cts (n + j) d
get_or-drop zero j cts d = ap (λ x. get_or cts x d) (omega arith)
get_or-drop (suc n) j [] d = refl
get_or-drop (suc n) j (ct ∷ cts) d =
    let next : suc n + j ≡ suc (n + j) = omega arith in
    get_or-drop n j cts d ∙ ap (λ x. get_or (ct ∷ cts) x d) (sym next)

-- A code is the index of an entry of the length with the pattern, and is none of the avoided ones.
pub record IsCode (len pattern k : ℕ) : Type 0 where
  pub below : k < 256
  pub length_is : (entry k).length ≡ len
  pub pattern_is : (entry k).pattern ≡ pattern

end-length : (entry 256).length ≡ 0
unfolding compress_table
end-length = refl

not_end : (len pattern k : ℕ) → 0 < len → Has (entry k) len pattern → k ≢ 256
not_end len pattern k h (l, p) e =
    let zero_length : (entry k).length ≡ 0 = ap (λ x. (entry x).length) e ∙ end-length in
    absurd (omega arith)

Found-IsCode :
    (n len pattern k : ℕ)
    → 0 < len
    → length (drop n compress_table) + n ≡ 257
    → Found (drop n compress_table) len pattern n k
    → IsCode len pattern k
Found-IsCode n len pattern k hl whole (j, e, b, (l, p)) =
    let here : get_or (drop n compress_table) j (compress 0 0) ≡ entry k =
      get_or-drop n j compress_table (compress 0 0) ∙ ap entry (sym e) in
    let l' : (entry k).length ≡ len = ap (λ (x : Compress). x.length) (sym here) ∙ l in
    let p' : (entry k).pattern ≡ pattern = ap (λ (x : Compress). x.pattern) (sym here) ∙ p in
    let last : k ≢ 256 = not_end len pattern k hl (l', p') in
    record { below = omega arith; length_is = l'; pattern_is = p' }

whole-word : length (drop 0 compress_table) + 0 ≡ 257
unfolding compress_table
whole-word = refl

whole-short : length (drop 20 compress_table) + 20 ≡ 257
unfolding compress_table
whole-short = refl

whole-byte : length (drop 120 compress_table) + 120 ≡ 257
unfolding compress_table
whole-byte = refl

pub word_code-IsCode : (w k : ℕ) → word_code w compress_table 0 ≡ some k → IsCode 4 w k
word_code-IsCode w k e =
    Found-IsCode 0 4 w k (omega arith) whole-word (word_code-Found w compress_table 0 k e)

pub short_code-IsCode : (s k : ℕ) → short_code s (drop 20 compress_table) 20 ≡ some k → IsCode 2 s k
short_code-IsCode s k e =
    Found-IsCode 20 2 s k (omega arith) whole-short
      (short_code-Found s (drop 20 compress_table) 20 k e)

pub byte_code-IsCode : (b k : ℕ) → byte_code b (drop 120 compress_table) 120 ≡ some k → IsCode 1 b k
byte_code-IsCode b k e =
    Found-IsCode 120 1 b k (omega arith) whole-byte
      (byte_code-Found b (drop 120 compress_table) 120 k e)

start-length : (entry 0x81).length ≡ 0x81
unfolding compress_table
start-length = refl

stop-length : (entry 0x82).length ≡ 0x82
unfolding compress_table
stop-length = refl

-- A code is none that the monitor takes for an interruption or passes over.
pub IsCode-not_start : (len pattern k : ℕ) → IsCode len pattern k → len < 0x81 → k ≢ 0x81
IsCode-not_start len pattern k c h e =
    let same : (entry k).length ≡ 0x81 = ap (λ x. (entry x).length) e ∙ start-length in
    let given : (entry k).length ≡ len = c.length_is in absurd (omega arith)

pub IsCode-not_stop : (len pattern k : ℕ) → IsCode len pattern k → len < 0x81 → k ≢ 0x82
IsCode-not_stop len pattern k c h e =
    let same : (entry k).length ≡ 0x82 = ap (λ x. (entry x).length) e ∙ stop-length in
    let given : (entry k).length ≡ len = c.length_is in absurd (omega arith)
