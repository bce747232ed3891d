-- ===== src/Sim/Access/Bytes.antt =====
-- sim/misc.c: what a load finds of what a store of the same size left in a page, on a host of either
-- byte order.
use g.Base.{
  ℕ, ◌+◌, ◌-◌, ◌*◌, ◌/◌, ◌%◌, ◌^◌, ◌<◌, ◌≡◌, ◌≢◌, refl, ap, ◌∙◌, Bool, true, false, ◌==◌,
  if◌then◌else◌, arith, Bool-cases, ==_iff, ==_refl, inl, inr,
}
use g.Sim.Bus.{Size, byte, half, word, dword}
use g.Sim.Memory.View.{put_byte-weight}
use g.Sim.Execute.{Operand, reg, Cpu, fetch}
use g.Sim.Access.Host.{
  host_weight, peek_byte, poke_byte, peek_half, poke_half, peek_word, poke_word, extend_byte,
  extend_half, load_from, store_to,
}

-- The place of a byte in its word.
abbrev place : Bool → ℕ → ℕ
place big o = if big then o % 4 else 3 - o % 4

place-bound : (big : Bool) (o : ℕ) → place big o < 4
place-bound true o = omega arith
place-bound false o = omega arith

place-same : (big : Bool) (o p : ℕ) → o / 4 ≡ p / 4 → (place big o == place big p) ≡ (o == p)
place-same true o p h = ground (arith, h)
place-same false o p h = ground (arith, h)

peek-poke :
    (big : Bool) (o p v : ℕ) (values : ℕ → ℕ)
    → peek_byte big (poke_byte big o v values) p
      ≡ (if o == p then v % 256 else peek_byte big values p)
peek-poke big o p v values = elim (Bool-cases (o / 4 == p / 4)) [
  | inr n ↦ let differ : (o == p) ≡ false = ground (arith, n) in rw (n, differ) refl
  | inl e ↦
      let same : o / 4 ≡ p / 4 = (==_iff (o / 4) (p / 4)).0 e in
      rw e (
        put_byte-weight (place big o) (place big p) (values (o / 4)) v (place-bound big o)
          (place-bound big p)
        ∙ rw (place-same big o p same)
            (ap (λ i. if o == p then v % 256 else values i / host_weight big p % 256) same))
]

-- The two bytes of a half word on a host of either order, and what they make together.
abbrev first_of : Bool → ℕ → ℕ → ℕ
first_of big k v = if big then v / k else v

abbrev second_of : Bool → ℕ → ℕ → ℕ
second_of big k v = if big then v else v / k

poke_half-byte :
    (big : Bool) (o v : ℕ) (values : ℕ → ℕ) (p : ℕ)
    → peek_byte big (poke_half big o v values) p ≡ (
        if o + 1 == p
        then second_of big (2 ^ 8) v % 256
        else if o == p
        then first_of big (2 ^ 8) v % 256
        else peek_byte big values p)
poke_half-byte big o v values p =
    peek-poke big (o + 1) p (second_of big (2 ^ 8) v)
      (poke_byte big o (first_of big (2 ^ 8) v) values)
    ∙ ap (λ x. if o + 1 == p then second_of big (2 ^ 8) v % 256 else x)
        (peek-poke big o p (first_of big (2 ^ 8) v) values)

-- What a half word is by its bytes.
abbrev half_of : Bool → ℕ → ℕ → ℕ
half_of big a b = if big then a * 2 ^ 8 + b else b * 2 ^ 8 + a

half_of-bytes :
    (big : Bool) (v : ℕ)
    → half_of big (first_of big (2 ^ 8) v % 256) (second_of big (2 ^ 8) v % 256) ≡ v % 2 ^ 16
half_of-bytes true v = omega arith
half_of-bytes false v = omega arith

peek-poke_half :
    (big : Bool) (o v : ℕ) (values : ℕ → ℕ)
    → peek_half big (poke_half big o v values) o ≡ v % 2 ^ 16
peek-poke_half big o v values =
    let a : peek_byte big (poke_half big o v values) o ≡ first_of big (2 ^ 8) v % 256 =
      poke_half-byte big o v values o ∙ ground arith in
    let b : peek_byte big (poke_half big o v values) (o + 1) ≡ second_of big (2 ^ 8) v % 256 =
      poke_half-byte big o v values (o + 1) ∙ ground arith in
    ap (λ x. half_of big x (peek_byte big (poke_half big o v values) (o + 1))) a
    ∙ ap (half_of big (first_of big (2 ^ 8) v % 256)) b
    ∙ half_of-bytes big v

-- A half word that is stored behind another one leaves it.
peek-poke_half-next :
    (big : Bool) (o v : ℕ) (values : ℕ → ℕ)
    → peek_half big (poke_half big (o + 2) v values) o ≡ peek_half big values o
peek-poke_half-next big o v values =
    let a : peek_byte big (poke_half big (o + 2) v values) o ≡ peek_byte big values o =
      poke_half-byte big (o + 2) v values o ∙ ground arith in
    let b : peek_byte big (poke_half big (o + 2) v values) (o + 1) ≡ peek_byte big values (o + 1) =
      poke_half-byte big (o + 2) v values (o + 1) ∙ ground arith in
    ap (λ x. half_of big x (peek_byte big (poke_half big (o + 2) v values) (o + 1))) a
    ∙ ap (half_of big (peek_byte big values o)) b

word_of-halves :
    (big : Bool) (v : ℕ)
    → (if big
        then first_of big (2 ^ 16) v % 2 ^ 16 * 2 ^ 16 + second_of big (2 ^ 16) v % 2 ^ 16
        else second_of big (2 ^ 16) v % 2 ^ 16 * 2 ^ 16 + first_of big (2 ^ 16) v % 2 ^ 16)
      ≡ v % 2 ^ 32
word_of-halves true v = omega arith
word_of-halves false v = omega arith

peek-poke_word :
    (big : Bool) (o v : ℕ) (values : ℕ → ℕ)
    → peek_word big (poke_word big o v values) o ≡ v % 2 ^ 32
peek-poke_word big o v values =
    let below = poke_half big o (first_of big (2 ^ 16) v) values in
    let a : peek_half big (poke_word big o v values) o ≡ first_of big (2 ^ 16) v % 2 ^ 16 =
      peek-poke_half-next big o (second_of big (2 ^ 16) v) below
      ∙ peek-poke_half big o (first_of big (2 ^ 16) v) values in
    let b : peek_half big (poke_word big o v values) (o + 2) ≡ second_of big (2 ^ 16) v % 2 ^ 16 =
      peek-poke_half big (o + 2) (second_of big (2 ^ 16) v) below in
    rw (a, b) (word_of-halves big v)

-- What a load of a size puts into its register, for the value that was stored.
abbrev pub loaded : Bool → Size → ℕ → ℕ
loaded signed byte v = if signed then extend_byte (v % 2 ^ 8) else v % 2 ^ 8
loaded signed half v = if signed then extend_half (v % 2 ^ 16) else v % 2 ^ 16
loaded signed word v = v % 2 ^ 32
loaded signed dword v = v % 2 ^ 32

pub load_from-store_to :
    (big signed : Bool) (size : Size) (r : Operand) (n o : ℕ) (values : ℕ → ℕ) (c c' : Cpu)
    → size ≢ dword
    → (load_from big signed size (reg n) o (store_to big size r o c values) c').regs n
      ≡ loaded signed size (fetch r c)
unfolding load_from store_to
load_from-store_to big signed byte r n o values c c' h =
    let same : peek_byte big (poke_byte big o (fetch r c) values) o ≡ fetch r c % 256 =
      peek-poke big o o (fetch r c) values ∙ rw (==_refl o) refl in
    rw (==_refl n, same) refl
load_from-store_to big signed half r n o values c c' h =
    rw (==_refl n, peek-poke_half big o (fetch r c) values) refl
load_from-store_to big signed word r n o values c c' h =
    rw (==_refl n, peek-poke_word big o (fetch r c) values) refl
load_from-store_to big signed dword r n o values c c' h = absurd (h refl)
