-- ===== src/Sim/Execute/Field/Find.antt =====
-- sim/execute.c: what ff1 and ff0 find.
use g.Base.{
  ℕ, zero, suc, ◌+◌, ◌/◌, ◌%◌, ◌^◌, ◌≤◌, ◌<◌, ◌≡◌, refl, ap, false, ◌==◌, leb, not, arith,
  Bool-cases, inl, inr, ◌⊎◌,
}
use g.Base.Words.{IsWord, complement}
use g.Base.Bits.{half_first}
use g.Base.Digits.{test, test-zero, test-complement}
use g.Sim.Execute.Field.{find_bit, ff0, ff1}
use g.Sim.Execute.{Decoded, Cpu, dispatch_next, src2, set_dst}
use native.Mathlib.Nat.{pow-succ', one-le-pow, div-mul-le_self, lt-div-mul-add}

-- The number of bits that a number takes: the least `n` with `w` below `2 ^ n`.
abbrev pub IsHighest : ℕ → ℕ → Type 0
IsHighest w i = (2 ^ i ≤ w) × (w < 2 ^ (i + 1))

quotient_small : (p w : ℕ) → 0 < p → w < p → w / p ≡ 0
quotient_small p w hp h = grind arith

quotient_one : (p w : ℕ) → 0 < p → p ≤ w → w < p + p → w / p ≡ 1
quotient_one p w hp l h = grind (arith, div-mul-le_self w p, lt-div-mul-add {a = w} {b = p} hp)

over_one : (w : ℕ) → w / 2 ^ 0 ≡ w
over_one w = omega arith

below : (p w : ℕ) → leb p w ≡ false → w < p
below p w e = ground arith

-- The digit that the search reads, as a bit.
digit-test : (i w : ℕ) → (w / 2 ^ i % 2 == 1) ≡ test i w
unfolding test
digit-test zero w = ap (λ x. x % 2 == 1) (over_one w)
digit-test (suc i) w = rw (half_first w i) (digit-test i (w / 2))

top_digit : (n w : ℕ) → w < 2 ^ suc n → (w / 2 ^ n % 2 == 1) ≡ leb (2 ^ n) w
top_digit n w h =
    ground (arith, pow-succ' 2 n, one-le-pow n 2, quotient_small (2 ^ n) w, quotient_one (2 ^ n) w)

suc_pow : (n : ℕ) → 2 ^ (n + 1) ≡ 2 ^ suc n
suc_pow n = ap (λ (k : ℕ). 2 ^ k) (omega arith)

-- Below a power of two, the highest bit of a number other than 0 is found.
find_bit-IsHighest :
    (n w : ℕ) → 0 < w → w < 2 ^ n → IsHighest w (find_bit 1 w n) × (find_bit 1 w n < n)
unfolding find_bit
find_bit-IsHighest zero w pos_w h = absurd (omega arith)
find_bit-IsHighest (suc n) w pos_w h = rw (top_digit n w h) (elim (Bool-cases (leb (2 ^ n) w)) [
  | inl e ↦ rw e ground (arith, suc_pow n)
  | inr e ↦
      rw e (let ih = find_bit-IsHighest n w pos_w (below _ _ e) in (ih.0, omega (arith, ih.1)))
])

zero_digit : (i w : ℕ) → (w / 2 ^ i % 2 == 0) ≡ not (w / 2 ^ i % 2 == 1)
zero_digit i w = ground arith

-- A search for 0 is a search for 1 in the complement.
find_bit-complement : (n w : ℕ) → n ≤ 32 → IsWord w → find_bit 0 w n ≡ find_bit 1 (complement w) n
unfolding find_bit
find_bit-complement zero w hn hw = refl
find_bit-complement (suc n) w hn hw =
    rw
      (
        zero_digit n w,
        digit-test n w,
        digit-test n (complement w),
        test-complement 32 n w hw (omega arith),
        find_bit-complement n w (omega arith) hw,
      )
      refl

find_bit-zero : (n : ℕ) → find_bit 1 0 n ≡ 32
unfolding find_bit
find_bit-zero zero = refl
find_bit-zero (suc n) = rw (digit-test n 0, test-zero n) (find_bit-zero n)

-- 32 for the word 0, and else the place of its highest bit.
abbrev pub Finds : ℕ → ℕ → Type 0
Finds w r = ((w ≡ 0) × (r ≡ 32)) ⊎ IsHighest w r

find_bit-Finds : (w : ℕ) → IsWord w → Finds w (find_bit 1 w 32)
find_bit-Finds zero hw = inl (refl, find_bit-zero 32)
find_bit-Finds (suc w) hw = inr (find_bit-IsHighest 32 (suc w) (omega arith) hw).0

-- ff1 of a word stores the place of its highest bit that is 1, or 32 where there is none; ff0
-- stores the place of its highest bit that is 0, or 32, in the same sense. Both go on to the next
-- instruction.
pub ff1-ff0_find :
    (p : Decoded) (c : Cpu)
    → IsWord (src2 p c)
    → ((r : ℕ) × (ff1 p c ≡ (dispatch_next, set_dst p r c)) × Finds (src2 p c) r)
      × ((r : ℕ) × (ff0 p c ≡ (dispatch_next, set_dst p r c)) × Finds (complement (src2 p c)) r)
unfolding ff1 ff0
ff1-ff0_find p c hw = (
  (find_bit 1 (src2 p c) 32, refl, find_bit-Finds (src2 p c) hw),
  (
    find_bit 1 (complement (src2 p c)) 32,
    ap (λ r. (dispatch_next, set_dst p r c)) (find_bit-complement 32 (src2 p c) (omega arith) hw),
    find_bit-Finds (complement (src2 p c)) (omega arith),
  ),
)
