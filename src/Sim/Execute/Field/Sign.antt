-- ===== src/Sim/Execute/Field/Sign.antt =====
-- sim/execute.c: ext, the extraction of a field with its sign.
use Prim.Native.Nat.{min}
use g.Base.{
  ℕ, ◌+◌, ◌-◌, ◌/◌, ◌%◌, ◌^◌, ◌≤◌, ◌<◌, ◌≡◌, refl, ap, ◌∙◌, Bool, true, false, ◌==◌, ltb, leb, ◌&&◌,
  ◌||◌, not, if◌then◌else◌, arith, Bool-cases, inl, inr, ◌⊎◌,
}
use native.Mathlib.Nat.{div-le_self}
use g.Base.Words.{IsWord, complement, shift_left}
use g.Base.Digits.{test, test-shift_right, test-remainder, test-complement}
use g.Sim.Execute.Field.{width, offset, shift_right_int, extended, cleared, filled, extracted, made}
use g.Sim.Execute.Field.Places.{
  test-shifted, test-cleared, test-filled, test-extracted, test-made, inside, size,
}

small_remainder : (x : ℕ) → IsWord x → x % 2 ^ 32 ≡ x
small_remainder x hx = omega arith

lt_of : {a b : ℕ} → ltb a b ≡ true → a < b
lt_of e = ground arith

leb_of : {a b : ℕ} → a ≤ b → leb a b ≡ true
leb_of h = ground arith

ge_of : {a b : ℕ} → ltb a b ≡ false → b ≤ a
ge_of e = ground arith

low_place : (i : ℕ) → i < 32 → i ≡ min i 31
low_place i h = omega arith

high_place : (i : ℕ) → 32 ≤ i → min i 31 ≡ 31
high_place i h = omega arith

not_twice : (b : Bool) → not (not b) ≡ b
not_twice true = refl
not_twice false = refl

-- A word has no bits past 31.
test-beyond : (j x : ℕ) → IsWord x → 32 ≤ j → test j x ≡ false
test-beyond j x hx hj = rw (← small_remainder x hx, test-remainder 32 j x) (ground arith)

test-sign : (x : ℕ) → IsWord x → test 31 x ≡ leb (2 ^ 31) x
unfolding test
test-sign x hx = ground (arith, test-shift_right 31 0 x)

complement-lt : (k x : ℕ) → complement x / 2 ^ k < 2 ^ 32
complement-lt k x = omega (arith, div-le_self (complement x) (2 ^ k))

-- The complement of a complement that is shifted to the right.
test-complement_right :
    (k j x : ℕ)
    → IsWord x
    → j < 32
    → test j (complement (complement x / 2 ^ k)) ≡ not (test (k + j) (complement x))
test-complement_right k j x hx hj =
    rw
      (
        test-complement 32 j (complement x / 2 ^ k) (complement-lt k x) hj,
        test-shift_right k j (complement x),
      )
      refl

-- A shift of an `int` to the right moves the sign in.
test-shift_right_int :
    (k j x : ℕ) → IsWord x → j < 32 → test j (shift_right_int x k) ≡ test (min (k + j) 31) x
test-shift_right_int k j x hx hj = elim (Bool-cases (ltb x (2 ^ 31))) [
  | inl e ↦
      rw (e, test-shift_right k j x)
        (elim (Bool-cases (ltb (k + j) 32)) [
          | inl l ↦ ap (λ i. test i x) (low_place (k + j) (lt_of l))
          | inr l ↦
              rw (high_place (k + j) (ge_of l), test-beyond (k + j) x hx (ge_of l), test-sign x hx)
                (ground (arith, e))
        ])
  | inr e ↦
      rw (e, test-complement_right k j x hx hj)
        (elim (Bool-cases (ltb (k + j) 32)) [
          | inl l ↦
              rw (test-complement 32 (k + j) x hx (lt_of l))
                (not_twice (test (k + j) x) ∙ ap (λ i. test i x) (low_place (k + j) (lt_of l)))
          | inr l ↦
              rw
                (
                  high_place (k + j) (ge_of l),
                  test-beyond (k + j) (complement x) (omega arith) (ge_of l),
                  test-sign x hx,
                )
                (ground (arith, e))
        ])
]

-- The place that a bit of the field comes from, after the shift to the left.
abbrev moved : ℕ → ℕ → ℕ → ℕ
moved o w j = min (o + (32 - (o + w)) + j) 31

moved_far : (o w j : ℕ) → o + w ≤ 32 → 0 < w → leb (32 - (o + w)) (moved o w j) ≡ true
moved_far o w j h p = ground arith

moved_back :
    (o w j : ℕ) → o + w ≤ 32 → 0 < w → moved o w j - (32 - (o + w)) ≡ min (o + j) (o + w - 1)
moved_back o w j h p = omega arith

nonzero : (w : ℕ) → (w == 0) ≡ false → 0 < w
nonzero w e = ground arith

-- The place of the sign of a field.
abbrev pub sign_place : ℕ → ℕ
sign_place f = if width f == 0 then 31 else offset f + width f - 1

extended-places :
    (beyond : ℕ → ℕ → ℕ) (x f j : ℕ)
    → IsWord x
    → j < 32
    → offset f + width f ≤ 32
    → test j (extended beyond x f) ≡ test (min (offset f + j) (sign_place f)) x
unfolding extended
extended-places beyond x f j hx hj fits = elim (Bool-cases (width f == 0)) [
  | inl e ↦ rw e (test-shift_right_int (offset f) j x hx hj)
  | inr e ↦
      rw
        (
          e,
          leb_of fits,
          test-shift_right_int (offset f + (32 - (offset f + width f))) j
              (shift_left x (32 - (offset f + width f))) (omega arith) hj,
          test-shifted (32 - (offset f + width f)) (moved (offset f) (width f) j) x (omega arith),
          moved_far (offset f) (width f) j fits (nonzero (width f) e),
          moved_back (offset f) (width f) j fits (nonzero (width f) e),
        )
        refl
]

within : (n : ℕ) → (32 < n) ⊎ (n ≤ 32)
within n = omega arith

-- Place by place of a word and for every field of it: clr gives the word with zeros in the field,
-- set the word with ones in it, extu the bits of the field moved down to place 0 with zeros above
-- them, mak the low bits of the word moved up into the field with zeros around it, and ext, unless
-- the field goes past the word, the bits of the field moved down to place 0 with its highest bit
-- in every place above.
pub fields-places :
    (beyond : ℕ → ℕ → ℕ) (x f j : ℕ)
    → IsWord x
    → j < 32
    → (test j (cleared x f) ≡ test j x && not (inside f j))
      × (test j (filled x f) ≡ test j x || inside f j)
      × (test j (extracted x f) ≡ test (offset f + j) x && ltb j (size f))
      × (test j (made x f) ≡ inside f j && test (j - offset f) x)
      × ((32 < offset f + width f)
          ⊎ (test j (extended beyond x f) ≡ test (min (offset f + j) (sign_place f)) x))
fields-places beyond x f j hx hj = (
  test-cleared x f j hj,
  test-filled x f j hj,
  test-extracted x f j hj,
  test-made x f j hj,
  elim (within (offset f + width f)) [
    | inl past ↦ inl past
    | inr fits ↦ inr (extended-places beyond x f j hx hj fits)
  ],
)
