-- ===== src/Sim/Execute/Field/Places.antt =====
-- sim/execute.c: clr, set, extu, mak and ext bit by bit.
use Prim.Native.Nat.{bit_and}
use g.Base.{
  ℕ, ◌+◌, ◌-◌, ◌*◌, ◌/◌, ◌^◌, ◌<◌, ◌≡◌, refl, Bool, ◌==◌, ltb, leb, ◌&&◌, ◌||◌, not, if◌then◌else◌,
  arith, Bool-cases, inl, inr,
}
use g.Base.Words.{IsWord, complement, shift_left}
use g.Base.Digits.{
  test, test-and, test-or, test-shift_right, test-shift_left, test-remainder, test-complement,
  test-ones,
}
use g.Sim.Execute.Field.{width, offset, low_ones, field_mask, cleared, filled, extracted, made}
use native.Mathlib.Nat.{one-le-pow, pow-le-pow_right}

-- The width of a field, where 0 stands for 32.
abbrev pub size : ℕ → ℕ
size f = if width f == 0 then 32 else width f

-- Whether a place of the word is one of the field.
abbrev pub inside : ℕ → ℕ → Bool
inside f j = leb (offset f) j && ltb (j - offset f) (size f)

low_ones_lem : (f : ℕ) → low_ones f ≡ 2 ^ width f - 1
low_ones_lem f = ground (
  arith,
  one-le-pow (width f) 2,
  pow-le-pow_right {n = 2} (omega arith) {i = width f} {j = 31} (omega arith),
)

-- Bits of the word that `k` ones shifted to the left make.
pub test-shifted : (k j w : ℕ) → j < 32 → test j (shift_left w k) ≡ leb k j && test (j - k) w
test-shifted k j w hj = rw (test-remainder 32 j (w * 2 ^ k), test-shift_left k j w) (ground arith)

test-mask : (f j : ℕ) → j < 32 → test j (field_mask f) ≡ inside f j
test-mask f j hj = elim (Bool-cases (width f == 0)) [
  | inl e ↦ rw (e, test-shifted (offset f) j 0xffffffff hj, test-ones 32 (j - offset f)) refl
  | inr e ↦
      rw
        (
          e,
          test-shifted (offset f) j (low_ones f) hj,
          low_ones_lem f,
          test-ones (width f) (j - offset f),
        )
        refl
]

field_mask-IsWord : (f : ℕ) → IsWord (field_mask f)
field_mask-IsWord f = ground arith

pub test-cleared : (x f j : ℕ) → j < 32 → test j (cleared x f) ≡ test j x && not (inside f j)
unfolding cleared
test-cleared x f j hj =
    rw
      (
        test-and j x (complement (field_mask f)),
        test-complement 32 j (field_mask f) (field_mask-IsWord f) hj,
        test-mask f j hj,
      )
      refl

pub test-filled : (x f j : ℕ) → j < 32 → test j (filled x f) ≡ test j x || inside f j
unfolding filled
test-filled x f j hj = rw (test-or j x (field_mask f), test-mask f j hj) refl

pub test-extracted :
    (x f j : ℕ) → j < 32 → test j (extracted x f) ≡ test (offset f + j) x && ltb j (size f)
unfolding extracted
test-extracted x f j hj = elim (Bool-cases (width f == 0)) [
  | inl e ↦ rw (e, test-shift_right (offset f) j x) (ground arith)
  | inr e ↦
      rw
        (
          e,
          test-and j (x / 2 ^ offset f) (low_ones f),
          low_ones_lem f,
          test-ones (width f) j,
          test-shift_right (offset f) j x,
        )
        refl
]

pub test-made : (x f j : ℕ) → j < 32 → test j (made x f) ≡ inside f j && test (j - offset f) x
unfolding made
test-made x f j hj = elim (Bool-cases (width f == 0)) [
  | inl e ↦ rw (e, test-shifted (offset f) j x hj) (ground arith)
  | inr e ↦
      rw
        (
          e,
          test-shifted (offset f) j (bit_and x (low_ones f)) hj,
          test-and (j - offset f) x (low_ones f),
          low_ones_lem f,
          test-ones (width f) (j - offset f),
        )
        (ground arith)
]
