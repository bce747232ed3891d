-- ===== src/Base/Digits.antt =====
-- The bits of a number, one at a time, and what the operations of C do to each of them.
use Prim.Native.Nat.{ℕ, zero, suc, ◌+◌, ◌*◌, ◌/◌, ◌%◌, ◌^◌, ◌-◌, ◌<◌, bit_and, bit_or}
use mathlib.Core.Path.{◌≡◌, refl, ap}
use mathlib.Core.Bool.{Bool, false, ◌&&◌, ◌||◌, not}
use native.Mathlib.Nat.{pow-succ', mod-eq-sub-div-mul, div-mul-le_self, one-le-pow}
use native.Mathlib.Omega.{arith}
use g.Base.Tests.{◌==◌, ltb, leb}
use g.Base.Bits.{half_first, and-half, and-parity, or-half, or-parity, two_pow-suc}

-- Bit `j` of a number.
unfoldable pub test : ℕ → ℕ → Bool
test zero w = w % 2 == 1
test (suc j) w = test j (w / 2)

pub test-and : (j a b : ℕ) → test j (bit_and a b) ≡ test j a && test j b
unfolding test
test-and zero a b = ground (arith, and-parity a b)
test-and (suc j) a b = rw (and-half a b) (test-and j (a / 2) (b / 2))

pub test-or : (j a b : ℕ) → test j (bit_or a b) ≡ test j a || test j b
unfolding test
test-or zero a b = ground (arith, or-parity a b)
test-or (suc j) a b = rw (or-half a b) (test-or j (a / 2) (b / 2))

pub test-zero : (j : ℕ) → test j 0 ≡ false
unfolding test
test-zero zero = refl
test-zero (suc j) = test-zero j

whole : (w : ℕ) → w / 2 ^ 0 ≡ w
whole w = omega arith

zero_plus : (j : ℕ) → 0 + j ≡ j
zero_plus j = omega arith

suc_plus : (k j : ℕ) → suc k + j ≡ suc (k + j)
suc_plus k j = omega arith

pub test-shift_right : (k j w : ℕ) → test j (w / 2 ^ k) ≡ test (k + j) w
unfolding test
test-shift_right zero j w = rw (whole w, zero_plus j) refl
test-shift_right (suc k) j w = rw (half_first w k, suc_plus k j) (test-shift_right k j (w / 2))

times_one : (w : ℕ) → w * 2 ^ 0 ≡ w
times_one w = omega arith

over_one : (w : ℕ) → w % 2 ^ 0 ≡ 0
over_one w = omega arith

shifted_parity : (k w : ℕ) → w * 2 ^ suc k % 2 ≡ 0
shifted_parity k w = omega (arith, two_pow-suc k w)

shifted_half : (k w : ℕ) → w * 2 ^ suc k / 2 ≡ w * 2 ^ k
shifted_half k w = omega (arith, two_pow-suc k w)

pub test-shift_left : (k j w : ℕ) → test j (w * 2 ^ k) ≡ leb k j && test (j - k) w
unfolding test
test-shift_left zero j w = ground (arith, times_one w, ap (test j) (times_one w))
test-shift_left (suc k) zero w = ground (arith, shifted_parity k w)
test-shift_left (suc k) (suc j) w = rw (shifted_half k w) (ground (arith, test-shift_left k j w))

-- A remainder by a power of two, from its half.
remainder_parity : (n w : ℕ) → w % 2 ^ suc n % 2 ≡ w % 2
remainder_parity n w = omega (
  arith,
  mod-eq-sub-div-mul w (2 ^ suc n),
  two_pow-suc n (w / 2 ^ suc n),
  div-mul-le_self w (2 ^ suc n),
)

remainder_half : (n w : ℕ) → w % 2 ^ suc n / 2 ≡ w / 2 % 2 ^ n
remainder_half n w = omega (
  arith,
  mod-eq-sub-div-mul w (2 ^ suc n),
  mod-eq-sub-div-mul (w / 2) (2 ^ n),
  ap (λ (q : ℕ). q * 2 ^ n) (half_first w n),
  two_pow-suc n (w / 2 ^ suc n),
  div-mul-le_self w (2 ^ suc n),
  div-mul-le_self (w / 2) (2 ^ n),
)

pub test-remainder : (n j w : ℕ) → test j (w % 2 ^ n) ≡ ltb j n && test j w
unfolding test
test-remainder zero j w = ground (arith, test-zero j, ap (test j) (over_one w))
test-remainder (suc n) zero w = rw (remainder_parity n w) (ground arith)
test-remainder (suc n) (suc j) w =
    rw (remainder_half n w) (ground (arith, test-remainder n j (w / 2)))

complement_half : (n w : ℕ) → w < 2 ^ suc n → (2 ^ suc n - 1 - w) / 2 ≡ 2 ^ n - 1 - w / 2
complement_half n w h = omega (arith, pow-succ' 2 n, one-le-pow n 2)

pub test-complement : (n j w : ℕ) → w < 2 ^ n → j < n → test j (2 ^ n - 1 - w) ≡ not (test j w)
unfolding test
test-complement zero j w hw hj = absurd (omega arith)
test-complement (suc n) zero w hw hj = ground (arith, pow-succ' 2 n, one-le-pow n 2)
test-complement (suc n) (suc j) w hw hj =
    rw (complement_half n w hw)
      (test-complement n j (w / 2) (omega (arith, pow-succ' 2 n)) (omega arith))

ones_half : (k : ℕ) → (2 ^ suc k - 1) / 2 ≡ 2 ^ k - 1
ones_half k = omega (arith, pow-succ' 2 k, one-le-pow k 2)

pub test-ones : (k j : ℕ) → test j (2 ^ k - 1) ≡ ltb j k
unfolding test
test-ones zero j = ground (arith, test-zero j)
test-ones (suc k) zero = ground (arith, pow-succ' 2 k, one-le-pow k 2)
test-ones (suc k) (suc j) = rw (ones_half k) (ground (arith, test-ones k j))
