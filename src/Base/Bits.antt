-- ===== src/Base/Bits.antt =====
-- `&` and `|` of C on unsigned words, over the native operations: the law of the lowest bit, and
-- what follows from it by induction on the number of bits.
use Prim.Native.Nat.{
  ℕ, zero, suc, ◌+◌, ◌*◌, ◌/◌, ◌%◌, ◌^◌, ◌≤◌, ◌<◌, ◌-◌, min, max, bit_and, bit_or, digits,
  bit_and-bitwise, bit_or-bitwise, bit_xor, bit_xor-bitwise, differ,
}
use mathlib.Core.Path.{◌≡◌, refl, ap}
use native.Mathlib.Nat.{pow-suc, pow-succ', div-div-eq-div-mul, one-le-pow}
use native.Mathlib.Omega.{arith}

-- Two counts of digits that both cover the first number give the same result.
same_digits :
    (z : ℕ → ℕ) (f : ℕ → ℕ → ℕ) (a k l b : ℕ) → a ≤ k → a ≤ l → digits z f k a b ≡ digits z f l a b
same_digits z f zero zero zero b p q = refl
same_digits z f zero zero (suc l) b p q = refl
same_digits z f zero (suc k) zero b p q = refl
same_digits z f zero (suc k) (suc l) b p q = refl
same_digits z f (suc a) zero l b p q = absurd (omega arith)
same_digits z f (suc a) (suc k) zero b p q = absurd (omega arith)
same_digits z f (suc a) (suc k) (suc l) b p q =
    ap (λ r. r * 2 + f (suc a % 2) (b % 2))
      (same_digits z f (suc a / 2) k l (b / 2) (omega arith) (omega arith))

-- `a & b` by its lowest bit.
pub and_low : (a b : ℕ) → bit_and a b ≡ bit_and (a / 2) (b / 2) * 2 + min (a % 2) (b % 2)
and_low zero b = omega (arith, bit_and-bitwise 0 b, bit_and-bitwise 0 (b / 2))
and_low (suc a) b = omega (
  arith,
  bit_and-bitwise (suc a) b,
  bit_and-bitwise (suc a / 2) (b / 2),
  same_digits (λ _. 0) min (suc a / 2) a (suc a / 2) (b / 2) (omega arith) (omega arith),
)

-- `a | b` by its lowest bit.
pub or_low : (a b : ℕ) → bit_or a b ≡ bit_or (a / 2) (b / 2) * 2 + max (a % 2) (b % 2)
or_low zero b = omega (arith, bit_or-bitwise 0 b, bit_or-bitwise 0 (b / 2))
or_low (suc a) b = omega (
  arith,
  bit_or-bitwise (suc a) b,
  bit_or-bitwise (suc a / 2) (b / 2),
  same_digits (λ y. y) max (suc a / 2) a (suc a / 2) (b / 2) (omega arith) (omega arith),
)

pub and-half : (a b : ℕ) → bit_and a b / 2 ≡ bit_and (a / 2) (b / 2)
and-half a b = omega (arith, and_low a b)

pub or-half : (a b : ℕ) → bit_or a b / 2 ≡ bit_or (a / 2) (b / 2)
or-half a b = omega (arith, or_low a b)

pub or-parity : (a b : ℕ) → bit_or a b % 2 ≡ max (a % 2) (b % 2)
or-parity a b = omega (arith, or_low a b)

-- A shift to the right, one place at a time.
pub half_first : (a k : ℕ) → a / 2 ^ suc k ≡ a / 2 / 2 ^ k
half_first a k = rw (div-div-eq-div-mul a 2 (2 ^ k), pow-succ' 2 k) refl

over_one : (a : ℕ) → a / 2 ^ 0 ≡ a
over_one a = omega arith

pub and-div : (k a b : ℕ) → bit_and a b / 2 ^ k ≡ bit_and (a / 2 ^ k) (b / 2 ^ k)
and-div zero a b = rw (over_one (bit_and a b), over_one a, over_one b) refl
and-div (suc k) a b =
    rw (half_first a k, half_first b k, half_first (bit_and a b) k, and-half a b)
      (and-div k (a / 2) (b / 2))

pub or-div : (k a b : ℕ) → bit_or a b / 2 ^ k ≡ bit_or (a / 2 ^ k) (b / 2 ^ k)
or-div zero a b = rw (over_one (bit_or a b), over_one a, over_one b) refl
or-div (suc k) a b =
    rw (half_first a k, half_first b k, half_first (bit_or a b) k, or-half a b)
      (or-div k (a / 2) (b / 2))

pub and-parity : (a b : ℕ) → bit_and a b % 2 ≡ min (a % 2) (b % 2)
and-parity a b = omega (arith, and_low a b)

-- The laws below go by a bound on the numbers, which halving brings down.
and_comm_below : (n a b : ℕ) → a ≤ n → b ≤ n → bit_and a b ≡ bit_and b a
and_comm_below zero zero zero p q = refl
and_comm_below zero zero (suc b) p q = absurd (omega arith)
and_comm_below zero (suc a) b p q = absurd (omega arith)
and_comm_below (suc n) a b p q =
    omega (
      arith,
      and_low a b,
      and_low b a,
      and_comm_below n (a / 2) (b / 2) (omega arith) (omega arith),
    )

pub and_comm : (a b : ℕ) → bit_and a b ≡ bit_and b a
and_comm a b = and_comm_below (a + b) a b (omega arith) (omega arith)

pub zero-and : (b : ℕ) → bit_and 0 b ≡ 0
zero-and b = bit_and-bitwise 0 b

and_assoc_below : (n a b c : ℕ) → a ≤ n → bit_and (bit_and a b) c ≡ bit_and a (bit_and b c)
and_assoc_below zero zero b c p = rw (zero-and, zero-and, zero-and)
and_assoc_below zero (suc a) b c p = absurd (omega arith)
and_assoc_below (suc n) a b c p = omega (
  arith,
  and_low (bit_and a b) c,
  and_low a (bit_and b c),
  and-parity a b,
  and-parity b c,
  ap (λ x. bit_and x (c / 2)) (and-half a b),
  ap (λ x. bit_and (a / 2) x) (and-half b c),
  and_assoc_below n (a / 2) (b / 2) (c / 2) (omega arith),
)

pub and_assoc : (a b c : ℕ) → bit_and (bit_and a b) c ≡ bit_and a (bit_and b c)
and_assoc a b c = and_assoc_below a a b c (omega arith)

pub or-zero_below : (n a : ℕ) → a ≤ n → bit_or a 0 ≡ a
or-zero_below zero zero p = refl
or-zero_below zero (suc a) p = absurd (omega arith)
or-zero_below (suc n) a p = omega (arith, or_low a 0, or-zero_below n (a / 2) (omega arith))

pub two_pow-suc : (k x : ℕ) → x * 2 ^ suc k ≡ 2 * (x * 2 ^ k)
two_pow-suc k x = omega (arith, ap (λ (t : ℕ). x * t) (pow-suc 2 k))

-- `(x << k) | y` is a sum where `y` has at most `k` bits.
pub or-shifted : (k x y : ℕ) → y < 2 ^ k → bit_or (x * 2 ^ k) y ≡ x * 2 ^ k + y
or-shifted zero x y h = ground (arith, or-zero_below x x)
or-shifted (suc k) x y h =
    ground (arith, or_low (x * 2 ^ suc k) y, two_pow-suc k x, pow-suc 2 k, or-shifted k x (y / 2))

masked_sum : (k x y : ℕ) → y < 2 ^ k → bit_and (x * 2 ^ k + y) (2 ^ k - 1) ≡ y
masked_sum zero x y h = ground (arith, and_comm (x * 1 + y) 0, zero-and (x * 1 + y))
masked_sum (suc k) x y h = ground (
  arith,
  and_low (x * 2 ^ suc k + y) (2 ^ suc k - 1),
  two_pow-suc k x,
  pow-suc 2 k,
  one-le-pow k 2,
  masked_sum k x (y / 2),
)

-- `a & ((1 << k) - 1)` is a remainder.
pub and_mask : (k a : ℕ) → bit_and a (2 ^ k - 1) ≡ a % 2 ^ k
and_mask k a = ground (arith, one-le-pow k 2, masked_sum k (a / 2 ^ k) (a % 2 ^ k))

pub no_bits : (x y : ℕ) → y ≡ 0 → bit_and x y ≡ 0
no_bits x y h = rw (h, and_comm x 0) (zero-and x)

-- `a ^ b` of C by its lowest bit, and the shifts of it.
pub xor_low : (a b : ℕ) → bit_xor a b ≡ bit_xor (a / 2) (b / 2) * 2 + differ (a % 2) (b % 2)
xor_low zero b = omega (arith, bit_xor-bitwise 0 b, bit_xor-bitwise 0 (b / 2))
xor_low (suc a) b = omega (
  arith,
  bit_xor-bitwise (suc a) b,
  bit_xor-bitwise (suc a / 2) (b / 2),
  same_digits (λ y. y) differ (suc a / 2) a (suc a / 2) (b / 2) (omega arith) (omega arith),
)

differ_digits : (x y : ℕ) → x < 2 → y < 2 → differ x y < 2
differ_digits zero y hx hy = hy
differ_digits (suc x) zero hx hy = hx
differ_digits (suc x) (suc y) hx hy = differ_digits x y (omega arith) (omega arith)

xor-half : (a b : ℕ) → bit_xor a b / 2 ≡ bit_xor (a / 2) (b / 2)
xor-half a b = omega (arith, xor_low a b, differ_digits (a % 2) (b % 2) (omega arith) (omega arith))

pub xor-div : (k a b : ℕ) → bit_xor a b / 2 ^ k ≡ bit_xor (a / 2 ^ k) (b / 2 ^ k)
xor-div zero a b = rw (over_one (bit_xor a b), over_one a, over_one b) refl
xor-div (suc k) a b =
    rw (half_first a k, half_first b k, half_first (bit_xor a b) k, xor-half a b)
      (xor-div k (a / 2) (b / 2))
