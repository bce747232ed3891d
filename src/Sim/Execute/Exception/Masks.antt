-- ===== src/Sim/Execute/Exception/Masks.antt =====
-- sim/execute.c: the masks that the exceptions put on the status register and on addresses.
use Prim.Native.Nat.{bit_and, bit_or}
use g.Base.{ℕ, zero, suc, ◌+◌, ◌/◌, ◌%◌, ◌^◌, ◌<◌, ◌≡◌, Bool, ◌==◌, ◌&&◌, ◌||◌, arith}
use g.Base.Bits.{and_low, or_low, and_mask, and_comm, and-div, or-div, zero-and, or-zero_below}
use native.Mathlib.Nat.{pow-succ'}
use g.Base.Digits.{test, test-and, test-or}
use g.Base.Words.{IsWord}
use g.Sim.Execute.Exception.{psr_bits, aligned}

same_halves : (a b : ℕ) → (a % 2 == 1) ≡ (b % 2 == 1) → a / 2 ≡ b / 2 → a ≡ b
same_halves a b p h = ground arith

-- Two numbers with the same bits are equal.
same_bits_below : (n a b : ℕ) → a < 2 ^ n → b < 2 ^ n → ((j : ℕ) → test j a ≡ test j b) → a ≡ b
unfolding test
same_bits_below zero a b ha hb same = omega arith
same_bits_below (suc n) a b ha hb same = same_halves a b (same 0) (
    same_bits_below n (a / 2) (b / 2) (omega (arith, pow-succ' 2 n)) (omega (arith, pow-succ' 2 n))
      (λ j. same (suc j)))

no_bits : (x y : ℕ) → y ≡ 0 → bit_and x y ≡ 0
no_bits x y h = rw (h, and_comm x 0) (zero-and x)

-- An operand that is a word makes a word.
and-IsWord : (x y : ℕ) → IsWord y → IsWord (bit_and x y)
and-IsWord x y h = ground (arith, and-div 32 x y, no_bits (x / 2 ^ 32) (y / 2 ^ 32))

psr_bits-IsWord : (w : ℕ) → IsWord (psr_bits w)
psr_bits-IsWord w = and-IsWord (bit_or w 0x3f0) 0xf800e3ff (omega arith)

absorbed : (a c d : Bool) → ((((a || c) && d) || c) && d) ≡ ((a || c) && d)
absorbed a c d = ground arith

same_psr_bits : (w j : ℕ) → test j (psr_bits (psr_bits w)) ≡ test j (psr_bits w)
same_psr_bits w j =
    rw
      (
        test-and j (bit_or (psr_bits w) 0x3f0) 0xf800e3ff,
        test-or j (psr_bits w) 0x3f0,
        test-and j (bit_or w 0x3f0) 0xf800e3ff,
        test-or j w 0x3f0,
      )
      (absorbed (test j w) (test j 0x3f0) (test j 0xf800e3ff))

pub psr_bits_fixed : (w : ℕ) → psr_bits (psr_bits w) ≡ psr_bits w
psr_bits_fixed w =
    same_bits_below 32 (psr_bits (psr_bits w)) (psr_bits w) (psr_bits-IsWord (psr_bits w))
      (psr_bits-IsWord w) (same_psr_bits w)

pub psr_bits-parity : (w : ℕ) → psr_bits w % 2 ≡ w % 2
psr_bits-parity w = ground (arith, and_low (bit_or w 0x3f0) 0xf800e3ff, or_low w 0x3f0)

pub psr_parity : (w : ℕ) → bit_or w 0x800003fb % 2 ≡ 1
psr_parity w = ground (arith, or_low w 0x800003fb)

marked : (a : ℕ) → a % 4 ≡ 0 → bit_or a 2 ≡ a + 2
marked a h = ground (arith, or_low a 2, or_low (a / 2) 1, or-zero_below (a / 2 / 2) (a / 2 / 2))

pub aligned-marked : (a : ℕ) → IsWord a → a % 4 ≡ 0 → aligned (bit_or a 2) ≡ a
aligned-marked a h q = ground (
  arith,
  marked a q,
  and_low (bit_or a 2) 0xfffffffc,
  and_low (bit_or a 2 / 2) 0x7ffffffe,
  and_mask 30 (bit_or a 2 / 2 / 2),
)

pub marked-parity : (a : ℕ) → a % 4 ≡ 0 → bit_and (bit_or a 2) 1 ≡ 0
marked-parity a h = ground (arith, marked a h, and_mask 1 (bit_or a 2))

pub marked-low : (a : ℕ) → a % 4 ≡ 0 → bit_and (bit_or a 2) 3 ≡ 2
marked-low a h = ground (arith, marked a h, and_mask 2 (bit_or a 2))

pub marked-valid : (a : ℕ) → a % 4 ≡ 0 → bit_and (bit_or a 2) 2 ≡ 2
marked-valid a h = ground (arith, marked a h, and_low (bit_or a 2) 2, and_mask 1 (bit_or a 2 / 2))

pub psr_bits-sign : (w : ℕ) → IsWord w → psr_bits w / 2 ^ 31 ≡ w / 2 ^ 31
psr_bits-sign w h = ground (
  arith,
  and-div 31 (bit_or w 0x3f0) 0xf800e3ff,
  or-div 31 w 0x3f0,
  or-zero_below (w / 2 ^ 31) (w / 2 ^ 31),
  and_mask 1 (w / 2 ^ 31),
)
