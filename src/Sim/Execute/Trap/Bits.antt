-- ===== src/Sim/Execute/Trap/Bits.antt =====
-- sim/execute.c: which bits tb0 and tb1 trap on.
use Prim.Native.Nat.{bit_and}
use g.Base.{
  ℕ, zero, suc, ◌/◌, ◌^◌, ◌≡◌, refl, ap, Bool, true, false, ◌==◌, ltb, ◌&&◌, not, if◌then◌else◌,
  arith,
}
use g.Base.Bits.{and_low, and_mask}
use native.Mathlib.Nat.{pow-succ', one-le-pow}
use g.Base.Digits.{test}
use g.Sim.Execute.{
  Decoded, Cpu, dispatch_next, gen_exception, return_pt, breakpoint, num, src1, sbr,
}
use g.Sim.Execute.Trap.{raise_trap, tb0, tb1}

one_bit : (k : ℕ) → 2 ^ suc k / 2 ≡ 2 ^ k
one_bit k = omega (arith, pow-succ' 2 k)

-- A word and one bit.
and_bit : (k w : ℕ) → bit_and w (2 ^ k) ≡ (if test k w then 2 ^ k else 0)
unfolding test
and_bit zero w = ground (arith, and_mask 1 w)
and_bit (suc k) w = ground (
  arith,
  and_low w (2 ^ suc k),
  pow-succ' 2 k,
  and_bit k (w / 2),
  ap (bit_and (w / 2)) (one_bit k),
)

bit_is_zero : (k w : ℕ) → (bit_and w (2 ^ k) == 0) ≡ not (test k w)
bit_is_zero k w = rw (and_bit k w) (ground (arith, one-le-pow k 2))

bit_is_one : (k w : ℕ) → (bit_and w (2 ^ k) == 1) ≡ test k w && k == 0
bit_is_one zero w = rw (and_bit 0 w) (ground arith)
bit_is_one (suc k) w = rw (and_bit (suc k) w) (ground (arith, pow-succ' 2 k, one-le-pow k 2))

if-not {ℓ} : {A : Type ℓ} (b : Bool) (x y : A) → (if not b then x else y) ≡ (if b then y else x)
if-not true x y = refl
if-not false x y = refl

-- For the mask of one bit and an empty scoreboard: tb0 goes on where the bit is set, and else
-- stops at a breakpoint trap or raises the trap, with a privilege violation for a user. tb1, which
-- compares the masked word with 1, traps only where the bit is set and is bit 0, and goes on where
-- any other bit is set.
pub tb0-tb1_trap :
    (usermode : Bool) (k vec : ℕ) (p : Decoded) (c : Cpu)
    → sbr c ≡ 0
    → p.dest ≡ num (2 ^ k)
    → p.s2 ≡ num vec
    → (tb0 usermode p c ≡ (
      if test k (src1 p c)
          then dispatch_next
          else if usermode && ltb vec 128
          then gen_exception 6
          else if vec == 254
          then return_pt breakpoint
          else gen_exception vec,
      c,
    ))
      × (tb1 usermode p c
          ≡ (if test k (src1 p c) && k == 0 then raise_trap usermode vec else dispatch_next, c))
unfolding tb0 tb1
tb0-tb1_trap usermode k vec p c hs hd hv = (
  rw (hs, hd, hv, bit_is_zero k (src1 p c)) (ap (λ e. (e, c)) (if-not (test k (src1 p c)) _ _)),
  rw (hs, hd, hv, bit_is_one k (src1 p c)) refl,
)
