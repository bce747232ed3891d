-- ===== src/Sim/Execute/Branch/Conditions.antt =====
-- sim/execute.c and sim/simdecode.c: the conditions of bcnd and tcnd.
use Prim.Native.Nat.{bit_and, bit_or}
use g.Base.{
  ℕ, ◌+◌, ◌/◌, ◌%◌, ◌^◌, ◌≡◌, refl, Bool, true, false, ◌==◌, leb, if◌then◌else◌, some, arith,
}
use g.Base.Bits.{and_mask, and_low}
use g.Base.Words.{IsWord}
use g.Sim.Execute.{Decoded, Cpu, dispatch_next, take_branch, take_delayed_branch, num, src1}
use g.Sim.Execute.Branch.{
  Bcnd, bcnd_eq0, bcnd_ne0, bcnd_gt0, bcnd_lt0, bcnd_ge0, bcnd_le0, noop, bcnd_4, bcnd_5, bcnd_6,
  bcnd_7, bcnd_8, bcnd_9, bcnd_10, bcnd_11, bcnd_always, holds, bcnd_entry, bcnd, bcnd_n,
}
use g.Sim.Execute.Trap.{cc_index, raise_trap, tcnd}

-- The class of a word: 2 more for the sign, and 1 more where the other bits are zero.
abbrev pub class : ℕ → ℕ
class w = (if leb (2 ^ 31) w then 2 else 0) + (if w % 2 ^ 31 == 0 then 1 else 0)

sign_bit : (w : ℕ) → IsWord w → bit_and (w / 2 ^ 30) 2 ≡ (if leb (2 ^ 31) w then 2 else 0)
sign_bit w h = ground (arith, and_low (w / 2 ^ 30) 2, and_mask 1 (w / 2 ^ 30 / 2))

two_bits :
    (x y : Bool)
    → bit_or (if x then 2 else 0) (if y then 1 else 0) ≡ (if x then 2 else 0) + (if y then 1 else 0)
two_bits true true = refl
two_bits true false = refl
two_bits false true = refl
two_bits false false = refl

cc_index_lem : (w : ℕ) → IsWord w → cc_index w ≡ class w
cc_index_lem w h = rw (sign_bit w h, and_mask 31 w) (two_bits (leb (2 ^ 31) w) (w % 2 ^ 31 == 0))

mask_of : Bcnd → ℕ
mask_of bcnd_eq0 = 2
mask_of bcnd_ne0 = 13
mask_of bcnd_gt0 = 1
mask_of bcnd_lt0 = 12
mask_of bcnd_ge0 = 3
mask_of bcnd_le0 = 14
mask_of noop = 0
mask_of bcnd_4 = 4
mask_of bcnd_5 = 5
mask_of bcnd_6 = 6
mask_of bcnd_7 = 7
mask_of bcnd_8 = 8
mask_of bcnd_9 = 9
mask_of bcnd_10 = 10
mask_of bcnd_11 = 11
mask_of bcnd_always = 15

entry-mask : (m : ℕ) (b : Bcnd) → bcnd_entry m ≡ some b → m ≡ mask_of b
unfolding bcnd_entry mask_of
entry-mask m b h = ground arith

-- A condition on the class of a word.
holds-class : (b : Bcnd) (w : ℕ) → IsWord w → holds b w ≡ (mask_of b / 2 ^ class w % 2 == 1)
unfolding holds mask_of
holds-class bcnd_eq0 w h = ground (arith)
holds-class bcnd_ne0 w h = ground (arith)
holds-class bcnd_gt0 w h = ground (arith)
holds-class bcnd_lt0 w h = ground (arith)
holds-class bcnd_ge0 w h = ground (arith)
holds-class bcnd_le0 w h = ground (arith)
holds-class noop w h = ground (arith)
holds-class bcnd_4 w h = ground (arith)
holds-class bcnd_5 w h = ground (arith, and_mask 31 w)
holds-class bcnd_6 w h = ground (arith)
holds-class bcnd_7 w h = ground (arith)
holds-class bcnd_8 w h = ground (arith)
holds-class bcnd_9 w h = ground (arith)
holds-class bcnd_10 w h = ground (arith, and_mask 31 w)
holds-class bcnd_11 w h = ground (arith)
holds-class bcnd_always w h = ground (arith)

-- Whether a condition field selects the class of a word.
abbrev pub selects : ℕ → ℕ → Bool
selects m w = m / 2 ^ class w % 2 == 1

-- For a condition field that the table has a bcnd for, and an operand that is a word: bcnd branches,
-- bcnd.n branches with a delay, and tcnd with the same field traps, each exactly where the field
-- selects the class of the operand by its sign and by whether its other bits are zero.
pub bcnd-tcnd_agree :
    (m vec : ℕ) (b : Bcnd) (usermode : Bool) (p : Decoded) (c : Cpu)
    → IsWord (src1 p c)
    → bcnd_entry m ≡ some b
    → (bcnd b p c ≡ (if selects m (src1 p c) then take_branch else dispatch_next, c))
      × (bcnd_n b p c ≡ (if selects m (src1 p c) then take_delayed_branch else dispatch_next, c))
      × (tcnd usermode (record { dest = num m; s1 = p.s1; s2 = num vec }) c
          ≡ (if selects m (src1 p c) then raise_trap usermode vec else dispatch_next, c))
unfolding bcnd bcnd_n tcnd
bcnd-tcnd_agree m vec b usermode p c hw h = (
  rw (entry-mask m b h, holds-class b (src1 p c) hw) refl,
  rw (entry-mask m b h, holds-class b (src1 p c) hw) refl,
  rw (cc_index_lem (src1 p c) hw) refl,
)
