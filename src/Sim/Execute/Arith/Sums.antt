-- ===== src/Sim/Execute/Arith/Sums.antt =====
-- sim/execute.c: the eight additions against sums of numbers.
use g.Base.{
  ℕ, ◌+◌, ◌-◌, ◌/◌, ◌%◌, ◌^◌, ◌<◌, ◌≡◌, refl, Bool, true, false, leb, ◌&&◌, ◌||◌, not,
  if◌then◌else◌, arith,
}
use g.Base.Int.{ℤ, pos, negsuc, ◌+ℤ◌, ltb_ℤ}
use g.Base.Bits.{and-div, or-div, and_low, or_low}
use g.Base.Words.{IsWord, to_int}
use g.Sim.Execute.{
  Decoded, Cpu, Ending, dispatch_next, gen_exception, src1, src2, set_dst, carry_bit, set_carry,
  zero_carry, check_stack,
}
use g.Sim.Execute.Arith.{
  both_neg, both_pos, neg, add_overflows, add, add_co, add_ci, add_cio, addu, addu_co, addu_ci,
  addu_cio,
}

-- Whether an integer is an `int`.
abbrev pub in_range : ℤ → Bool
in_range n = not (ltb_ℤ n (negsuc (2 ^ 31 - 1))) && ltb_ℤ n (pos (2 ^ 31))

top_bit : (w : ℕ) → IsWord w → w / 2 ^ 31 ≡ (if neg w then 1 else 0)
top_bit w h = ground arith

both_neg_iff : (x y : ℕ) → IsWord x → IsWord y → both_neg x y ≡ neg x && neg y
both_neg_iff x y hx hy = ground (arith, and-div 31 x y, and_low (x / 2 ^ 31) (y / 2 ^ 31))

both_pos_iff : (x y : ℕ) → IsWord x → IsWord y → both_pos x y ≡ not (neg x) && not (neg y)
both_pos_iff x y hx hy = ground (arith, or-div 31 x y, or_low (x / 2 ^ 31) (y / 2 ^ 31))

-- The additions, by their options in the assembler: `traps` for `add` and not `addu`, carry in and
-- carry out.
pub data Addition : Type 0 where
  addition : (traps carry_in carry_out : Bool) → Addition

abbrev pub execute : Addition → Decoded → Cpu → Ending × Cpu
execute (addition true false false) = add
execute (addition true false true) = add_co
execute (addition true true false) = add_ci
execute (addition true true true) = add_cio
execute (addition false false false) = addu
execute (addition false false true) = addu_co
execute (addition false true false) = addu_ci
execute (addition false true true) = addu_cio

abbrev pub with_carry : Bool → Cpu → Cpu
with_carry b c = if b then set_carry c else zero_carry c

-- What an addition does, over the sum as a number and as an integer: the sum modulo 2^32 is
-- stored; with a carry out, the carry is whether the sum is 2^32 or more; and an addition that traps
-- does so where the integers that the operands stand for have a sum that is no `int`.
abbrev pub sum_of : Addition → Decoded → Cpu → Ending × Cpu
sum_of (addition traps carry_in carry_out) p c =
    let x = src1 p c in
    let y = src2 p c in
    let k = (if carry_in then carry_bit c else 0) in
    let stored = set_dst p ((x + y + k) % 2 ^ 32) c in
    let flagged = (if carry_out then with_carry (leb (2 ^ 32) (x + y + k)) stored else stored) in
    if traps && not (in_range (to_int x +ℤ to_int y +ℤ pos k))
    then (gen_exception 9, flagged)
    else (if carry_in || carry_out then dispatch_next else check_stack flagged, flagged)

carry_iff :
    (x y k : ℕ)
    → IsWord x
    → IsWord y
    → k < 2
    → both_neg x y || not (neg ((x + y + k) % 2 ^ 32)) && not (both_pos x y)
      ≡ leb (2 ^ 32) (x + y + k)
carry_iff x y k hx hy hk = rw (both_neg_iff x y hx hy, both_pos_iff x y hx hy) (ground arith)

overflows_iff :
    (x y k : ℕ)
    → IsWord x
    → IsWord y
    → k < 2
    → add_overflows x y ((x + y + k) % 2 ^ 32) ≡ not (in_range (to_int x +ℤ to_int y +ℤ pos k))
overflows_iff x y k hx hy hk = rw (both_neg_iff x y hx hy, both_pos_iff x y hx hy) (ground arith)

-- The same without a carry in.
plus_zero : (n : ℕ) → n + 0 ≡ n
plus_zero n = omega arith

plain_carry_iff :
    (x y : ℕ)
    → IsWord x
    → IsWord y
    → both_neg x y || not (neg ((x + y) % 2 ^ 32)) && not (both_pos x y) ≡ leb (2 ^ 32) (x + y)
plain_carry_iff x y hx hy = rw (both_neg_iff x y hx hy, both_pos_iff x y hx hy) (ground arith)

plain_overflows_iff :
    (x y : ℕ)
    → IsWord x
    → IsWord y
    → add_overflows x y ((x + y) % 2 ^ 32) ≡ not (in_range (to_int x +ℤ to_int y +ℤ pos 0))
plain_overflows_iff x y hx hy = rw (both_neg_iff x y hx hy, both_pos_iff x y hx hy) (ground arith)

carry_bit-lt : (c : Cpu) → carry_bit c < 2
carry_bit-lt c = omega arith

-- Each of the eight additions, with its operands words, stores the sum of the operands, with the carry
-- where it takes one in, modulo 2^32. The four with a carry out set the carry exactly where that sum is
-- 2^32 or more, and the others leave it. The four `add` trap exactly where the integers that the
-- operands stand for, with the carry taken in, have a sum that is no `int`; the four `addu` do not
-- trap for it.
pub execute-sum :
    (a : Addition) (p : Decoded) (c : Cpu)
    → IsWord (src1 p c)
    → IsWord (src2 p c)
    → execute a p c ≡ sum_of a p c
unfolding add add_co add_ci add_cio addu addu_co addu_ci addu_cio
execute-sum (addition true false false) p c hx hy =
    rw (plain_overflows_iff _ _ hx hy, plus_zero (src1 p c + src2 p c)) refl
execute-sum (addition true false true) p c hx hy =
    rw (plain_carry_iff _ _ hx hy, plain_overflows_iff _ _ hx hy, plus_zero (src1 p c + src2 p c))
      refl
execute-sum (addition true true false) p c hx hy =
    rw (overflows_iff _ _ _ hx hy (carry_bit-lt c)) refl
execute-sum (addition true true true) p c hx hy =
    rw (carry_iff _ _ _ hx hy (carry_bit-lt c), overflows_iff _ _ _ hx hy (carry_bit-lt c)) refl
execute-sum (addition false false false) p c hx hy = rw (plus_zero (src1 p c + src2 p c)) refl
execute-sum (addition false false true) p c hx hy =
    rw (plain_carry_iff _ _ hx hy, plus_zero (src1 p c + src2 p c)) refl
execute-sum (addition false true false) p c hx hy = refl
execute-sum (addition false true true) p c hx hy = rw (carry_iff _ _ _ hx hy (carry_bit-lt c)) refl
