-- ===== src/Sim/Execute/Arith/Differences.antt =====
-- sim/execute.c: the subtractions without a borrow in against differences of numbers.
use g.Base.{
  ℕ, ◌-◌, ◌%◌, ◌^◌, ◌≡◌, refl, Bool, true, false, leb, ◌&&◌, ◌||◌, not, if◌then◌else◌, arith,
}
use g.Base.Int.{ℤ, pos, negsuc, ◌-ℤ◌}
use g.Base.Words.{IsWord, sub32, to_int}
use g.Sim.Execute.{
  Decoded, Cpu, Ending, dispatch_next, gen_exception, src1, src2, set_dst, check_stack,
}
use g.Sim.Execute.Arith.{neg, sub_overflows, sub, sub_bo, subu, subu_bo}
use g.Sim.Execute.Arith.Sums.{in_range, with_carry}

-- The subtractions by their options: `traps` for `sub` and not `subu`, and borrow out.
pub data Subtraction : Type 0 where
  subtraction : (traps borrow_out : Bool) → Subtraction

abbrev pub subtract : Subtraction → Decoded → Cpu → Ending × Cpu
subtract (subtraction true false) = sub
subtract (subtraction true true) = sub_bo
subtract (subtraction false false) = subu
subtract (subtraction false true) = subu_bo

-- The difference modulo 2^32, from the integers that the operands stand for.
abbrev pub wrap : ℤ → ℕ
wrap (pos n) = n % 2 ^ 32
wrap (negsuc n) = 2 ^ 32 - 1 - n % 2 ^ 32

-- What a subtraction does, over the difference as an integer: the flag is no borrow, but whether
-- the first operand or the result is negative.
abbrev pub difference_of : Subtraction → Decoded → Cpu → Ending × Cpu
difference_of (subtraction traps borrow_out) p c =
    let x = src1 p c in
    let y = src2 p c in
    let d = wrap (to_int x -ℤ to_int y) in
    let stored = set_dst p d c in
    let flagged =
      (if borrow_out then with_carry (leb (2 ^ 31) x || leb (2 ^ 31) d) stored else stored) in
    if traps && not (in_range (to_int x -ℤ to_int y))
    then (gen_exception 9, flagged)
    else (if borrow_out then dispatch_next else check_stack flagged, flagged)

sub32_as_wrap : (x y : ℕ) → IsWord x → IsWord y → sub32 x y ≡ wrap (to_int x -ℤ to_int y)
sub32_as_wrap x y hx hy = ground arith

flag_iff :
    (x y d : ℕ)
    → IsWord x
    → neg x && neg x || neg d && (not (neg x) || not (neg y)) ≡ leb (2 ^ 31) x || leb (2 ^ 31) d
flag_iff x y d hx = ground arith

sub_overflows_iff :
    (x y : ℕ)
    → IsWord x
    → IsWord y
    → sub_overflows x y (wrap (to_int x -ℤ to_int y)) ≡ not (in_range (to_int x -ℤ to_int y))
sub_overflows_iff x y hx hy = ground arith

-- Each of the four subtractions without a borrow in, with its operands words, stores the difference
-- modulo 2^32. The two `sub` trap exactly where the difference of the integers is no `int`, and the
-- two `subu` do not trap for it. With a borrow out, the flag is set exactly where the first operand
-- or the result is negative, and without one it is left.
pub subtract-difference :
    (a : Subtraction) (p : Decoded) (c : Cpu)
    → IsWord (src1 p c)
    → IsWord (src2 p c)
    → subtract a p c ≡ difference_of a p c
unfolding sub sub_bo subu subu_bo
subtract-difference (subtraction true false) p c hx hy =
    rw (sub32_as_wrap _ _ hx hy, sub_overflows_iff _ _ hx hy) refl
subtract-difference (subtraction true true) p c hx hy =
    rw (sub32_as_wrap _ _ hx hy, sub_overflows_iff _ _ hx hy, flag_iff _ _ _ hx) refl
subtract-difference (subtraction false false) p c hx hy = rw (sub32_as_wrap _ _ hx hy) refl
subtract-difference (subtraction false true) p c hx hy =
    rw (sub32_as_wrap _ _ hx hy, flag_iff _ _ _ hx) refl
