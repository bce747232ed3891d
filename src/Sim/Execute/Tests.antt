-- ===== src/Sim/Execute/Tests.antt =====
-- sim/execute.c: instructions on concrete registers.
use g.Base.{ℕ, ◌+◌, ◌<◌, ◌≡◌, refl, true, false, ◌==◌, if◌then◌else◌, none, some, arith, ◌⊎◌}
use g.Base.Digits.{test}
use g.Sim.Cmmu.{supervisor}
use g.Sim.Execute.{
  Operand, reg, lit, num, code, Decoded, Cpu, dispatch_next, take_branch, take_delayed_branch,
  gen_exception, set_dst,
}
use g.Sim.Execute.Arith.{compare_word, add_co}
use g.Sim.Execute.Arith.Sums.{addition, execute, sum_of, execute-sum}
use g.Sim.Execute.Arith.Differences.{subtraction, subtract, difference_of, subtract-difference}
use g.Sim.Execute.Arith.Compare.{relations, compare_word-relations}
use g.Sim.Execute.Field.{cleared, filled, extracted, made, extended, ff0, ff1}
use g.Sim.Execute.Field.Find.{Finds, ff1-ff0_find}
use g.Sim.Execute.Field.Sign.{fields-places}
use g.Sim.Execute.Branch.{bcnd_entry, bcnd, bcnd_n, bcnd_6}
use g.Sim.Execute.Branch.Conditions.{bcnd-tcnd_agree}
use g.Sim.Execute.Trap.{tb0, tb1, tcnd}
use g.Sim.Execute.Trap.Bits.{tb0-tb1_trap}
use g.Sim.Execute.Machine.{Code, Machine, dispatch, disp_after_br}
use g.Sim.Execute.Exception.{gen_exception_without_check}
use g.Sim.Execute.Exception.Return.{Resumed, handled, rte-gen_exception_without_check}
use g.Sim.Execute.Rte.{rte}
use g.Sim.Execute.Flow.{follow}
use g.Sim.Execute.Flow.Delay.{follow-delayed}
use g.Sim.Execute.Label.{run}
use g.Sim.Execute.Label as Label
use g.Sim.Execute.Label.Bounds.{IsCpu}
use g.Sim.Execute.Label.Invariant.{run-IsCpu}

-- r1 is the greatest `int` and r2 is -1.
abbrev cpu : Cpu
cpu = record {
  regs = λ n. if n == 1 then 0x7fffffff else if n == 2 then 0xffffffff else 0;
  sfu0_regs = λ n. if n == 1 then 0x800003f0 else 0;
  sfu1_regs = λ n. 0;
  dummy = 0;
}

abbrev three_from : Operand → Operand → Decoded
three_from a b = record { dest = reg 3; s1 = a; s2 = b }

sum_wraps : (add_co (three_from (reg 2) (lit 2)) cpu).1.regs 3 ≡ 1
unfolding add_co
sum_wraps = refl

execute-sum_example :
    execute (addition true false true) (three_from (reg 1) (lit 1)) cpu
    ≡ sum_of (addition true false true) (three_from (reg 1) (lit 1)) cpu
execute-sum_example =
    execute-sum (addition true false true) (three_from (reg 1) (lit 1)) cpu (omega arith)
      (omega arith)

subtract-difference_example :
    subtract (subtraction true true) (three_from (reg 2) (reg 1)) cpu
    ≡ difference_of (subtraction true true) (three_from (reg 2) (reg 1)) cpu
subtract-difference_example =
    subtract-difference (subtraction true true) (three_from (reg 2) (reg 1)) cpu (omega arith)
      (omega arith)

compare_word-relations_example : compare_word 0xffffffff 1 ≡ relations 0xffffffff 1
compare_word-relations_example = compare_word-relations 0xffffffff 1 (omega arith) (omega arith)

fields-places_example :
    (test 9 (cleared 0x280 0x84) ≡ true)
    × (test 9 (filled 0x280 0x84) ≡ true)
    × (test 9 (extracted 0x280 0x84) ≡ false)
    × (test 9 (made 0x280 0x84) ≡ false)
    × ((32 < 8) ⊎ (test 9 (extended (λ w k. 0) 0x280 0x84) ≡ true))
unfolding test
fields-places_example = fields-places (λ w k. 0) 0x280 0x84 9 (omega arith) (omega arith)

ff1-ff0_find_example :
    ((r : ℕ) × (ff1 (three_from (reg 0) (reg 1)) cpu
        ≡ (dispatch_next, set_dst (three_from (reg 0) (reg 1)) r cpu))
      × Finds 0x7fffffff r)
    × ((r : ℕ) × (ff0 (three_from (reg 0) (reg 1)) cpu
          ≡ (dispatch_next, set_dst (three_from (reg 0) (reg 1)) r cpu))
        × Finds 0x80000000 r)
ff1-ff0_find_example = ff1-ff0_find (three_from (reg 0) (reg 1)) cpu (omega arith)

bcnd-tcnd_agree_example :
    (bcnd bcnd_6 (three_from (reg 2) (code 0x1000)) cpu ≡ (take_branch, cpu))
    × (bcnd_n bcnd_6 (three_from (reg 2) (code 0x1000)) cpu ≡ (take_delayed_branch, cpu))
    × (tcnd false (record { dest = num 6; s1 = reg 2; s2 = num 130 }) cpu
        ≡ (gen_exception 130, cpu))
unfolding bcnd_entry
bcnd-tcnd_agree_example =
    bcnd-tcnd_agree 6 130 bcnd_6 false (three_from (reg 2) (code 0x1000)) cpu (omega arith) refl

tb0-tb1_trap_example :
    (tb0 false (record { dest = num 0x10; s1 = reg 2; s2 = num 130 }) cpu ≡ (dispatch_next, cpu))
    × (tb1 false (record { dest = num 0x10; s1 = reg 2; s2 = num 130 }) cpu ≡ (dispatch_next, cpu))
unfolding test
tb0-tb1_trap_example =
    tb0-tb1_trap false 4 130 (record { dest = num 0x10; s1 = reg 2; s2 = num 130 }) cpu refl refl
      refl

-- Code that is mapped everywhere.
abbrev mapped : Code
mapped = record { State = ℕ; l_to_d = λ mode a s. (true, s + 1) }

abbrev machine : Machine ℕ
machine = record {
  cpu = cpu;
  usmode = supervisor;
  ip = 0x1000;
  p = 0x1000;
  delayed_ip = 0x2000;
  delayed_p = none;
  r_delayed_p = some (num 0);
  comefrom = 0;
  sim_exception = none;
  sim_catch_exception = λ mode ex. false;
  code = 0;
  wild = 0;
}

rte-gen_exception_without_check_example :
    ((gen_exception_without_check mapped false 7 machine).0 ≡ dispatch)
    × Resumed mapped
        (λ mode a s. refl)
        0x800003f0
        0x2000
        (λ n. 0)
        (rte mapped false false (
          handled mapped
            (λ mode a s. refl)
            (λ n. 0)
            0x40
            (gen_exception_without_check mapped false 7 machine).1))
rte-gen_exception_without_check_example =
    rte-gen_exception_without_check mapped (λ mode a s. refl) false 7 machine (λ n. 0) 0x40 refl
      (omega arith) (omega arith) refl

abbrev branch_back : Decoded
branch_back = record { dest = num 0xfffffff0; s1 = reg 0; s2 = num 0 }

follow-delayed_example :
    let m1 = (follow mapped (λ o. 0) false take_delayed_branch branch_back machine).1 in
    let r = follow mapped (λ o. 0) false dispatch_next branch_back (record m1 { cpu = cpu }) in
    ((follow mapped (λ o. 0) false take_delayed_branch branch_back machine).0 ≡ dispatch)
    × (m1.p ≡ 0x1004)
    × (r.0 ≡ disp_after_br)
    × (r.1.p ≡ 0xff0)
    × (r.1.r_delayed_p ≡ none)
follow-delayed_example =
    follow-delayed mapped (λ o. 0) false (λ mode a s. refl) branch_back branch_back machine cpu

abbrev zeros : Cpu
zeros = record { regs = λ n. 0; sfu0_regs = λ n. 0; sfu1_regs = λ n. 0; dummy = 0 }

run-IsCpu_example :
    IsCpu (run 32 (λ w k. 0) true Label.sub_bio (three_from (lit 1) (lit 2)) zeros).1
run-IsCpu_example =
    run-IsCpu 32 (λ w k. 0) true (omega arith) (λ w k. omega arith) Label.sub_bio
      (three_from (lit 1) (lit 2)) zeros
      (record {
        destination = (omega arith, omega arith);
        first = omega arith;
        second = omega arith;
      })
      (record {
        regs_word = λ n. omega arith;
        sfu0_word = λ n. omega arith;
        sfu1_word = λ n. omega arith;
        dummy_word = omega arith;
        r0_zero = refl;
      })
