-- ===== src/Sim/Decoder/Tests.antt =====
-- sim/simdecode.c: the decoding of concrete words, and the run of what it makes.
use g.Base.{◌≡◌, refl, true, arith}
use g.Sim.Execute.{reg, lit, num, code, dummy_r0, Decoded, Cpu}
use g.Sim.Execute.Label as Label
use g.Sim.Execute.Label.{run}
use g.Sim.Execute.Label.Bounds.{IsCpu}
use g.Sim.Instr.{builddecodetable, instructions, push_all, pull, sim_instruction_lookup}
use g.Sim.Instr.Entry.{fix_r0}
use g.Sim.Decoder.{operands, fix, decode_word}
use g.Sim.Decoder.Safe.{format, intrl_format, run-fix-IsCpu}

abbrev blank : Decoded
blank = record { dest = num 0; s1 = num 0; s2 = num 0 }

-- and r2,r3,0x1234
and_literal :
    (decode_word (λ a. true) 0x40431234 0x1000 ("not_decoded", blank) builddecodetable).0
    ≡ ("and", record { dest = reg 2; s1 = reg 3; s2 = lit 0xffff1234 })
unfolding decode_word sim_instruction_lookup builddecodetable instructions push_all pull operands
    fix
and_literal = refl

-- add r0,r1,1
add_to_r0 :
    (decode_word (λ a. true) 0x70010001 0x1000 ("not_decoded", blank) builddecodetable).0
    ≡ ("add", record { dest = dummy_r0; s1 = reg 1; s2 = lit 1 })
unfolding decode_word sim_instruction_lookup builddecodetable instructions push_all pull operands
    fix
add_to_r0 = refl

-- br to the instruction before it, on its page
br_back :
    (decode_word (λ a. true) 0xc3ffffff 0x1004 ("not_decoded", blank) builddecodetable).0
    ≡ ("br", record { dest = num 0; s1 = num 0; s2 = code 0x1000 })
unfolding decode_word sim_instruction_lookup builddecodetable instructions push_all pull operands
    fix
br_back = refl

abbrev zeros : Cpu
zeros = record { regs = λ n. 0; sfu0_regs = λ n. 0; sfu1_regs = λ n. 0; dummy = 0 }

run-fix-IsCpu_example :
    IsCpu
      (run 32
        (λ w k. 0)
        true
        Label.add
        (fix fix_r0 (operands (λ a. true) (format intrl_format) "add" 0x70010001 0x1000 blank).1)
        zeros).1
run-fix-IsCpu_example =
    run-fix-IsCpu 32 (λ w k. 0) true (omega arith) (λ w k. omega arith) (λ a. true) intrl_format
      fix_r0 Label.add "add" 0x70010001 0x1000 blank zeros (λ e. cc)
      (record {
        regs_word = λ n. omega arith;
        sfu0_word = λ n. omega arith;
        sfu1_word = λ n. omega arith;
        dummy_word = omega arith;
        r0_zero = refl;
      })
