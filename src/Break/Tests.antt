-- ===== src/Break/Tests.antt =====
-- breakpoint.c: runs on a small memory, and each theorem at such an input.
use g.Base.{ℕ, ◌+◌, ◌≡◌, refl, true, false, ◌&&◌, [], ◌∷◌, ◌==◌, ltb, if◌then◌else◌, arith}
use g.Base.Int.{pos, eq_ℤ}
use g.Break.{Enable, Breakpoint, Chain, align, breakpoint_here_p}
use g.Break.Chain.{
  SymtabAndLine, set_raw_breakpoint, set_enable, raw_breakpoint, check_duplicates, mark,
}
use g.Break.Target.{Target}
use g.Break.Insert.{
  insert_breakpoints, remove_breakpoints, delete_breakpoint, break_insn, insert_one, remove_one,
}
use g.Break.Marks.{IsMarked, set_raw_breakpoint-IsMarked, set_enable-IsMarked}
use g.Break.Restore.{IsOut}
use g.Break.Program.{
  insert_breakpoints-reads, remove-insert, once-hides-others, delete_breakpoint-IsMarked,
}
use g.Break.Stop.{breakpoint_stop_status}
use g.Break.Status.{breakpoint_stop_status-zero}

abbrev write_word : (ℕ → ℕ) → ℕ → ℕ → ℕ × (ℕ → ℕ)
write_word s a v = if ltb a 0x8000 then (0, λ b. if a == b then v else s b) else (14, s)

write_word-reads :
    (s : ℕ → ℕ) (a b v : ℕ)
    → align a ≡ a
    → align b ≡ b
    → (write_word s a v).1 b ≡ (if (write_word s a v).0 == 0 && a == b then v else s b)
write_word-reads s a b v ha hb = ground arith

-- Words below 0x8000 can be written; a write above it fails with EFAULT.
abbrev memory : Target
memory = record {
  State = ℕ → ℕ;
  read_memory = λ s a. s a;
  write_memory = write_word;
  read-write = write_word-reads;
}

abbrev sal : ℕ → SymtabAndLine
sal pc = record { symtab = 1; line = 7; pc = pc }

abbrev text : ℕ → ℕ
text a = a + 1

IsMarked-nil : IsMarked []
IsMarked-nil = record { marks = λ a. tt; aligned = tt }

-- Two breakpoints at one address: the second is a duplicate.
abbrev pair : Chain
pair = set_raw_breakpoint 200 (sal 0x1002) (set_raw_breakpoint 100 (sal 0x1000) [])

pair-IsOut : IsOut pair
unfolding set_raw_breakpoint check_duplicates mark
pair-IsOut = (refl, (refl, tt))

set_raw_breakpoint-IsMarked_example : IsMarked pair
set_raw_breakpoint-IsMarked_example =
    set_raw_breakpoint-IsMarked 200 (sal 0x1002) (set_raw_breakpoint 100 (sal 0x1000) [])
      (set_raw_breakpoint-IsMarked 100 (sal 0x1000) [] IsMarked-nil)

-- tbreak, and then break at the same place
abbrev once : Breakpoint
once = record (raw_breakpoint 100 (sal 0x1000)) { number = pos 1; enable = Enable.temporary }

abbrev other : Breakpoint
other = record (raw_breakpoint 200 (sal 0x1000)) { number = pos 2; duplicate = true }

abbrev both : Chain
both = once ∷ other ∷ []

both-IsMarked : IsMarked both
both-IsMarked = record {
  marks = λ a. ((λ h. refl), ((λ h. ground arith), tt));
  aligned = (refl, (refl, tt));
}

chain_after_disabling : IsMarked (set_enable Enable.disabled once both)
chain_after_disabling =
    set_enable-IsMarked Enable.disabled once both
      (record { points = ((λ e. refl), ((λ e. refl), tt)); aligned = refl }) both-IsMarked

chain_after_deletion : IsMarked (delete_breakpoint memory once text both).1
chain_after_deletion =
    delete_breakpoint-IsMarked memory once text both
      (record { points = ((λ e. refl), ((λ e. refl), tt)); aligned = refl }) both-IsMarked

insert_breakpoints-reads_example :
    (insert_breakpoints memory (break_insn true) text both).1 0x1000 ≡ 0xf000d0fe
unfolding breakpoint_here_p insert_breakpoints insert_one
insert_breakpoints-reads_example =
    insert_breakpoints-reads memory (break_insn true) text both 0x1003 both-IsMarked
      (refl, (refl, tt)) refl

-- The second breakpoint cannot be written, so insertion stops half-way.
abbrev half : Chain
half = once ∷ record other { address = 0x9000; duplicate = false } ∷ []

half-IsMarked : IsMarked half
half-IsMarked = record {
  marks = λ a. ((λ h. refl), ((λ h. ground arith), tt));
  aligned = (refl, (refl, tt));
}

half-fails : (insert_breakpoints memory (break_insn true) text half).0 ≡ 14
unfolding insert_breakpoints insert_one
half-fails = refl

remove-insert_example :
    let r = insert_breakpoints memory (break_insn true) text half in
    let s = remove_breakpoints memory r.1 r.2 in
    ((a : ℕ) → align a ≡ a → s.1 a ≡ text a) × IsOut s.2
unfolding insert_breakpoints insert_one remove_breakpoints remove_one
remove-insert_example =
    remove-insert memory (break_insn true) text half half-IsMarked (refl, (refl, tt)) refl

once-hides-others_example :
    let chain = (breakpoint_stop_status (λ e. false) 0x1000 0 both).chain in
    (breakpoint_here_p chain 0x1000 ≡ true)
    × ((insert_breakpoints memory (break_insn true) text chain).1 0x1000 ≡ 0x1001)
unfolding breakpoint_here_p
once-hides-others_example =
    once-hides-others memory (λ e. false) 0x1000 0 (break_insn true) text once (other ∷ [])
      (record { at = refl; once = refl; any_frame = refl; uncond = refl; counted = refl })
      both-IsMarked (refl, (refl, tt)) refl

stops_here : eq_ℤ (breakpoint_stop_status (λ e. false) 0x1000 0 both).status (pos 0) ≡ false
unfolding breakpoint_here_p
stops_here = breakpoint_stop_status-zero (λ e. false) 0x1000 0 both (refl, (refl, tt))
