-- ===== src/Break/Insert.antt =====
-- breakpoint.c: insert_breakpoints, remove_breakpoints, mark_breakpoints_out and
-- delete_breakpoint, over any target memory.
use g.Base.{ℕ, Bool, true, false, ◌&&◌, not, [], ◌∷◌, ◌==◌, if◌then◌else◌}
use g.Break.{Breakpoint, Chain, is_enabled}
use g.Break.Chain.{check_duplicates, unlink}
use g.Break.Target.{Target}

-- break_insn and remote_break_insn, as the words that their four bytes make.
abbrev pub break_insn : Bool → ℕ
break_insn remote_debugging = if remote_debugging then 0xf000d0fe else 0xf000d081

unfoldable pub mark_breakpoints_out : Chain → Chain
mark_breakpoints_out [] = []
mark_breakpoints_out (b ∷ bs) = record b { inserted = false } ∷ mark_breakpoints_out bs

abbrev pub wanted : Breakpoint → Bool
wanted b = is_enabled b.enable && not b.inserted && not b.duplicate

module _ (t : Target) where
  open t use {State, read_memory, write_memory}

  -- One round of insert_breakpoints: `errno`, the memory and the breakpoint after it.
  unfoldable pub insert_one : ℕ → State → Breakpoint → ℕ × State × Breakpoint
  insert_one insn m b =
      if wanted b
      then (let (val, m') = write_memory m b.address insn in
          let b' = record b { shadow_contents = read_memory m b.address } in
          (val, m', (if val == 0 then record b' { inserted = true } else b')))
      else (0, m, b)

  unfoldable pub insert_breakpoints : ℕ → State → Chain → ℕ × State × Chain
  insert_breakpoints insn m [] = (0, m, [])
  insert_breakpoints insn m (b ∷ bs) =
      let (val, m', b') = insert_one insn m b in
      let rest = insert_breakpoints insn m' bs in
      if val == 0 then (rest.0, rest.1, b' ∷ rest.2) else (val, m', b' ∷ bs)

  unfoldable pub remove_one : State → Breakpoint → ℕ × State × Breakpoint
  remove_one m b =
      if b.inserted
      then (let (val, m') = write_memory m b.address b.shadow_contents in
          (val, m', (if val == 0 then record b { inserted = false } else b)))
      else (0, m, b)

  unfoldable pub remove_breakpoints : State → Chain → ℕ × State × Chain
  remove_breakpoints m [] = (0, m, [])
  remove_breakpoints m (b ∷ bs) =
      let (val, m', b') = remove_one m b in
      let rest = remove_breakpoints m' bs in
      if val == 0 then (rest.0, rest.1, b' ∷ rest.2) else (val, m', b' ∷ bs)

  -- Where the breakpoint is inserted, its word is written back first. The freeing of the structure
  -- and the reset of the numbering, where no breakpoint is left, are left out.
  unfoldable pub delete_breakpoint : Breakpoint → State → Chain → State × Chain
  delete_breakpoint bpt m chain =
      let m' = (if bpt.inserted then (write_memory m bpt.address bpt.shadow_contents).1 else m) in
      (m', check_duplicates bpt.address (unlink bpt.self chain))
