-- ===== src/Break/Stop.antt =====
-- breakpoint.c: breakpoint_stop_status, with breakpoint_auto_delete and
-- clear_momentary_breakpoints. DECR_PC_AFTER_BREAK is 0 for this machine (m-m88k.h).
use g.Base.{
  ℕ, ◌+◌, ◌-◌, Bool, true, false, ◌&&◌, ◌||◌, not, Option, none, some, List, [], ◌∷◌, ◌==◌, ltb,
  if◌then◌else◌,
}
use g.Base.Int.{ℤ, pos, negsuc, eq_ℤ}
use g.Break.{Enable, CommandLine, Breakpoint, Chain, align, here}
use g.Break.Target.{Target}
use g.Break.Insert.{delete_breakpoint}

-- What the loop does at one breakpoint: it is elsewhere; it does not stop the program (`cont`
-- becomes -1); or it does, with the status and the commands that are left to run.
pub data Visit : Type 0 where
  elsewhere : Visit
  resume : Breakpoint → Visit
  halt : Breakpoint → ℤ → List CommandLine → Visit

abbrev pub hit_once : Enable → Enable
hit_once Enable.temporary = Enable.disabled
hit_once e = e

-- 0x1000000 added, or subtracted for a number that is not positive.
abbrev pub silenced : ℤ → ℤ
silenced (pos n) = if ltb 0 n then pos (0x1000000 + n) else negsuc (0x1000000 - 1)
silenced (negsuc n) = negsuc (n + 0x1000000)

abbrev pub starts_silent : List CommandLine → Bool
starts_silent (CommandLine.silent_line ∷ rest) = true
starts_silent rest = false

abbrev pub next_line : List CommandLine → List CommandLine
next_line [] = []
next_line (c ∷ rest) = rest

unfoldable pub stop_here : Breakpoint → Visit
stop_here b =
    let b' = record b { enable = hit_once b.enable } in
    if b.silent || starts_silent b.commands
    then Visit.halt b' (silenced b.number) (next_line b.commands)
    else Visit.halt b' b.number b.commands

abbrev pub cond_fails : (ℕ → Bool) → Option ℕ → Bool
cond_fails value_zero none = false
cond_fails value_zero (some e) = value_zero e

-- `value_zero e` is what catch_errors returns for the condition `e`.
unfoldable pub visit : (ℕ → Bool) → ℕ → ℕ → Breakpoint → Visit
unfolding stop_here
visit value_zero a frame_address b =
    if not (here a b)
    then Visit.elsewhere
    else if not (b.frame == 0) && not (b.frame == frame_address)
    then Visit.resume b
    else if cond_fails value_zero b.cond
    then Visit.resume b
    else if ltb 0 b.ignore_count
    then Visit.resume (record b { ignore_count = b.ignore_count - 1 })
    else stop_here b

-- The returned status, the chain after the loop, and the new `breakpoint_commands` if it is set.
pub record Stop : Type 0 where
  pub status : ℤ
  pub chain : Chain
  pub commands : Option (List CommandLine)

abbrev pub behind : Breakpoint → Stop → Stop
behind b s = record s { chain = b ∷ s.chain }

unfoldable pub stop_loop : (ℕ → Bool) → ℕ → ℕ → ℤ → Chain → Stop
stop_loop value_zero a fa cont [] = record { status = cont; chain = []; commands = none }
stop_loop value_zero a fa cont (b ∷ bs) = elim (visit value_zero a fa b) [
  | Visit.elsewhere ↦ behind b (stop_loop value_zero a fa cont bs)
  | Visit.resume b' ↦ behind b' (stop_loop value_zero a fa (negsuc 0) bs)
  | Visit.halt b' status commands ↦ record {
    status = status;
    chain = b' ∷ bs;
    commands = some commands;
  }
]

unfoldable pub breakpoint_stop_status : (ℕ → Bool) → ℕ → ℕ → Chain → Stop
breakpoint_stop_status value_zero pc fa chain = stop_loop value_zero (align pc) fa (pos 0) chain

-- The first breakpoint with a number, which the loops that look one up find.
unfoldable pub find_number : ℤ → Chain → Option Breakpoint
find_number n [] = none
find_number n (b ∷ bs) = let rest = find_number n bs in if eq_ℤ b.number n then some b else rest

abbrev pub deletes_on_hit : Enable → Bool
deletes_on_hit Enable.delete_on_hit = true
deletes_on_hit e = false

module _ (t : Target) where
  open t use {State}

  unfoldable pub clear_momentary_breakpoints : State → Chain → State × Chain
  clear_momentary_breakpoints m chain = elim (find_number (negsuc 2) chain) [
    | none ↦ (m, chain)
    | some b ↦ delete_breakpoint t b m chain
  ]

  delete_hit : ℤ → State → Chain → State × Chain
  delete_hit bnum m chain =
      if eq_ℤ bnum (pos 0) then (m, chain) else elim (find_number bnum chain) [
        | none ↦ (m, chain)
        | some b ↦ if deletes_on_hit b.enable then delete_breakpoint t b m chain else (m, chain)
      ]

  unfoldable pub breakpoint_auto_delete : List CommandLine → ℤ → State → Chain → State × Chain
  unfolding delete_hit
  breakpoint_auto_delete [] bnum m chain =
      let (m', chain') = delete_hit bnum m chain in clear_momentary_breakpoints m' chain'
  breakpoint_auto_delete (c ∷ cs) bnum m chain = delete_hit bnum m chain
