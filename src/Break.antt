-- ===== src/Break.antt =====
-- breakpoint.c: the chain of breakpoints, and the operations that insert and remove their
-- instructions in the program that is debugged. A breakpoint is known by the address of its
-- structure, `self`, which is what a pointer to it is compared by.
pub mod Chain
pub mod Target
pub mod Insert
pub mod Stop
pub mod Marks
pub mod Restore
pub mod Program
pub mod Status
mod Tests
use g.Base.{
  ℕ, zero, suc, ◌+◌, ◌-◌, ◌*◌, ◌/◌, ◌%◌, ◌≡◌, ◌≢◌, Bool, true, false, ◌&&◌, ◌||◌, not, Option, none,
  some, List, [], ◌∷◌, ◌++◌, ◌==◌, leb, ltb, if◌then◌else◌,
}
use g.Base.Int.{ℤ, pos, negsuc, eq_ℤ}

-- `enum enable`; `delete` is `delete_on_hit` here, since the operation has the name.
pub data Enable : Type 0 where
  disabled enabled temporary delete_on_hit : Enable

abbrev pub is_enabled : Enable → Bool
is_enabled Enable.disabled = false
is_enabled Enable.enabled = true
is_enabled Enable.temporary = true
is_enabled Enable.delete_on_hit = true

-- A `struct command_line`, as far as the stop code reads it.
pub data CommandLine : Type 0 where
  silent_line : CommandLine
  other_line : ℕ → CommandLine

pub record Breakpoint : Type 0 where
  pub self : ℕ
  pub number : ℤ
  pub address : ℕ
  pub line_number : ℕ
  pub symtab : ℕ
  pub enable : Enable
  pub silent : Bool
  pub ignore_count : ℕ
  pub shadow_contents : ℕ
  pub inserted : Bool
  pub duplicate : Bool
  pub commands : List CommandLine
  pub frame : ℕ
  pub cond : Option ℕ

abbrev pub Chain : Type 0
Chain = List Breakpoint

-- `pc & ~3`
abbrev pub align : ℕ → ℕ
align pc = pc / 4 * 4

abbrev pub here : ℕ → Breakpoint → Bool
here a b = is_enabled b.enable && b.address == a

pub breakpoint_here_p : Chain → ℕ → Bool
breakpoint_here_p [] pc = false
breakpoint_here_p (b ∷ bs) pc = here (align pc) b || breakpoint_here_p bs pc
