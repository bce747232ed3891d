-- ===== src/Sim/Execute/Machine.antt =====
-- sim/execute.c: the state of `sim` around an instruction: the instruction pointers, the mode, the
-- delayed branch and the exception that is pending. `p` is the address of the instruction that it
-- points to, which the macro IP computes.
use g.Base.{ℕ, Bool, Option}
use g.Sim.Cmmu.{Mode}
use g.Sim.Execute.{Operand, Cpu, Cause}

-- What `sim` asks of l_to_d (sim/misc.c): whether a logical address of code has a decoded
-- instruction in the mode, which it finds by a translation.
pub record Code : Type 1 where
  pub State : Type 0
  pub l_to_d : Mode → ℕ → State → Bool × State

-- `delayed_p` and `r_delayed_p` are none for a null pointer, and else the field `s2` of the branch
-- that they point to. `wild` is what IP computes to from a null `p`.
pub record Machine (S : Type 0) : Type 0 where
  pub cpu : Cpu
  pub usmode : Mode
  pub ip : ℕ
  pub p : ℕ
  pub delayed_ip : ℕ
  pub delayed_p : Option Operand
  pub r_delayed_p : Option Operand
  pub comefrom : ℕ
  pub sim_exception : Option ℕ
  pub sim_catch_exception : Mode → ℕ → Bool
  pub code : S
  pub wild : ℕ

-- How `sim` goes on: DISPATCH, DISP_AFTER_BR, a jump to return_pt or to return_with_exception with
-- the cause, or the call `sim(1)` before `goto cacc` that rte makes.
pub data Control : Type 0 where
  dispatch disp_after_br step_then_cacc : Control
  returns : Cause → Control
