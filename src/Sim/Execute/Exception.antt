-- ===== src/Sim/Execute/Exception.antt =====
-- sim/execute.c: the labels gen_exception, gen_exception_without_check and cacc, and rte.
pub mod Masks
pub mod Return
use Prim.Native.Nat.{bit_and, bit_or}
use g.Base.{
  ℕ, ◌+◌, ◌-◌, ◌*◌, ◌/◌, ◌%◌, ◌^◌, Bool, true, false, ◌==◌, ltb, leb, ◌&&◌, ◌||◌, not,
  if◌then◌else◌, Option, none, some,
}
use g.Base.Words.{u32, sub32, truth}
use g.Sim.Cmmu.{Mode, user, supervisor, is_user}
use g.Sim.Execute.{
  Operand, num, Cpu, Cause, hosed, none_cause, caught_exception, stack_overflows, psr, sbr, set_cr,
  put,
}
use g.Sim.Execute.Machine.{Code, Machine, Control, dispatch, disp_after_br, step_then_cacc, returns}

-- `(w | 0x3f0) & 0xf800e3ff`
abbrev pub psr_bits : ℕ → ℕ
psr_bits w = bit_and (bit_or w 0x3f0) 0xf800e3ff

-- `w & ~3`
abbrev pub aligned : ℕ → ℕ
aligned w = bit_and w 0xfffffffc

-- SET_US_MODE
abbrev pub psr_us_mode : Cpu → Mode
psr_us_mode c = if truth (psr c / 2 ^ 31) then supervisor else user

abbrev pub is_hosed : Cause → Bool
is_hosed hosed = true
is_hosed _ = false

module _ {S : Type 0} where
  abbrev pub set_ctl : ℕ → ℕ → Machine S → Machine S
  set_ctl n v m = record m { cpu = set_cr n v m.cpu }

  abbrev pub ctl : ℕ → Machine S → ℕ
  ctl n m = m.cpu.sfu0_regs n

  -- return_with_exception
  abbrev pub return_with_exception : Cause → Machine S → Control × Machine S
  return_with_exception cause m = (returns cause, record m { delayed_p = m.r_delayed_p })

  -- The shadow registers at return_pt.
  abbrev pub shadow_at_return : Machine S → Machine S
  shadow_at_return m =
      let m1 : Machine S = set_ctl 5 (bit_or m.ip 2) m in
      let m2 : Machine S = set_ctl 2 (psr m1.cpu) m1 in
      elim m.delayed_p [
        | some d ↦ set_ctl 6 (bit_or m.delayed_ip 2) m2
        | none ↦ set_ctl 6 (bit_or (u32 (m.ip + 4)) 2) m2
      ]

  -- return_pt. Where CHECK_STACK fails, it comes here again with the cause HOSED, which changes no
  -- more.
  unfoldable pub return_pt : (ss : Bool) → Cause → Machine S → Control × Machine S
  return_pt ss cause m =
      let m1 : Machine S = record m { ip = m.p } in
      let m2 = (if psr m1.cpu % 2 == 0 then shadow_at_return m1 else m1) in
      return_with_exception
        (if ss && not (is_hosed cause) && stack_overflows m2.cpu then hosed else cause) m2

  -- DMT0, DMT1 and DMT2, where the exception is no E_DACC and shadowing is on.
  unfoldable pub clear_transactions : ℕ → Machine S → Machine S
  clear_transactions ex m =
      if not (ex == 3) && psr m.cpu % 2 == 0 then set_ctl 8 0 (set_ctl 11 0 (set_ctl 14 0 m)) else m

  -- From `sim_exception = E_NONE` to the shadow copy of the instruction pointer.
  unfoldable pub shadow : ℕ → Machine S → Machine S
  shadow ex m =
      let m1 : Machine S = record m { sim_exception = none } in
      let m2 : Machine S = set_ctl 2 (psr_bits (psr m1.cpu)) m1 in
      let m3 : Machine S = set_ctl 3 (sbr m2.cpu) m2 in
      let m4 : Machine S = set_ctl 63 0 m3 in
      let m5 : Machine S = set_ctl 1 (bit_or (psr m4.cpu) 0x800003fb) m4 in
      let m6 : Machine S = set_ctl 4 (bit_or m5.ip 2) m5 in
      if ex == 2 then set_ctl 4 (bit_or (ctl 4 m6) 1) m6 else m6

  -- SNIP and SFIP, of a delayed branch or of the next instructions.
  unfoldable pub shadow_next : Machine S → Machine S
  shadow_next m = elim m.r_delayed_p [
    | some d ↦
        record (set_ctl 6 (bit_or (u32 (m.delayed_ip + 4)) 2)
          (set_ctl 5 (bit_or m.delayed_ip 2) m)) { r_delayed_p = none }
    | none ↦ set_ctl 6 (bit_or (u32 (m.ip + 8)) 2) (set_ctl 5 (bit_or (u32 (m.ip + 4)) 2) m)
  ]

  -- SNIP and SFIP at gen_exception, which are set again when the exception is taken.
  unfoldable pub shadow_at_exception : Machine S → Machine S
  shadow_at_exception m = elim m.delayed_p [
    | some d ↦ record (set_ctl 6 (bit_or m.delayed_ip 2) (set_ctl 5 (bit_or m.ip 2) m)) {
      delayed_p = none;
    }
    | none ↦ set_ctl 6 (bit_or (u32 (m.ip + 4)) 2) (set_ctl 5 (bit_or m.ip 2) m)
  ]

module _ (K : Code) where
  -- The exception bit of SNIP, where the next instruction cannot be fetched.
  unfoldable pub shadow_valid : Machine K.State → Machine K.State
  shadow_valid m =
      let r = K.l_to_d m.usmode (aligned (ctl 5 m)) m.code in
      let m1 : Machine K.State = record m { code = r.1 } in
      if r.0 then m1 else set_ctl 5 (bit_or (ctl 5 m1) 1) m1

  -- From `SSBR = 0` on: the jump to the exception vector.
  unfoldable pub vector : (ss : Bool) → ℕ → Machine K.State → Control × Machine K.State
  vector ss ex m =
      let m1 : Machine K.State = set_ctl 3 0 m in
      let a = u32 (ctl 7 m1 + ex * 8) in
      let r = K.l_to_d supervisor a m1.code in
      let m2 : Machine K.State = record m1 { usmode = supervisor; ip = a; code = r.1 } in
      if not r.0
      then return_pt ss hosed (record m2 { p = m2.wild })
      else if ss
      then return_pt ss none_cause (record m2 { p = a })
      else (dispatch, record m2 { p = a })

  -- What gen_exception_without_check does from the test for an E_DACC on.
  unfoldable pub take_exception : (ss : Bool) → ℕ → Machine K.State → Control × Machine K.State
  take_exception ss ex m =
      vector ss ex (shadow_valid (shadow_next (shadow ex (clear_transactions ex m))))

  -- An exception with the shadow registers frozen becomes E_ERR, which is 10.
  unfoldable pub gen_exception_without_check :
      (ss : Bool) → ℕ → Machine K.State → Control × Machine K.State
  gen_exception_without_check ss ex m =
      if psr m.cpu % 2 == 1
      then (if m.sim_catch_exception m.usmode 10
          then return_with_exception caught_exception (record m { sim_exception = some 10 })
          else take_exception ss 10 m)
      else take_exception ss ex m

  -- The instruction pointer of an E_INT, which is 1, is that of the instruction before.
  unfoldable pub gen_exception : (ss : Bool) → ℕ → Machine K.State → Control × Machine K.State
  gen_exception ss ex m =
      let m1 : Machine K.State = record m { ip = if ex == 1 then sub32 m.p 4 else m.p } in
      let m2 = shadow_at_exception m1 in
      if m2.sim_catch_exception m2.usmode ex
      then return_with_exception caught_exception (record m2 { sim_exception = some ex })
      else gen_exception_without_check ss ex m2

  -- `cacc`, with `ip` the address that could not be fetched. E_CACC is 2.
  unfoldable pub cacc : (ss : Bool) → Machine K.State → Control × Machine K.State
  cacc ss m = gen_exception ss 2 (record m { p = m.ip })
