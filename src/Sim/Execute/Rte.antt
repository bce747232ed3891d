-- ===== src/Sim/Execute/Rte.antt =====
-- sim/execute.c: rte, the return from an exception.
use Prim.Native.Nat.{bit_and}
use g.Base.{◌+◌, ◌%◌, Bool, ◌==◌, ◌&&◌, not, if◌then◌else◌, none, some}
use g.Base.Words.{u32, truth}
use g.Sim.Cmmu.{is_user}
use g.Sim.Execute.{num, none_cause, hosed, psr}
use g.Sim.Execute.Machine.{Code, Machine, Control, disp_after_br, step_then_cacc}
use g.Sim.Execute.Exception.{
  psr_bits, aligned, psr_us_mode, set_ctl, ctl, return_pt, gen_exception, cacc,
}

module _ (K : Code) (simdiags : Bool) (ss : Bool) where
  -- From SET_US_MODE on, with `ip` the address to go on at.
  abbrev pub resume : Machine K.State → Control × Machine K.State
  resume m =
      let mode = psr_us_mode m.cpu in
      let r = K.l_to_d mode m.ip m.code in
      let m1 : Machine K.State = record m { usmode = mode; code = r.1 } in
      if not r.0
      then cacc K ss (record m1 { p = m1.wild })
      else if ss
      then return_pt ss none_cause (record m1 { p = m.ip })
      else (disp_after_br, record m1 { p = m.ip })

  -- SNIP is valid: where SFIP is valid and not the address after it, a delayed branch to SFIP.
  abbrev pub resume_at_next : Machine K.State → Control × Machine K.State
  resume_at_next m =
      let m1 : Machine K.State = record m { ip = aligned (ctl 5 m) } in
      if bit_and (ctl 6 m) 3 == 3
      then (step_then_cacc, m1)
      else if truth (bit_and (ctl 6 m) 2) && not (aligned (ctl 6 m) == u32 (aligned (ctl 5 m) + 4))
      then resume (record m1 { delayed_ip = aligned (ctl 6 m); r_delayed_p = some (num 0) })
      else resume m1

  -- SNIP is not valid.
  abbrev pub resume_at_fetched : Machine K.State → Control × Machine K.State
  resume_at_fetched m =
      if truth (bit_and (ctl 6 m) 2)
      then (let m1 : Machine K.State = record m { ip = aligned (ctl 6 m) } in
          if truth (bit_and (ctl 6 m) 1) then cacc K ss m1 else resume m1)
      else return_pt ss hosed (record m { ip = u32 (aligned (ctl 6 m) + 4) })

  -- The state that is restored. `SNIP & 3 == 3` is `SNIP & (3 == 3)` in C.
  abbrev pub restored : Machine K.State → Machine K.State
  restored m =
      let m1 : Machine K.State = record m { r_delayed_p = none; comefrom = m.p } in
      let m2 : Machine K.State = set_ctl 63 (ctl 3 m1) m1 in set_ctl 1 (psr_bits (ctl 2 m2)) m2

  unfoldable pub rte : Machine K.State → Control × Machine K.State
  rte m =
      if is_user m.usmode
      then gen_exception K ss 6 m
      else if psr m.cpu % 2 == 0
      then return_pt ss hosed m
      else if ctl 2 m % 2 == 1 && not simdiags
      then return_pt ss hosed m
      else (let m1 = restored m in
          if truth (bit_and (ctl 5 m1) 1)
          then cacc K ss (record m1 { ip = aligned (ctl 5 m1) })
          else if truth (bit_and (ctl 5 m1) 2)
          then resume_at_next m1
          else resume_at_fetched m1)
