-- ===== src/Sim/Execute/Control.antt =====
-- sim/execute.c and sim/misc.c: the instructions on control registers, and what they make of the
-- control registers before and after.
use Prim.Native.Nat.{bit_and, bit_or}
use g.Base.{ℕ, ◌+◌, ◌%◌, ◌==◌, if◌then◌else◌, none, some}
use g.Base.Words.{u32}
use g.Sim.Cmmu.{is_user}
use g.Sim.Execute.{
  Decoded, Ending, dispatch_next, gen_exception, put, src1, src2, assign, set_dst, psr, check_stack,
}
use g.Sim.Execute.Machine.{Machine}
use g.Sim.Execute.Exception.{psr_bits, psr_us_mode, set_ctl, ctl}

module _ {S : Type 0} where
  -- The Data Memory Transaction, Data and Address registers, from 8 to 16.
  abbrev pub clear_data_memory : Machine S → Machine S
  clear_data_memory m =
      let m1 = set_ctl 14 0 (set_ctl 11 0 (set_ctl 8 0 m)) in
      let m2 = set_ctl 15 0 (set_ctl 12 0 (set_ctl 9 0 m1)) in
      set_ctl 16 0 (set_ctl 13 0 (set_ctl 10 0 m2))

  unfoldable pub load_shadow_regs : Machine S → Machine S
  load_shadow_regs m =
      if psr m.cpu % 2 == 0
      then (let m1 : Machine S = set_ctl 4 (bit_or m.ip 2) m in
          let snip : ℕ = (elim m.delayed_p [
            | some d ↦ bit_or m.delayed_ip 2
            | none ↦ u32 (ctl 4 m1 + 4)
          ]) in
          let m2 : Machine S = set_ctl 5 snip m1 in
          clear_data_memory (set_ctl 6 (u32 (ctl 5 m2 + 4)) m2))
      else m

  unfoldable pub fixup_control_regs : Machine S → Machine S
  fixup_control_regs m =
      let m1 : Machine S = set_ctl 7 (bit_and (ctl 7 m) 0xfffff000) m in
      let m2 : Machine S = set_ctl 2 (psr_bits (ctl 2 m1)) m1 in set_ctl 1 (psr_bits (ctl 1 m2)) m2

  -- SET_US_MODE
  abbrev pub set_us_mode : Machine S → Machine S
  set_us_mode m = record m { usmode = psr_us_mode m.cpu }

  -- `DST = SRC1`
  abbrev pub move : Decoded → Machine S → Machine S
  move i m = record m { cpu = set_dst i (src1 i m.cpu) m.cpu }

  -- `i = SRC1; DST = SRC2; SRC2 = i`
  abbrev pub exchange : Decoded → Machine S → Machine S
  exchange i m = record m { cpu = assign i.s2 (src1 i m.cpu) (set_dst i (src2 i m.cpu) m.cpu) }

  -- `regs[0] = 0`
  abbrev pub zero_r0 : Machine S → Machine S
  zero_r0 m = record m { cpu = record m.cpu { regs = put 0 0 m.cpu.regs } }

  unfoldable pub ldcr : Decoded → Machine S → Ending × Machine S
  ldcr i m =
      if is_user m.usmode
      then (gen_exception 6, m)
      else let m1 = move i (load_shadow_regs m) in (check_stack m1.cpu, m1)

  unfoldable pub uldcr : Decoded → Machine S → Ending × Machine S
  uldcr i m = (dispatch_next, move i (load_shadow_regs m))

  unfoldable pub stcr : Decoded → Machine S → Ending × Machine S
  stcr i m =
      if is_user m.usmode
      then (gen_exception 6, m)
      else (dispatch_next, set_us_mode (fixup_control_regs (move i m)))

  unfoldable pub ustcr : Decoded → Machine S → Ending × Machine S
  ustcr i m = (dispatch_next, fixup_control_regs (move i m))

  unfoldable pub xcr : Decoded → Machine S → Ending × Machine S
  xcr i m = if is_user m.usmode then (gen_exception 6, m) else (
    dispatch_next,
    set_us_mode (zero_r0 (fixup_control_regs (exchange i (load_shadow_regs m)))),
  )

  unfoldable pub uxcr : Decoded → Machine S → Ending × Machine S
  uxcr i m = (dispatch_next, zero_r0 (fixup_control_regs (exchange i m)))
