-- ===== src/Sim/Execute/Flow.antt =====
-- sim/execute.c: how `sim` goes on after the code of an instruction: the next instruction, the
-- branches and the delayed branch, and the jumps.
pub mod Delay
use g.Base.{
  ℕ, ◌+◌, ◌-◌, ◌*◌, ◌/◌, ◌%◌, ◌^◌, Bool, true, false, ◌==◌, ◌&&◌, ◌||◌, not, if◌then◌else◌, Option,
  none, some,
}
use g.Base.Words.{u32}
use g.Sim.Execute.{
  Operand, reg, sfu0, sfu1, lit, num, code, dummy_r0, Decoded, Cpu, Ending, dispatch_next,
  take_branch, take_delayed_branch, put, dst,
}
use g.Sim.Execute as Execute
use g.Sim.Execute.Machine.{Code, Machine, Control, dispatch, disp_after_br, step_then_cacc, returns}
use g.Sim.Execute.Exception.{aligned, return_pt, gen_exception, cacc}

-- `host` is the number that a pointer of the host is as an `int`. A branch to its own page has no
-- offset in `dest`: what the slot of the decoded instruction held before is there.
module _ (K : Code) (host : Operand → ℕ) (ss : Bool) where
  -- `(int)P->dest`
  abbrev pub offset_of : Operand → ℕ
  offset_of (num n) = n
  offset_of o = host o

  -- `p = l_to_d(a, usmode, &pagep)`, and cacc with `ip` the address where it fails.
  abbrev pub go : Control → ℕ → Machine K.State → Control × Machine K.State
  go then_ a m =
      let r = K.l_to_d m.usmode a m.code in
      let m1 : Machine K.State = record m { code = r.1 } in
      if r.0 then (then_, record m1 { p = a }) else cacc K ss (record m1 { ip = a; p = m1.wild })

  -- INC_D_IP and DISPATCH; past the last instruction of a page it is the label end_of_page.
  unfoldable pub advance : Machine K.State → Control × Machine K.State
  advance m =
      let a = u32 (m.p + 4) in
      if a % 4096 == 0 then go dispatch a (record m { ip = a }) else (dispatch, record m { p = a })

  -- delayed_br, with `d` the field `s2` of the branch.
  unfoldable pub delayed_br : Operand → Machine K.State → Control × Machine K.State
  delayed_br (code a) m = (disp_after_br, record m { p = a; r_delayed_p = none })
  delayed_br _ m = go disp_after_br m.delayed_ip (record m { r_delayed_p = none })

  -- TAKE_BRANCH
  unfoldable pub branch : Decoded → Machine K.State → Control × Machine K.State
  branch i m = elim i.s2 [
    | code a ↦ (disp_after_br, record m { p = a })
    | _ ↦ let a = u32 (m.p + offset_of i.dest) in go disp_after_br a (record m { ip = a })
  ]

  -- TAKE_DELAYED_BRANCH
  unfoldable pub delay : Decoded → Machine K.State → Control × Machine K.State
  delay i m =
      advance (record m { r_delayed_p = some i.s2; delayed_ip = u32 (m.p + offset_of i.dest) })

  -- DISPATCH_NEXT, with what `r_delayed_p` points to.
  abbrev pub after_slot : Option Operand → Machine K.State → Control × Machine K.State
  after_slot (some d) m = delayed_br d m
  after_slot none m = advance m

  -- What the code of an instruction ends with.
  unfoldable pub follow : Ending → Decoded → Machine K.State → Control × Machine K.State
  follow dispatch_next i m = after_slot m.r_delayed_p m
  follow take_branch i m = branch i m
  follow take_delayed_branch i m = delay i m
  follow (Execute.gen_exception ex) i m = gen_exception K ss ex m
  follow (Execute.return_pt cause) i m = return_pt ss cause m

  -- br, br.n, bsr and bsr.n.
  unfoldable pub br : Decoded → Machine K.State → Control × Machine K.State
  br i m = branch i m

  unfoldable pub br_n : Decoded → Machine K.State → Control × Machine K.State
  br_n i m = delay i m

  -- `regs[1] = a`
  abbrev pub link : ℕ → Machine K.State → Machine K.State
  link a m = record m { cpu = record m.cpu { regs = put 1 a m.cpu.regs } }

  unfoldable pub bsr : Decoded → Machine K.State → Control × Machine K.State
  bsr i m = branch i (link (u32 (m.p + 4)) m)

  unfoldable pub bsr_n : Decoded → Machine K.State → Control × Machine K.State
  bsr_n i m = delay i (link (u32 (m.p + 8)) m)

  -- A jump: on the page of the instruction it needs no translation.
  abbrev pub jump : ℕ → Machine K.State → Control × Machine K.State
  jump a m =
      if a / 4096 == m.p / 4096 then (disp_after_br, record m { p = a }) else go disp_after_br a m

  unfoldable pub jmp : Decoded → Machine K.State → Control × Machine K.State
  jmp i m = jump (aligned (dst i m.cpu)) (record m { comefrom = m.p })

  unfoldable pub jmp_n : Decoded → Machine K.State → Control × Machine K.State
  jmp_n i m =
      advance
        (record m { comefrom = m.p; delayed_ip = aligned (dst i m.cpu); r_delayed_p = some i.s2 })

  unfoldable pub jsr : Decoded → Machine K.State → Control × Machine K.State
  jsr i m = jump (aligned (dst i m.cpu)) (link (u32 (m.p + 4)) (record m { comefrom = m.p }))

  unfoldable pub jsr_n : Decoded → Machine K.State → Control × Machine K.State
  jsr_n i m = advance (
      link (u32 (m.p + 8))
        (record m { comefrom = m.p; delayed_ip = aligned (dst i m.cpu); r_delayed_p = some i.s2 }))
