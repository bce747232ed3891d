-- ===== src/Sim/Execute/Flow/Delay.antt =====
-- sim/execute.c: the delayed branches reach their targets.
use g.Base.{ℕ, ◌+◌, ◌%◌, ◌≡◌, refl, ap, ◌∙◌, Bool, true, ◌==◌, none, some, Bool-cases, inl, inr}
use g.Base.Words.{u32}
use g.Sim.Cmmu.{Mode}
use g.Sim.Execute.{
  Operand, reg, sfu0, sfu1, lit, num, code, dummy_r0, Decoded, Cpu, dispatch_next,
  take_delayed_branch,
}
use g.Sim.Execute.Machine.{Code, Machine, dispatch, disp_after_br}
use g.Sim.Execute.Flow.{offset_of, advance, delayed_br, delay, follow, after_slot}

module _ (K : Code) (host : Operand → ℕ) (ss : Bool)
    (fetches : (mode : Mode) (a : ℕ) (s : K.State) → (K.l_to_d mode a s).0 ≡ true) where
  advance-next :
      (m : Machine K.State)
      → ((advance K host ss m).0 ≡ dispatch)
        × ((advance K host ss m).1.p ≡ u32 (m.p + 4))
        × ((advance K host ss m).1.r_delayed_p ≡ m.r_delayed_p)
        × ((advance K host ss m).1.delayed_ip ≡ m.delayed_ip)
  unfolding advance
  advance-next m = elim (Bool-cases (u32 (m.p + 4) % 4096 == 0)) [
    | inl e ↦ rw (e, fetches m.usmode (u32 (m.p + 4)) m.code) (refl, refl, refl, refl)
    | inr e ↦ rw e (refl, refl, refl, refl)
  ]

  -- Where a branch with the field `s2` goes, with the address that its offset gives.
  abbrev pub target : Operand → ℕ → ℕ
  target (code a) there = a
  target _ there = there

  delayed_br-target :
      (o : Operand) (m : Machine K.State)
      → ((delayed_br K host ss o m).0 ≡ disp_after_br)
        × ((delayed_br K host ss o m).1.p ≡ target o m.delayed_ip)
        × ((delayed_br K host ss o m).1.r_delayed_p ≡ none)
  unfolding delayed_br
  delayed_br-target (code a) m = (refl, refl, refl)
  delayed_br-target (reg n) m = rw (fetches m.usmode m.delayed_ip m.code) (refl, refl, refl)
  delayed_br-target (sfu0 n) m = rw (fetches m.usmode m.delayed_ip m.code) (refl, refl, refl)
  delayed_br-target (sfu1 n) m = rw (fetches m.usmode m.delayed_ip m.code) (refl, refl, refl)
  delayed_br-target (lit n) m = rw (fetches m.usmode m.delayed_ip m.code) (refl, refl, refl)
  delayed_br-target (num n) m = rw (fetches m.usmode m.delayed_ip m.code) (refl, refl, refl)
  delayed_br-target dummy_r0 m = rw (fetches m.usmode m.delayed_ip m.code) (refl, refl, refl)

  follow-waiting :
      (j : Decoded) (o : Operand) (m : Machine K.State)
      → m.r_delayed_p ≡ some o
      → follow K host ss dispatch_next j m ≡ delayed_br K host ss o m
  unfolding follow
  follow-waiting j o m e = ap (λ d. after_slot K host ss d m) e

  -- Where every address of code can be fetched: a delayed branch goes on with the instruction after
  -- it, and when the code of that instruction ends, whatever it did to the registers, with the
  -- dispatch of the next one, then `sim` goes on at the target of the branch and no branch is
  -- delayed any more. The target is the instruction on the page, or the offset from the branch.
  pub follow-delayed :
      (i j : Decoded) (m : Machine K.State) (cpu : Cpu)
      → let m1 = (follow K host ss take_delayed_branch i m).1 in
        let r = follow K host ss dispatch_next j (record m1 { cpu = cpu }) in
        ((follow K host ss take_delayed_branch i m).0 ≡ dispatch)
        × (m1.p ≡ u32 (m.p + 4))
        × (r.0 ≡ disp_after_br)
        × (r.1.p ≡ target i.s2 (u32 (m.p + offset_of K host ss i.dest)))
        × (r.1.r_delayed_p ≡ none)
  unfolding follow delay
  follow-delayed i j m cpu =
      let there = u32 (m.p + offset_of K host ss i.dest) in
      let m0 : Machine K.State = record m { r_delayed_p = some i.s2; delayed_ip = there } in
      let m1 : Machine K.State = (advance K host ss m0).1 in
      let (d, at, waits, to) = advance-next m0 in
      let (e, reached, over) = delayed_br-target i.s2 (record m1 { cpu = cpu }) in
      let w = follow-waiting j i.s2 (record m1 { cpu = cpu }) waits in
      (
        d,
        at,
        ap (λ r. r.0) w ∙ e,
        ap (λ r. r.1.p) w ∙ reached ∙ ap (target i.s2) to,
        ap (λ r. r.1.r_delayed_p) w ∙ over,
      )
