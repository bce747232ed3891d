-- ===== src/Sim/Access/Keeping.antt =====
-- sim/execute.c and sim/misc.c: an instruction that goes through the software tlbs keeps what is in
-- the store tlbs in the load tlbs.
use g.Base.{
  ℕ, ◌/◌, ◌%◌, ◌^◌, ◌≡◌, refl, sym, ap, subst, ◌∙◌, Bool, true, Option, none, some, ◌==◌, leb, not,
  ◌&&◌, if◌then◌else◌, Bool-cases, Option-cases, inl, inr, arith,
}
use g.Sim.Bus.{Size, byte, half, word, dword}
use g.Sim.Cmmu.{Mode, Exception, is_user}
use g.Sim.Cmmu.Walk.{l_to_p}
use g.Sim.Execute.{Operand, Decoded}
use g.Sim.Access.{
  Devices, Space, align, access_of, is_none, move, load_tlbs, device_op, memory_op,
  translation_fault, l_mem_op,
}
use g.Sim.Access.Host.{MemOp}
use g.Sim.Access.Tlb.{Tlb, btos, btop, slot, entry}
use g.Sim.Access.Fault.{writes, set_dmt_regs}
use g.Sim.Access.Labels.{
  MemLabel, Shape, shape, address, misaligned, mode_of, slow, calc_addr, access,
}
use g.Sim.Access.Entered.{Misses, load_tlbs-Holds}
use g.Sim.Access.Stores.{StoresInLoads, Holds}

-- What is left of an operation that may be err.
abbrev pub Keeps : {X : Type 0} {S : Type 0} → Option (X × Space S) → Type 0
Keeps none = true ≡ true
Keeps (some (x, s)) = StoresInLoads s.tlbs

module _ (d : Devices) (big : Bool) (cmmu_number : ℕ → ℕ) where
  device_op-Keeps :
      (mode : Mode) (op : MemOp) (size : Size) (r : Operand) (a pa : ℕ) (s : Space d.bus.State)
      → StoresInLoads s.tlbs
      → Keeps (device_op d big cmmu_number mode op size r a pa s)
  unfolding device_op
  device_op-Keeps mode op size r a pa s v =
      let (ex, c, io) = d.io_operation size op r pa s.cpu s.cmmus.memory.io in
      elim (Bool-cases (is_none ex)) [
        | inl y ↦ rw y v
        | inr n ↦ elim (Option-cases (set_dmt_regs mode op size r a c)) [
          | inl e ↦ rw (n, e) refl
          | inr (c', e) ↦ rw (n, e) v
        ]
      ]

  memory_op-Keeps :
      (mode : Mode) (op : MemOp) (size : Size) (r : Operand) (a pa : ℕ) (s : Space d.bus.State)
      → StoresInLoads s.tlbs
      → Misses op mode a s.tlbs
      → Keeps (memory_op d big cmmu_number mode op size r a pa s)
  unfolding memory_op
  memory_op-Keeps mode op size r a pa s v m =
      elim (Option-cases (load_tlbs op mode a (pa / 2 ^ 12) s.tlbs)) [
        | inl e ↦ rw (Keeps, memory_op, e) refl
        | inr (t, e) ↦
            rw (Keeps, memory_op, e)
              (subst Holds e (load_tlbs-Holds op mode a (pa / 2 ^ 12) s.tlbs v m))
      ]

  translation_fault-Keeps :
      (ex : Exception) (mode : Mode) (op : MemOp) (size : Size) (r : Operand) (a : ℕ)
      (s : Space d.bus.State)
      → StoresInLoads s.tlbs
      → Keeps (translation_fault d big cmmu_number ex mode op size r a s)
  translation_fault-Keeps ex mode op size r a s v = elim (Bool-cases (s.cpu.sfu0_regs 1 % 2 == 0)) [
    | inr n ↦ rw n v
    | inl y ↦ elim (Option-cases (set_dmt_regs mode op size r a s.cpu)) [
      | inl e ↦ rw (y, e) refl
      | inr (c, e) ↦ rw (y, e) v
    ]
  ]

  l_mem_op-Keeps :
      (mode : Mode) (op : MemOp) (size : Size) (r : Operand) (a : ℕ) (s : Space d.bus.State)
      → StoresInLoads s.tlbs
      → Misses op mode a s.tlbs
      → Keeps (l_mem_op d big cmmu_number mode op size r a s)
  unfolding l_mem_op
  l_mem_op-Keeps mode op size r a s v m =
      elim (Option-cases
        (l_to_p d.bus big mode a (cmmu_number (a / 2 ^ 12 % 4)) (access_of op) s.cmmus)) [
          | inl e ↦ rw (Keeps, l_mem_op, e) refl
          | inr ((ex, pa, t), e) ↦
              let s1 = record s { cmmus = t } in
              elim (Bool-cases (not (is_none ex))) [
                | inl y ↦
                    rw (Keeps, l_mem_op, e, y) (translation_fault-Keeps ex mode op size r a s1 v)
                | inr n ↦ elim (Bool-cases (leb t.memory.memory_size (align size pa))) [
                  | inl y ↦
                      rw (Keeps, l_mem_op, e, n, y)
                        (device_op-Keeps mode op size r a (align size pa) s1 v)
                  | inr k ↦
                      rw (Keeps, l_mem_op, e, n, k)
                        (memory_op-Keeps mode op size r a (align size pa) s1 v m)
                ]
              ]
        ]

aligned-slot :
    (size : Size) (a : ℕ) → (btos (align size a) ≡ btos a) × (btop (align size a) ≡ btop a)
aligned-slot byte a = (omega arith, omega arith)
aligned-slot half a = (omega arith, omega arith)
aligned-slot word a = (omega arith, omega arith)
aligned-slot dword a = (omega arith, omega arith)

aligned-entry : (size : Size) (tlb : Tlb) (a : ℕ) → entry tlb (align size a) ≡ entry tlb a
unfolding entry
aligned-entry size tlb a =
    let (s, k) = aligned-slot size a in
    ap (λ n. slot (tlb n) (btop (align size a))) s ∙ ap (slot (tlb (btos a))) k

module _ (d : Devices) (big : Bool) (cmmu_number : ℕ → ℕ) (dummy_regnum : ℕ)
    (watched : ℕ → ℕ → ℕ → Bool) (usmode : Mode) where
  slow-Keeps :
      (mode : Mode) (sh : Shape) (r : Operand) (a : ℕ) (s : Space d.bus.State)
      → StoresInLoads s.tlbs
      → Misses sh.op mode a s.tlbs
      → Keeps (slow d big cmmu_number dummy_regnum watched usmode mode sh r a s)
  slow-Keeps mode sh r a s v m =
      let kept = l_mem_op-Keeps d big cmmu_number mode sh.op sh.size r a s v m in
      elim (Option-cases (l_mem_op d big cmmu_number mode sh.op sh.size r a s)) [
        | inl e ↦ rw (Keeps, e) refl
        | inr ((ex, s'), e) ↦ rw (Keeps, e) (subst Keeps e kept)
      ]

  calc_addr-Keeps :
      (l : MemLabel) (sh : Shape) (r : Operand) (a : ℕ) (s : Space d.bus.State)
      → StoresInLoads s.tlbs
      → Keeps (calc_addr d big cmmu_number dummy_regnum watched usmode l sh r a s)
  unfolding calc_addr move
  calc_addr-Keeps l sh r a s v = elim (Bool-cases (misaligned sh.size a s.cpu)) [
    | inl y ↦ rw (Keeps, calc_addr, y) v
    | inr n ↦
        let mode = mode_of d big cmmu_number dummy_regnum watched usmode sh in
        let tlb = (if writes sh.op then s.tlbs.store_tlb mode else s.tlbs.load_tlb mode) in
        elim (Option-cases (entry tlb (align sh.size a))) [
          | inl e ↦
              rw (Keeps, calc_addr, n, e)
                (slow-Keeps mode sh r a s v (sym (aligned-entry sh.size tlb a) ∙ e))
          | inr (page, e) ↦ rw (Keeps, calc_addr, n, e) v
        ]
  ]

  pub access-Keeps :
      (l : MemLabel) (p : Decoded) (s : Space d.bus.State)
      → StoresInLoads s.tlbs
      → Keeps (access d big cmmu_number dummy_regnum watched usmode l p s)
  unfolding access
  access-Keeps l p s v =
      let sh = shape l in
      elim (Bool-cases (sh.user_space && is_user usmode)) [
        | inl y ↦ rw (Keeps, access, y) v
        | inr n ↦ rw (Keeps, access, n) (calc_addr-Keeps l sh p.dest (address sh p s.cpu) s v)
      ]
