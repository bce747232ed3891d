-- ===== src/Sim/Access/Retrieve.antt =====
-- sim/misc.c: what a store through l_mem_op leaves in the page and in the load tlb.
use g.Base.{
  ℕ, ◌/◌, ◌%◌, ◌^◌, ◌≡◌, ◌⊎◌, refl, ap, subst, ◌∙◌, Bool, true, Option, none, some, ◌==◌, leb, not,
  Bool-cases, Option-cases, ==_refl, inl, inr,
}
use g.Sim.Bus.{Size}
use g.Sim.Memory.{find_page}
use g.Sim.Cmmu.{Mode, Exception}
use g.Sim.Cmmu.Walk.{l_to_p}
use g.Sim.Execute.{Operand, Cpu}
use g.Sim.Access.{
  Devices, Space, align, access_of, is_none, page_words, set_words, move, load_tlbs, device_op,
  memory_op, translation_fault, l_mem_op,
}
use g.Sim.Access.Host.{st, store_to, transfer, do_mem_op}
use g.Sim.Access.Tlb.{Tlb, Tlbs, btos, btop, set_mode, entry, enter, poff}
use g.Sim.Access.Fault.{set_dmt_regs}
use g.Sim.Access.Stores.{entry-enter}

module _ {S : Type 0} where
  pub set_words-page :
      (page : ℕ) (values : ℕ → ℕ) (s : Space S) → page_words page (set_words page values s) ≡ values
  unfolding find_page
  set_words-page page values s = rw (page_words, set_words, find_page, ==_refl page) refl

  -- The page has what a store of a register left at an offset, and the load tlb has the page.
  pub record Stored (big : Bool) (mode : Mode) (size : Size) (r : Operand) (a : ℕ) (c : Cpu)
      (s : Space S) : Type 0 where
    pub page : ℕ
    pub words : ℕ → ℕ
    pub in_tlb : entry (s.tlbs.load_tlb mode) a ≡ some page
    pub in_page : page_words page s ≡ store_to big size r (poff a) c words

  -- What a store that misses the store tlb leaves: the tlbs as they were, or the value in its page.
  abbrev pub Left : Bool → Mode → Size → Operand → ℕ → Space S → Space S → Type 0
  Left big mode size r a s s' = (s'.tlbs ≡ s.tlbs) ⊎ Stored big mode size r a s.cpu s'

  abbrev pub Leaves :
      {X : Type 0} → Bool → Mode → Size → Operand → ℕ → Space S → Option (X × Space S) → Type 0
  Leaves big mode size r a s none = true ≡ true
  Leaves big mode size r a s (some (x, s')) = Left big mode size r a s s'

abbrev Loads : Mode → ℕ → ℕ → Option Tlbs → Type 0
Loads mode a page none = true ≡ true
Loads mode a page (some t) = entry (t.load_tlb mode) a ≡ some page

set_mode-same : (mode : Mode) (tlb : Tlb) (tlbs : Mode → Tlb) → set_mode mode tlb tlbs mode ≡ tlb
set_mode-same Mode.user tlb tlbs = refl
set_mode-same Mode.supervisor tlb tlbs = refl

load_tlbs-Loads :
    (mode : Mode) (a page : ℕ) (t : Tlbs) → Loads mode a page (load_tlbs st mode a page t)
unfolding load_tlbs
load_tlbs-Loads mode a page t =
    let entered : entry (enter (t.load_tlb mode) a page) a ≡ some page =
      entry-enter (t.load_tlb mode) a page a ∙ rw (==_refl (btos a), ==_refl (btop a)) refl in
    let found : entry (set_mode mode (enter (t.load_tlb mode) a page) t.load_tlb mode) a
        ≡ some page =
      ap (λ x. entry x a) (set_mode-same mode (enter (t.load_tlb mode) a page) t.load_tlb)
      ∙ entered in
    elim (Option-cases (entry (t.store_tlb mode) a)) [
      | inl e ↦ rw (Loads, load_tlbs, e) found
      | inr (q, e) ↦ rw (Loads, load_tlbs, e) refl
    ]

module _ (d : Devices) (big : Bool) (cmmu_number : ℕ → ℕ) where
  memory_op-Leaves :
      (mode : Mode) (size : Size) (r : Operand) (a pa : ℕ) (s : Space d.bus.State)
      → Leaves big mode size r a s (memory_op d big cmmu_number mode st size r a pa s)
  unfolding memory_op move do_mem_op transfer
  memory_op-Leaves mode size r a pa s =
      elim (Option-cases (load_tlbs st mode a (pa / 2 ^ 12) s.tlbs)) [
        | inl e ↦ rw (Leaves, memory_op, e) refl
        | inr (t, e) ↦
            rw (Leaves, memory_op, e)
              (inr (record {
                page = pa / 2 ^ 12;
                words = page_words (pa / 2 ^ 12) s;
                in_tlb =
                    subst (Loads mode a (pa / 2 ^ 12)) e
                      (load_tlbs-Loads mode a (pa / 2 ^ 12) s.tlbs);
                in_page =
                    set_words-page (pa / 2 ^ 12)
                      (store_to big size r (poff a) s.cpu (page_words (pa / 2 ^ 12) s)) s;
              }))
      ]

  device_op-Leaves :
      (mode : Mode) (size : Size) (r : Operand) (a pa : ℕ) (s : Space d.bus.State)
      → Leaves big mode size r a s (device_op d big cmmu_number mode st size r a pa s)
  unfolding device_op
  device_op-Leaves mode size r a pa s =
      let (ex, c, io) = d.io_operation size st r pa s.cpu s.cmmus.memory.io in
      elim (Bool-cases (is_none ex)) [
        | inl y ↦ rw y (inl refl)
        | inr n ↦ elim (Option-cases (set_dmt_regs mode st size r a c)) [
          | inl e ↦ rw (n, e) refl
          | inr (c', e) ↦ rw (n, e) (inl refl)
        ]
      ]

  translation_fault-Leaves :
      (ex : Exception) (mode : Mode) (size : Size) (r : Operand) (a : ℕ) (s : Space d.bus.State)
      → Leaves big mode size r a s (translation_fault d big cmmu_number ex mode st size r a s)
  translation_fault-Leaves ex mode size r a s = elim (Bool-cases (s.cpu.sfu0_regs 1 % 2 == 0)) [
    | inr n ↦ rw n (inl refl)
    | inl y ↦ elim (Option-cases (set_dmt_regs mode st size r a s.cpu)) [
      | inl e ↦ rw (y, e) refl
      | inr (c, e) ↦ rw (y, e) (inl refl)
    ]
  ]

  pub l_mem_op-Leaves :
      (mode : Mode) (size : Size) (r : Operand) (a : ℕ) (s : Space d.bus.State)
      → Leaves big mode size r a s (l_mem_op d big cmmu_number mode st size r a s)
  unfolding l_mem_op
  l_mem_op-Leaves mode size r a s =
      elim (Option-cases
        (l_to_p d.bus big mode a (cmmu_number (a / 2 ^ 12 % 4)) (access_of st) s.cmmus)) [
          | inl e ↦ rw (Leaves, l_mem_op, e) refl
          | inr ((ex, pa, t), e) ↦
              let s1 = record s { cmmus = t } in
              elim (Bool-cases (not (is_none ex))) [
                | inl y ↦ rw (Leaves, l_mem_op, e, y) (translation_fault-Leaves ex mode size r a s1)
                | inr n ↦ elim (Bool-cases (leb t.memory.memory_size (align size pa))) [
                  | inl y ↦
                      rw (Leaves, l_mem_op, e, n, y)
                        (device_op-Leaves mode size r a (align size pa) s1)
                  | inr k ↦
                      rw (Leaves, l_mem_op, e, n, k)
                        (memory_op-Leaves mode size r a (align size pa) s1)
                ]
              ]
        ]
