-- ===== src/Sim/Access/Reread.antt =====
-- sim/execute.c: a load after a store to the same address, whichever of the software tlbs and l_mem_op
-- the store goes through.
use g.Base.{
  ℕ, ◌%◌, ◌≡◌, ◌≢◌, ◌⊎◌, refl, sym, ap, subst, ◌∙◌, Bool, true, false, Option, none, some, ◌&&◌,
  if◌then◌else◌, Option-cases, inl, inr,
}
use g.Sim.Bus.{Size, byte, half, word, dword}
use g.Sim.Cmmu.{Mode, is_user}
use g.Sim.Execute.{Operand, reg, Decoded, Cpu, Ending, fetch}
use g.Sim.Access.{Devices, Space, bytes, align, page_words, move, l_mem_op}
use g.Sim.Access.Host.{st, store_to, load_from}
use g.Sim.Access.Tlb.{entry, poff}
use g.Sim.Access.Labels.{MemLabel, Shape, shape, address, after_load, fast, slow, calc_addr, access}
use g.Sim.Access.Stores.{StoresInLoads}
use g.Sim.Access.Bytes.{loaded, load_from-store_to}
use g.Sim.Access.Retrieve.{Stored, Leaves, l_mem_op-Leaves, set_words-page}
use g.Sim.Access.Pairs.{Reads, storing, loading, Reads-HasShapes, aligned-kept, aligned-passes}

module _ (d : Devices) (big : Bool) (cmmu_number : ℕ → ℕ) (dummy_regnum : ℕ)
    (watched : ℕ → ℕ → ℕ → Bool) (usmode : Mode) where
  abbrev mode_for : Bool → Mode
  mode_for u = if u then Mode.user else usmode

  -- What a store comes to: an empty slot and the tlbs as they were, or the value in its page.
  abbrev Outcome :
      Bool → Size → Operand → ℕ → Space d.bus.State → Option (Ending × Space d.bus.State) → Type 0
  Outcome u size r a s none = true ≡ true
  Outcome u size r a s (some (x, s')) =
      ((s'.tlbs ≡ s.tlbs) × (entry (s.tlbs.store_tlb (mode_for u)) a ≡ none))
      ⊎ Stored big (mode_for u) size r a s.cpu s'

  slow-Outcome :
      (u sc : Bool) (size : Size) (r : Operand) (a : ℕ) (s : Space d.bus.State)
      → entry (s.tlbs.store_tlb (mode_for u)) a ≡ none
      → Outcome u size r a s (
          slow d big cmmu_number dummy_regnum watched usmode (mode_for u) (storing u sc size) r a s)
  slow-Outcome u sc size r a s m =
      let left = l_mem_op-Leaves d big cmmu_number (mode_for u) size r a s in
      elim (Option-cases (l_mem_op d big cmmu_number (mode_for u) st size r a s)) [
        | inl e ↦ rw (Outcome, e) refl
        | inr ((ex, s'), e) ↦
            rw (Outcome, e)
              (elim (subst (Leaves big (mode_for u) size r a s) e left) [
                | inl q ↦ inl (q, m)
                | inr k ↦ inr k
              ])
      ]

  fast-Stored :
      (l : MemLabel) (u sc : Bool) (size : Size) (r : Operand) (a page o : ℕ)
      (s : Space d.bus.State)
      → o ≡ poff a
      → entry (s.tlbs.load_tlb (mode_for u)) a ≡ some page
      → Stored big
          (mode_for u)
          size
          r
          a
          s.cpu
          (fast d big cmmu_number dummy_regnum watched usmode l (storing u sc size) r page o s).1
  unfolding move
  fast-Stored l u sc size r a page o s z e = record {
    page = page;
    words = page_words page s;
    in_tlb = e;
    in_page =
        set_words-page page (store_to big size r o s.cpu (page_words page s)) s
        ∙ ap (λ x. store_to big size r x s.cpu (page_words page s)) z;
  }

  store-Outcome :
      (l : MemLabel) (u sc : Bool) (size : Size) (r : Operand) (a : ℕ) (s : Space d.bus.State)
      → StoresInLoads s.tlbs
      → a % bytes size ≡ 0
      → Outcome u size r a s
          (calc_addr d big cmmu_number dummy_regnum watched usmode l (storing u sc size) r a s)
  unfolding calc_addr
  store-Outcome l u sc size r a s v h =
      let passes = aligned-passes size a s.cpu h in
      let kept = aligned-kept size a h in
      elim (Option-cases (entry (s.tlbs.store_tlb (mode_for u)) a)) [
        | inl e ↦ rw (Outcome, calc_addr, passes, kept, e) (slow-Outcome u sc size r a s e)
        | inr (page, e) ↦
            rw (Outcome, calc_addr, passes, kept, e)
              (inr (
                fast-Stored l u sc size r a page (poff (align size a)) s (ap poff kept)
                  (v (mode_for u) a page e)))
      ]

  load-runs :
      (l : MemLabel) (u sc signed : Bool) (size : Size) (n a page : ℕ) (s : Space d.bus.State)
      → a % bytes size ≡ 0
      → entry (s.tlbs.load_tlb (mode_for u)) a ≡ some page
      → calc_addr d big cmmu_number dummy_regnum watched usmode l
          (loading u sc signed size)
          (reg n)
          a
          s
        ≡ some (
            fast d big cmmu_number dummy_regnum watched usmode l
              (loading u sc signed size)
              (reg n)
              page
              (poff a)
              s)
  unfolding calc_addr
  load-runs l u sc true size n a page s h e =
      rw (calc_addr, aligned-passes size a s.cpu h, aligned-kept size a h, e)
        (ap
          (λ x. some (
            fast d big cmmu_number dummy_regnum watched usmode l (loading u sc true size) (reg n)
              page (poff x) s))
          (aligned-kept size a h))
  load-runs l u sc false size n a page s h e =
      rw (calc_addr, aligned-passes size a s.cpu h, aligned-kept size a h, e)
        (ap
          (λ x. some (
            fast d big cmmu_number dummy_regnum watched usmode l (loading u sc false size) (reg n)
              page (poff x) s))
          (aligned-kept size a h))

  after_load-regs : (size : Size) (c : Cpu) → size ≢ dword → after_load size c ≡ c
  after_load-regs byte c h = refl
  after_load-regs half c h = refl
  after_load-regs word c h = refl
  after_load-regs dword c h = absurd (h refl)

  -- The load finds the page in the tlb.
  load-Loaded :
      (l : MemLabel) (u sc signed : Bool) (size : Size) (r : Operand) (n a : ℕ) (c : Cpu)
      (s : Space d.bus.State)
      → size ≢ dword
      → a % bytes size ≡ 0
      → Stored big (mode_for u) size r a c s
      → (e : Ending) × (s' : Space d.bus.State) × (calc_addr d big cmmu_number dummy_regnum watched
            usmode l
            (loading u sc signed size)
            (reg n)
            a
            s
          ≡ some (e, s'))
        × (s'.cpu.regs n ≡ loaded signed size (fetch r c))
        × (s'.tlbs ≡ s.tlbs)
  unfolding move
  load-Loaded l u sc signed size r n a c s w h k =
      let o = poff a in
      (
        _,
        _,
        load-runs l u sc signed size n a k.page s h k.in_tlb,
        ap (λ (x : Cpu). x.regs n)
              (after_load-regs size
                (load_from big signed size (reg n) o (page_words k.page s) s.cpu) w)
            ∙ ap (λ x. (load_from big signed size (reg n) o x s.cpu).regs n) k.in_page
            ∙ load_from-store_to big signed size r n o k.words c s.cpu w,
        refl,
      )

  access-runs :
      (l : MemLabel) (p : Decoded) (s : Space d.bus.State)
      → (shape l).user_space && is_user usmode ≡ false
      → access d big cmmu_number dummy_regnum watched usmode l p s
        ≡ calc_addr d big cmmu_number dummy_regnum watched usmode l
            (shape l)
            p.dest
            (address (shape l) p s.cpu)
            s
  unfolding access
  access-runs l p s e = rw (access, e) refl

  -- For a store and the load of its size that is in the same space: where the mode may use them, the
  -- address is aligned and the same for both, what is in the store tlbs is in the load tlbs, and the
  -- store leaves a page in the store tlb for it, the load comes to an end with the value that was
  -- stored in its register, cut to the size and extended as the load says, and leaves the tlbs.
  pub access-retrieves :
      (l l' : MemLabel) (size : Size) (signed : Bool) (p p' : Decoded) (n page : ℕ)
      (s s1 : Space d.bus.State) (e : Ending)
      → Reads l l' size signed
      → (shape l).user_space && is_user usmode ≡ false
      → p'.dest ≡ reg n
      → StoresInLoads s.tlbs
      → address (shape l) p s.cpu % bytes size ≡ 0
      → address (shape l') p' s1.cpu ≡ address (shape l) p s.cpu
      → access d big cmmu_number dummy_regnum watched usmode l p s ≡ some (e, s1)
      → entry
          (s1.tlbs.store_tlb (if (shape l).user_space then Mode.user else usmode))
          (address (shape l) p s.cpu)
        ≡ some page
      → (e' : Ending) × (s' : Space d.bus.State) × (access d big cmmu_number dummy_regnum watched
            usmode l' p' s1
          ≡ some (e', s'))
        × (s'.cpu.regs n ≡ loaded signed size (fetch p.dest s.cpu))
        × (s'.tlbs ≡ s1.tlbs)
  unfolding access
  access-retrieves l l' size signed p p' n page s s1 e pair may dest v h same ran found =
      let k = Reads-HasShapes l l' size signed pair in
      let a = address (shape l) p s.cpu in
      let run : MemLabel
          → Shape
          → Operand
          → ℕ
          → Space d.bus.State
          → Option (Ending × Space d.bus.State) =
        calc_addr d big cmmu_number dummy_regnum watched usmode in
      let stored = run l (storing k.user_space k.scaled size) p.dest a s in
      let ran' : stored ≡ some (e, s1) =
        sym (ap (λ sh. run l sh p.dest a s) k.stores_so) ∙ sym (access-runs l p s may) ∙ ran in
      let found' : entry (s1.tlbs.store_tlb (mode_for k.user_space)) a ≡ some page =
        subst (λ sh. entry (s1.tlbs.store_tlb (mode_for sh.user_space)) a ≡ some page) k.stores_so
          found in
      let may' : (shape l').user_space && is_user usmode ≡ false =
        ap (λ sh. sh.user_space && is_user usmode) k.loads_so
        ∙ sym (ap (λ sh. sh.user_space && is_user usmode) k.stores_so)
        ∙ may in
      elim (subst (Outcome k.user_space size p.dest a s) ran'
        (store-Outcome l k.user_space k.scaled size p.dest a s v h)) [
          | inl (q, m) ↦
              let gone : entry (s1.tlbs.store_tlb (mode_for k.user_space)) a ≡ none =
                ap (λ t. entry (t.store_tlb (mode_for k.user_space)) a) q ∙ m in
              absurd (cc)
          | inr kept ↦
              let (e', s', ends, value, tlbs) =
                load-Loaded l' k.user_space k.scaled signed size p.dest n a s.cpu s1 k.narrow h
                  kept in
              (
                e',
                s',
                access-runs l' p' s1 may'
                    ∙ ap (λ sh. run l' sh p'.dest (address (shape l') p' s1.cpu) s1) k.loads_so
                    ∙ ap
                        (λ o.
                          run l' (loading k.user_space k.scaled signed size) o
                            (address (shape l') p' s1.cpu) s1)
                        dest
                    ∙ ap (λ x. run l' (loading k.user_space k.scaled signed size) (reg n) x s1) same
                    ∙ ends,
                value,
                tlbs,
              )
        ]
