-- ===== src/Sim/Access/Steps.antt =====
-- sim/execute.c, sim/misc.c and sim/siminit.c: the steps of the software tlbs, and what holds after
-- any number of them.
use g.Base.{ℕ, ◌≡◌, sym, subst, Bool, none, some}
use g.Sim.Cmmu.{Mode}
use g.Sim.Execute.{Decoded, Ending}
use g.Sim.Access.{Devices, Space}
use g.Sim.Access.Tlb.{
  Tlbs, entry, flush_tlb_page, flush_tlb_segment, flush_tlb_all, flush_tlb_range,
}
use g.Sim.Access.Labels.{MemLabel, access}
use g.Sim.Access.Stores.{
  StoresInLoads, Holds, flush_tlb_page-Holds, flush_tlb_segment-Holds, flush_tlb_all-Holds,
  flush_tlb_range-StoresInLoads,
}
use g.Sim.Access.Keeping.{Keeps, access-Keeps}

module _ (d : Devices) (big : Bool) (cmmu_number : ℕ → ℕ) (dummy_regnum : ℕ)
    (watched : ℕ → ℕ → ℕ → Bool) where
  -- A load, store or exchange in any mode; a flush; or anything that leaves the tlbs.
  pub data Step : Space d.bus.State → Space d.bus.State → Type 0 where
    accesses :
        (usmode : Mode) (l : MemLabel) (p : Decoded) (s s' : Space d.bus.State) (e : Ending)
        → access d big cmmu_number dummy_regnum watched usmode l p s ≡ some (e, s')
        → Step s s'
    flushes_page :
        (mode : Mode) (page : ℕ) (s : Space d.bus.State) (t : Tlbs)
        → flush_tlb_page mode page s.tlbs ≡ some t
        → Step s (record s { tlbs = t })
    flushes_segment :
        (mode : Mode) (segment : ℕ) (s : Space d.bus.State) (t : Tlbs)
        → flush_tlb_segment mode segment s.tlbs ≡ some t
        → Step s (record s { tlbs = t })
    flushes_all :
        (mode : Mode) (s : Space d.bus.State) (t : Tlbs)
        → flush_tlb_all mode s.tlbs ≡ some t
        → Step s (record s { tlbs = t })
    flushes_range :
        (mode : Mode) (a length : ℕ) (s : Space d.bus.State)
        → Step s (record s { tlbs = flush_tlb_range mode a length s.tlbs })
    leaves_tlbs : (s s' : Space d.bus.State) → s'.tlbs ≡ s.tlbs → Step s s'

  -- Steps from tlbs without a table, as they are when the simulator starts.
  pub data Reached : Space d.bus.State → Type 0 where
    starts :
        (s : Space d.bus.State)
        → ((mode : Mode) (a : ℕ) → entry (s.tlbs.store_tlb mode) a ≡ none)
        → Reached s
    steps : (s s' : Space d.bus.State) → Reached s → Step s s' → Reached s'

  Step-StoresInLoads :
      (s s' : Space d.bus.State) → Step s s' → StoresInLoads s.tlbs → StoresInLoads s'.tlbs
  Step-StoresInLoads _ _ (accesses usmode l p s s' e q) v =
      subst Keeps q (access-Keeps d big cmmu_number dummy_regnum watched usmode l p s v)
  Step-StoresInLoads _ _ (flushes_page mode page s t q) v =
      subst Holds q (flush_tlb_page-Holds mode page s.tlbs v)
  Step-StoresInLoads _ _ (flushes_segment mode segment s t q) v =
      subst Holds q (flush_tlb_segment-Holds mode segment s.tlbs v)
  Step-StoresInLoads _ _ (flushes_all mode s t q) v =
      subst Holds q (flush_tlb_all-Holds mode s.tlbs v)
  Step-StoresInLoads _ _ (flushes_range mode a length s) v =
      flush_tlb_range-StoresInLoads mode a length s.tlbs v
  Step-StoresInLoads _ _ (leaves_tlbs s s' q) v = subst StoresInLoads (sym q) v

  pub Reached-StoresInLoads : (s : Space d.bus.State) → Reached s → StoresInLoads s.tlbs
  Reached-StoresInLoads s (starts _ h) =
      λ mode a page e. let empty : entry (s.tlbs.store_tlb mode) a ≡ none = h mode a in absurd (cc)
  Reached-StoresInLoads _ (steps s s' r x) = Step-StoresInLoads s s' x (Reached-StoresInLoads s r)

  -- From empty store tlbs on, after any loads, stores, exchanges and flushes in any order: an address
  -- that has a page in the store tlb of a mode has the same page in the load tlb of that mode.
  pub load-store_entry :
      (s : Space d.bus.State) (mode : Mode) (a page : ℕ)
      → Reached s
      → entry (s.tlbs.store_tlb mode) a ≡ some page
      → entry (s.tlbs.load_tlb mode) a ≡ some page
  load-store_entry s mode a page r e = Reached-StoresInLoads s r mode a page e
