-- ===== src/Sim/Access/Entered.antt =====
-- sim/misc.c: what l_mem_op enters in the software tlbs keeps the store tlbs in the load tlbs.
use g.Base.{
  ℕ, ◌≡◌, refl, sym, ap, ◌∙◌, Bool, true, none, some, ◌==◌, ◌&&◌, if◌then◌else◌, Bool-cases,
  Option-cases, inl, inr, ==_iff, arith,
}
use g.Sim.Cmmu.{Mode, user, supervisor}
use g.Sim.Access.{enter_load, enter_store, load_tlbs}
use g.Sim.Access.Host.{MemOp}
use g.Sim.Access.Tlb.{Tlb, Tlbs, btos, btop, slot, entry, enter}
use g.Sim.Access.Fault.{writes}
use g.Sim.Access.Stores.{StoresInLoads, Holds, at_slot, entry-enter}

both_true : (a b : Bool) → (a && b) ≡ true → (a ≡ true) × (b ≡ true)
both_true a b e = (ground (arith, e), ground (arith, e))

-- Slots are named by any of their addresses.
entry-same : (tlb : Tlb) (a b : ℕ) → at_slot (btos a) (btop a) b ≡ true → entry tlb a ≡ entry tlb b
unfolding entry
entry-same tlb a b e =
    let (x, y) = both_true (btos a == btos b) (btop a == btop b) e in
    let s : btos a ≡ btos b = (==_iff (btos a) (btos b)).0 x in
    let k : btop a ≡ btop b = (==_iff (btop a) (btop b)).0 y in
    ap (λ n. slot (tlb n) (btop a)) s ∙ ap (slot (tlb (btos b))) k

entered-Subset :
    (stores loads : Tlb) (a page : ℕ)
    → ((b q : ℕ) → entry stores b ≡ some q → entry loads b ≡ some q)
    → entry stores a ≡ none
    → (b q : ℕ) → entry stores b ≡ some q
    → entry (enter loads a page) b ≡ some q
entered-Subset stores loads a page sub e b q h = elim (Bool-cases (at_slot (btos a) (btop a) b)) [
  | inl y ↦ let same : entry stores a ≡ entry stores b = entry-same stores a b y in absurd (cc)
  | inr n ↦ entry-enter loads a page b ∙ rw n (sub b q h)
]

-- A page that is entered in the load tlb, and where the operation writes in the store tlb.
enter_load-StoresInLoads :
    (mode : Mode) (a page : ℕ) (t : Tlbs)
    → StoresInLoads t
    → entry (t.store_tlb mode) a ≡ none
    → StoresInLoads (enter_load mode a page t)
enter_load-StoresInLoads user a page t v e user =
    entered-Subset (t.store_tlb user) (t.load_tlb user) a page (v user) e
enter_load-StoresInLoads user a page t v e supervisor = v supervisor
enter_load-StoresInLoads supervisor a page t v e supervisor =
    entered-Subset (t.store_tlb supervisor) (t.load_tlb supervisor) a page (v supervisor) e
enter_load-StoresInLoads supervisor a page t v e user = v user

doubly-Subset :
    (stores loads : Tlb) (a page : ℕ)
    → ((b q : ℕ) → entry stores b ≡ some q → entry loads b ≡ some q)
    → (b q : ℕ) → entry (enter stores a page) b ≡ some q
    → entry (enter loads a page) b ≡ some q
doubly-Subset stores loads a page sub b q h = elim (Bool-cases (at_slot (btos a) (btop a) b)) [
  | inl y ↦
      let here : entry (enter stores a page) b ≡ some page =
        entry-enter stores a page b ∙ rw y refl in
      entry-enter loads a page b ∙ rw y (sym here ∙ h)
  | inr n ↦
      let there : entry (enter stores a page) b ≡ entry stores b =
        entry-enter stores a page b ∙ rw n refl in
      entry-enter loads a page b ∙ rw n (sub b q (sym there ∙ h))
]

enter_both-StoresInLoads :
    (mode : Mode) (a page : ℕ) (t : Tlbs)
    → StoresInLoads t
    → StoresInLoads (enter_store mode a page (enter_load mode a page t))
enter_both-StoresInLoads user a page t v user =
    doubly-Subset (t.store_tlb user) (t.load_tlb user) a page (v user)
enter_both-StoresInLoads user a page t v supervisor = v supervisor
enter_both-StoresInLoads supervisor a page t v supervisor =
    doubly-Subset (t.store_tlb supervisor) (t.load_tlb supervisor) a page (v supervisor)
enter_both-StoresInLoads supervisor a page t v user = v user

-- The slot that l_mem_op is called for is empty.
abbrev pub Misses : MemOp → Mode → ℕ → Tlbs → Type 0
Misses op mode a t = entry (if writes op then t.store_tlb mode else t.load_tlb mode) a ≡ none

no_store :
    (mode : Mode) (a : ℕ) (t : Tlbs)
    → StoresInLoads t
    → entry (t.load_tlb mode) a ≡ none
    → entry (t.store_tlb mode) a ≡ none
no_store mode a t v e = elim (Option-cases (entry (t.store_tlb mode) a)) [
  | inl z ↦ z
  | inr (q, z) ↦ let loaded : entry (t.load_tlb mode) a ≡ some q = v mode a q z in absurd (cc)
]

pub load_tlbs-Holds :
    (op : MemOp) (mode : Mode) (a page : ℕ) (t : Tlbs)
    → StoresInLoads t
    → Misses op mode a t
    → Holds (load_tlbs op mode a page t)
unfolding load_tlbs
load_tlbs-Holds op mode a page t v m = elim (Bool-cases (writes op)) [
  | inr r ↦
      let unread : entry (t.load_tlb mode) a ≡ none =
        sym (ap (λ b. entry (if b then t.store_tlb mode else t.load_tlb mode) a) r) ∙ m in
      rw r (enter_load-StoresInLoads mode a page t v (no_store mode a t v unread))
  | inl w ↦ elim (Option-cases (entry (t.store_tlb mode) a)) [
    | inl e ↦ rw (w, load_tlbs, Holds, e) (enter_both-StoresInLoads mode a page t v)
    | inr (q, e) ↦ rw (w, load_tlbs, Holds, e) refl
  ]
]
