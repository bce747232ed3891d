-- ===== src/Sim/Access/Stores.antt =====
-- sim/siminit.c, sim/misc.c and sim/execute.c: whatever is in a store tlb is in the load tlb of the
-- mode, after any operation on the tlbs.
use g.Base.{
  ℕ, zero, suc, ◌+◌, ◌/◌, ◌%◌, ◌^◌, ◌≡◌, refl, sym, ap, subst, ◌∙◌, Bool, true, Option, none, some,
  ◌==◌, ltb, ◌&&◌, if◌then◌else◌, arith, Bool-cases, Option-cases, ==_iff, inl, inr,
}
use g.Base.Words.{u32}
use g.Sim.Cmmu.{Mode, user, supervisor}
use g.Sim.Access.Tlb.{
  Tlb, Tlbs, btos, btop, slot, entry, enter, clear_slot, clear_segment, both, flush_tlb_page,
  flush_tlb_segment, flush_segments, flush_tlb_all, flush_pages, flush_tlb_range,
}

-- The slot of an address is that of a segment and a page.
abbrev pub at_slot : ℕ → ℕ → ℕ → Bool
at_slot seg k a = seg == btos a && k == btop a

pub entry-enter :
    (tlb : Tlb) (a page b : ℕ)
    → entry (enter tlb a page) b ≡ (if at_slot (btos a) (btop a) b then some page else entry tlb b)
unfolding entry enter
entry-enter tlb a page b = elim (Bool-cases (btos a == btos b)) [
  | inr n ↦ rw n refl
  | inl e ↦ elim (Bool-cases (btop a == btop b)) [
    | inl f ↦ rw (e, f) refl
    | inr f ↦ rw (e, f) (ap (λ n. slot (tlb n) (btop b)) ((==_iff (btos a) (btos b)).0 e))
  ]
]

clear_slot-here :
    (k : ℕ) (tlb : Tlb) (b : ℕ)
    → entry (clear_slot (btos b) k tlb) b ≡ (if k == btop b then none else entry tlb b)
unfolding entry
clear_slot-here k tlb b = elim (Option-cases (tlb (btos b))) [
  | inl z ↦ rw (clear_slot, z, entry, z) (ground arith)
  | inr (t, z) ↦ rw (clear_slot, z, entry, z) (ground arith)
]

entry-clear_slot :
    (seg k : ℕ) (tlb : Tlb) (b : ℕ)
    → entry (clear_slot seg k tlb) b ≡ (if at_slot seg k b then none else entry tlb b)
unfolding entry
entry-clear_slot seg k tlb b = elim (Bool-cases (seg == btos b)) [
  | inr n ↦ elim (Option-cases (tlb seg)) [
    | inl e ↦ rw (clear_slot, e, n) refl
    | inr (t, e) ↦ rw (clear_slot, e, n) refl
  ]
  | inl e ↦ rw e (
      subst (λ n. entry (clear_slot n k tlb) b ≡ (if k == btop b then none else entry tlb b))
        (sym ((==_iff seg (btos b)).0 e)) (clear_slot-here k tlb b))
]

clear_segment-here : (tlb : Tlb) (b : ℕ) → entry (clear_segment (btos b) tlb) b ≡ none
unfolding entry
clear_segment-here tlb b = elim (Option-cases (tlb (btos b))) [
  | inl z ↦ rw (clear_segment, z, entry, z) refl
  | inr (t, z) ↦ rw (clear_segment, z, entry) (ground arith)
]

entry-clear_segment :
    (seg : ℕ) (tlb : Tlb) (b : ℕ)
    → entry (clear_segment seg tlb) b ≡ (if seg == btos b then none else entry tlb b)
unfolding entry
entry-clear_segment seg tlb b = elim (Bool-cases (seg == btos b)) [
  | inr n ↦ elim (Option-cases (tlb seg)) [
    | inl e ↦ rw (clear_segment, e, n) refl
    | inr (t, e) ↦ rw (clear_segment, e, n) refl
  ]
  | inl e ↦ rw e (
      subst (λ n. entry (clear_segment n tlb) b ≡ none) (sym ((==_iff seg (btos b)).0 e))
        (clear_segment-here tlb b))
]

-- Every entry of a store tlb is in the load tlb too.
abbrev pub StoresInLoads : Tlbs → Type 0
StoresInLoads t =
    (mode : Mode) (a page : ℕ)
    → entry (t.store_tlb mode) a ≡ some page
    → entry (t.load_tlb mode) a ≡ some page

-- A change that empties some slots.
abbrev Clears : (Tlb → Tlb) → Type 0
Clears f =
    (hits : ℕ → Bool) × ((tlb : Tlb) (b : ℕ)
      → entry (f tlb) b ≡ (if hits b then none else entry tlb b))

cleared-Subset :
    (f : Tlb → Tlb) (stores loads : Tlb)
    → Clears f
    → ((a page : ℕ) → entry stores a ≡ some page → entry loads a ≡ some page)
    → (a page : ℕ) → entry (f stores) a ≡ some page
    → entry (f loads) a ≡ some page
cleared-Subset f stores loads (hits, h) sub a page e = elim (Bool-cases (hits a)) [
  | inl b ↦ let gone : entry (f stores) a ≡ none = h stores a ∙ rw b refl in absurd (cc)
  | inr b ↦
      let stays : entry (f stores) a ≡ entry stores a = h stores a ∙ rw b refl in
      h loads a ∙ rw b (sub a page (sym stays ∙ e))
]

both-StoresInLoads :
    (f : Tlb → Tlb) (mode : Mode) (t : Tlbs)
    → Clears f
    → StoresInLoads t
    → StoresInLoads (both f mode t)
both-StoresInLoads f user t c v user a page e =
    cleared-Subset f (t.store_tlb user) (t.load_tlb user) c (v user) a page e
both-StoresInLoads f user t c v supervisor a page e = v supervisor a page e
both-StoresInLoads f supervisor t c v supervisor a page e =
    cleared-Subset f (t.store_tlb supervisor) (t.load_tlb supervisor) c (v supervisor) a page e
both-StoresInLoads f supervisor t c v user a page e = v user a page e

clear_slot-Clears : (seg k : ℕ) → Clears (clear_slot seg k)
clear_slot-Clears seg k = (at_slot seg k, entry-clear_slot seg k)

clear_segment-Clears : (seg : ℕ) → Clears (clear_segment seg)
clear_segment-Clears seg = ((λ b. seg == btos b), entry-clear_segment seg)

-- What a change of the tlbs that may be err leaves.
abbrev pub Holds : Option Tlbs → Type 0
Holds none = true ≡ true
Holds (some t) = StoresInLoads t

pub flush_tlb_page-Holds :
    (mode : Mode) (page : ℕ) (t : Tlbs) → StoresInLoads t → Holds (flush_tlb_page mode page t)
unfolding flush_tlb_page
flush_tlb_page-Holds mode page t v = elim (Bool-cases (ltb (page / 2 ^ 10) 1024)) [
  | inl e ↦ rw e (
      both-StoresInLoads (clear_slot (page / 2 ^ 10) (page % 1024)) mode t
        (clear_slot-Clears (page / 2 ^ 10) (page % 1024)) v)
  | inr e ↦ rw e refl
]

pub flush_tlb_segment-Holds :
    (mode : Mode) (segment : ℕ) (t : Tlbs)
    → StoresInLoads t
    → Holds (flush_tlb_segment mode segment t)
unfolding flush_tlb_segment
flush_tlb_segment-Holds mode segment t v = elim (Bool-cases (ltb segment 1024)) [
  | inl e ↦
      rw e (both-StoresInLoads (clear_segment segment) mode t (clear_segment-Clears segment) v)
  | inr e ↦ rw e refl
]

flush_segments-Holds :
    (mode : Mode) (i left : ℕ) (t : Tlbs) → StoresInLoads t → Holds (flush_segments mode i left t)
unfolding flush_segments
flush_segments-Holds mode i zero t v = v
flush_segments-Holds mode i (suc left) t v = elim (Option-cases (flush_tlb_segment mode i t)) [
  | inl e ↦ rw (Holds, e) refl
  | inr (t', e) ↦
      rw (Holds, e)
        (flush_segments-Holds mode (i + 1) left t'
          (subst Holds e (flush_tlb_segment-Holds mode i t v)))
]

pub flush_tlb_all-Holds : (mode : Mode) (t : Tlbs) → StoresInLoads t → Holds (flush_tlb_all mode t)
unfolding flush_tlb_all
flush_tlb_all-Holds mode t v = flush_segments-Holds mode 0 1024 t v

flush_pages-StoresInLoads :
    (mode : Mode) (a left : ℕ) (t : Tlbs)
    → StoresInLoads t
    → StoresInLoads (flush_pages mode a left t)
unfolding flush_pages
flush_pages-StoresInLoads mode a zero t v = v
flush_pages-StoresInLoads mode a (suc left) t v =
    flush_pages-StoresInLoads mode (u32 (a + 4096)) left _ (
      both-StoresInLoads (clear_slot (btos a) (btop a)) mode t (clear_slot-Clears (btos a) (btop a))
        v)

pub flush_tlb_range-StoresInLoads :
    (mode : Mode) (a length : ℕ) (t : Tlbs)
    → StoresInLoads t
    → StoresInLoads (flush_tlb_range mode a length t)
unfolding flush_tlb_range
flush_tlb_range-StoresInLoads mode a length t v =
    flush_pages-StoresInLoads mode a (u32 (length + 4095) / 2 ^ 12) t v
