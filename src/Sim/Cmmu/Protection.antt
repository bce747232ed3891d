-- ===== src/Sim/Cmmu/Protection.antt =====
-- sim/cmmu.c: what every successful translation of l_to_p has, whichever branch it takes.
use Prim.Native.Nat.{bit_or}
use g.Base.{
  ℕ, ◌*◌, ◌/◌, ◌%◌, ◌^◌, ◌≡◌, ◌≢◌, refl, Bool, true, false, none, some, ◌&&◌, sym, ◌||◌, not,
  if◌then◌else◌, arith, Bool-cases, inl, inr, ◌∙◌, ap, Option-cases,
}
use mathlib.Core.Option.{some-injective, none-ne-some}
use g.Base.Bits.{or-shifted}
use g.Sim.Bus.{Bus}
use g.Sim.Memory.{Memory, read_sim_w}
use g.Sim.Cmmu.{
  Mode, Access, Exception, is_user, is_write, Cmmu, Mmu, Translation, bit, base, supervisor_only,
  writeprotect, valid, in_control_memory, control_memory, Batc, straight_through, search_batc,
  through_batc,
}
use g.Sim.Cmmu.Walk.{
  update_descriptor, check_writeprotect, walk_page, walk_segment, translate, l_to_p, Cmmus,
  dacc_or_cacc, selected, answer, chosen, descriptor_address,
}

-- The writeprotect bit, bit 2, of either descriptor that the tables have for the address, as the two
-- loads of the walk read them.
abbrev pub table_protection : (bus : Bus) → ℕ → ℕ → Memory bus.State → Bool
table_protection bus table la m =
    let (sd, m1) = read_sim_w bus (descriptor_address table (la / 2 ^ 22)) m in
    let (pd, m2) = read_sim_w bus (descriptor_address (base sd) (la / 2 ^ 12 % 1024)) m1 in
    bit 2 sd || bit 2 pd

-- What protects the address from writes: nothing in the control memory or where the area of the mode is
-- not valid, else the block port that hits, else the descriptors.
abbrev pub is_protected : (bus : Bus) → Mode → ℕ → Cmmu → Memory bus.State → Bool
is_protected bus mode la regs m =
    let area = (if is_user mode then regs.uapr else regs.sapr) in
    if in_control_memory mode la
    then false
    else if not area.valid
    then false
    else elim (search_batc mode la regs.bwp) [
      | some b ↦ b.writeprotect
      | none ↦ table_protection bus area.segment_table_base la m
    ]

-- A translation that succeeds keeps the place in the page, says whether the page is protected, and
-- is no write to a protected page.
record IsSafe {S : Type 0} (access : Access) (la : ℕ) (protected : Bool) (r : Translation S)
    : Type 0 where
  offset : r.exception ≡ Exception.e_none → r.physical_address % 4096 ≡ la % 4096
  reported : r.exception ≡ Exception.e_none → r.mmu.last_writeprotect ≡ protected
  unprotected : r.exception ≡ Exception.e_none → is_write access && protected ≡ false

failed-IsSafe :
    {S : Type 0} (access : Access) (la : ℕ) (protected : Bool) (r : Translation S)
    → r.exception ≢ Exception.e_none
    → IsSafe access la protected r
failed-IsSafe access la protected r h = record {
  offset = λ e. absurd (h e);
  reported = λ e. absurd (h e);
  unprotected = λ e. absurd (h e);
}

straight-IsSafe :
    {S : Type 0} (access : Access) (la : ℕ) (r : Translation S)
    → r.physical_address ≡ la
    → r.mmu.last_writeprotect ≡ false
    → IsSafe access la false r
straight-IsSafe access la r e f = record {
  offset = λ _. ap (λ x. x % 4096) e;
  reported = λ _. f;
  unprotected = λ _. ground arith;
}

module _ (bus : Bus) (big : Bool) (ex : Exception) (h : ex ≢ Exception.e_none) where
  check_writeprotect-IsSafe :
      (access : Access) (la : ℕ) (s : Mmu bus.State)
      → IsSafe access la
          (bit 2 s.regs.segment_descriptor || bit 2 s.regs.page_descriptor)
          (check_writeprotect bus big ex access la s)
  unfolding check_writeprotect update_descriptor
  check_writeprotect-IsSafe access la s =
      let protect = writeprotect s.regs.segment_descriptor || writeprotect s.regs.page_descriptor in
      elim (Bool-cases (is_write access && protect)) [
        | inl e ↦ rw e (failed-IsSafe access la _ _ h)
        | inr e ↦
            rw e (record { offset = λ _. omega arith; reported = λ _. refl; unprotected = λ _. e })
      ]

  walk_page-IsSafe :
      (mode : Mode) (access : Access) (la : ℕ) (s : Mmu bus.State)
      → let address = descriptor_address (base s.regs.segment_descriptor) (la / 2 ^ 12 % 1024) in
        IsSafe access la
          (bit 2 s.regs.segment_descriptor || bit 2 (read_sim_w bus address s.memory).0)
          (walk_page bus big ex mode access la s)
  unfolding walk_page
  walk_page-IsSafe mode access la s =
      let (w, m) =
        read_sim_w bus (descriptor_address (base s.regs.segment_descriptor) (la / 2 ^ 12 % 1024))
          s.memory in
      elim (Bool-cases m.sim_errno) [
        | inl e ↦ rw e (failed-IsSafe access la _ _ h)
        | inr e ↦ rw e (elim (Bool-cases (not (valid w))) [
          | inl f ↦ rw f (failed-IsSafe access la _ _ h)
          | inr f ↦ rw f (elim (Bool-cases (is_user mode && supervisor_only w)) [
            | inl g ↦ rw g (failed-IsSafe access la _ _ h)
            | inr g ↦ rw g (check_writeprotect-IsSafe access la _)
          ])
        ])
      ]

  walk_segment-IsSafe :
      (mode : Mode) (access : Access) (la : ℕ) (s : Mmu bus.State)
      → IsSafe access la
          (table_protection bus s.regs.area_descriptor.segment_table_base la s.memory)
          (walk_segment bus big ex mode access la s)
  unfolding walk_segment
  walk_segment-IsSafe mode access la s =
      let (w, m) =
        read_sim_w bus (descriptor_address s.regs.area_descriptor.segment_table_base (la / 2 ^ 22))
          s.memory in
      elim (Bool-cases m.sim_errno) [
        | inl e ↦ rw e (failed-IsSafe access la _ _ h)
        | inr e ↦ rw e (elim (Bool-cases (not (valid w))) [
          | inl f ↦ rw f (failed-IsSafe access la _ _ h)
          | inr f ↦ rw f (elim (Bool-cases (is_user mode && supervisor_only w)) [
            | inl g ↦ rw g (failed-IsSafe access la _ _ h)
            | inr g ↦ rw g (walk_page-IsSafe mode access la _)
          ])
        ])
      ]

  through_batc-IsSafe :
      (access : Access) (la : ℕ) (b : Batc) (s : Mmu bus.State)
      → IsSafe access la b.writeprotect (through_batc ex access la b s)
  unfolding through_batc
  through_batc-IsSafe access la b s =
      let k : b.p_base_address * 2 ^ 19 % 2 ^ 32 ≡ b.p_base_address % 2 ^ 13 * 2 ^ 19 =
        omega arith in
      elim (Bool-cases (b.writeprotect && is_write access)) [
        | inl e ↦ rw e (failed-IsSafe access la _ _ h)
        | inr e ↦ rw e (record {
          offset = λ _. omega (
            arith,
            ap (λ x. bit_or x (la % 2 ^ 19)) k,
            or-shifted 19 (b.p_base_address % 2 ^ 13) (la % 2 ^ 19) (omega arith),
          );
          reported = λ _. refl;
          unprotected = λ _. ground (arith, e);
        })
      ]

  translate-IsSafe :
      (mode : Mode) (access : Access) (la : ℕ) (s : Mmu bus.State)
      → IsSafe access la
          (is_protected bus mode la s.regs s.memory)
          (translate bus big ex mode access la s)
  unfolding translate control_memory straight_through
  translate-IsSafe mode access la s = elim (Bool-cases (in_control_memory mode la)) [
    | inl e ↦ rw e (straight-IsSafe access la _ refl refl)
    | inr e ↦
        let a = (if is_user mode then s.regs.uapr else s.regs.sapr) in
        elim (Bool-cases (not a.valid)) [
          | inl f ↦ rw (e, f) (straight-IsSafe access la _ refl refl)
          | inr f ↦ elim (Option-cases (search_batc mode la s.regs.bwp)) [
            | inl g ↦ rw (e, f, g) (walk_segment-IsSafe mode access la _)
            | inr (b, g) ↦ rw (e, f, g) (through_batc-IsSafe access la b _)
          ]
        ]
  ]

pub dacc_or_cacc-raised : (i : ℕ) → dacc_or_cacc i ≢ Exception.e_none
dacc_or_cacc-raised i = ground arith

answer-keeps :
    {S : Type 0} (access : Access) (la : ℕ) (protected : Bool) (t t' : Cmmus S) (i : ℕ)
    (r : Translation S) (pa : ℕ)
    → IsSafe access la protected r
    → answer t i r ≡ (Exception.e_none, pa, t')
    → (pa % 4096 ≡ la % 4096)
      × (t'.last_writeprotect ≡ protected)
      × (is_write access && protected ≡ false)
answer-keeps access la protected t t' i r pa v e =
    let x : r.exception ≡ Exception.e_none = ap (λ p. p.0) e in
    (
      ap (λ p. p.1 % 4096) (sym e) ∙ v.offset x,
      ap (λ p. p.2.last_writeprotect) (sym e) ∙ v.reported x,
      v.unprotected x,
    )

-- l_to_p by the bit of the CMMU in `cmmus`.
module _ (bus : Bus) (big : Bool) (mode : Mode) (la cmmu : ℕ) (access : Access)
    (t : Cmmus bus.State) where
  l_to_p-active :
      bit cmmu t.cmmus ≡ true
      → let i = chosen t.selected_processor cmmu in
        l_to_p bus big mode la cmmu access t
        ≡ some (answer t i (translate bus big (dacc_or_cacc i) mode access la (selected t i)))
  unfolding l_to_p
  l_to_p-active b = rw b

  l_to_p-inactive : bit cmmu t.cmmus ≡ false → l_to_p bus big mode la cmmu access t ≡ none
  unfolding l_to_p
  l_to_p-inactive b = rw b

-- Where l_to_p answers E_NONE, in any mode, through any branch and whatever the tables hold, the
-- physical address has the offset in its page that the logical one has, last_writeprotect says whether
-- the address is protected, and the access was no write to a protected address. An address is protected
-- by the block port that hits or, without one, by the writeprotect bit of the segment descriptor or of
-- the page descriptor that the tables in memory had for it; in the control memory, and where the area
-- of the mode is not valid, it is not.
pub l_to_p-keeps_page :
    (bus : Bus) (big : Bool) (mode : Mode) (la cmmu : ℕ) (access : Access) (t t' : Cmmus bus.State)
    (pa : ℕ)
    → l_to_p bus big mode la cmmu access t ≡ some (Exception.e_none, pa, t')
    → let regs = t.cmmu_table (chosen t.selected_processor cmmu) in
      let protected = is_protected bus mode la regs t.memory in
      (pa % 4096 ≡ la % 4096)
      × (t'.last_writeprotect ≡ protected)
      × (is_write access && protected ≡ false)
l_to_p-keeps_page bus big mode la cmmu access t t' pa e =
    let i = chosen t.selected_processor cmmu in
    let s = selected t i in
    elim (Bool-cases (bit cmmu t.cmmus)) [
      | inl b ↦
          answer-keeps access la (is_protected bus mode la s.regs s.memory) t t' i _ pa
            (translate-IsSafe bus big (dacc_or_cacc i) (dacc_or_cacc-raised i) mode access la s)
            (some-injective _ _ (sym (l_to_p-active bus big mode la cmmu access t b) ∙ e))
      | inr b ↦ absurd (none-ne-some _ (sym (l_to_p-inactive bus big mode la cmmu access t b) ∙ e))
    ]
