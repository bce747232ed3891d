-- ===== src/Sim/Cmmu/Tables.antt =====
-- sim/cmmu.c: the walk of l_to_p against a description of the two-level tables as words in memory.
use g.Base.{
  ℕ, ◌+◌, ◌*◌, ◌/◌, ◌%◌, ◌^◌, ◌<◌, ◌≡◌, ◌≢◌, refl, ap, ◌∙◌, Bool, true, false, ◌==◌, leb, ◌&&◌,
  ◌||◌, not, if◌then◌else◌, none, arith, Bool-cases, inl, inr,
}
use g.Sim.Bus.{Bus}
use g.Sim.Memory.{Memory, clear, read_cell, read_sim_w, write_sim_w}
use g.Sim.Memory.View.{word_at, IsMemory, read_cell-value, read_cell-word_at, write_cell-word_at}
use g.Sim.Memory.Write.{write_cell-sim_errno}
use g.Sim.Cmmu.{
  Mode, Access, Exception, is_user, is_write, Mmu, Translation, base, supervisor_only, writeprotect,
  valid, in_control_memory, search_batc, load_area,
}
use g.Sim.Cmmu.Protection.{dacc_or_cacc-raised}
use g.Sim.Cmmu.Walk.{
  descriptor_address, touch, update_descriptor, check_writeprotect, walk_page, walk_segment,
  translate, dacc_or_cacc,
}

-- What a walk comes to: a physical address, or a code in the status register.
pub data Outcome : Type 0 where
  mapped : ℕ → Outcome
  faulted : ℕ → Outcome

abbrev pub page_index : ℕ → ℕ → ℕ
page_index sd la = base sd * 1024 + la / 2 ^ 12 % 1024

abbrev pub resolve_page : (ℕ → ℕ) → Mode → Access → ℕ → ℕ → Outcome
resolve_page words mode access sd la =
    let pd = words (page_index sd la) in
    if not (valid pd)
    then Outcome.faulted 5
    else if is_user mode && supervisor_only pd
    then Outcome.faulted 6
    else if is_write access && (writeprotect sd || writeprotect pd)
    then Outcome.faulted 7
    else Outcome.mapped (base pd * 4096 + la % 4096)

-- The tables as a function: the segment table of a page number, at an address.
abbrev pub resolve : (ℕ → ℕ) → Mode → Access → ℕ → ℕ → Outcome
resolve words mode access table la =
    let sd = words (table * 1024 + la / 2 ^ 22) in
    if not (valid sd)
    then Outcome.faulted 4
    else if is_user mode && supervisor_only sd
    then Outcome.faulted 6
    else resolve_page words mode access sd la

-- The words afterwards: a descriptor that mapped a page is used, and modified by a write.
abbrev pub after : Access → Outcome → ℕ → (ℕ → ℕ) → ℕ → ℕ
after access (Outcome.faulted code) i words j = words j
after access (Outcome.mapped pa) i words j = if i == j then touch access (words j) else words j

abbrev pub outcome : {S : Type 0} → Translation S → Outcome
outcome r = elim r.exception [
  | Exception.e_none ↦ Outcome.mapped r.physical_address
  | _ ↦ Outcome.faulted r.mmu.regs.faultcode
]

-- A translation comes to what the tables say.
pub record Resolves {S : Type 0} (access : Access) (i : ℕ) (words : ℕ → ℕ) (o : Outcome)
    (r : Translation S) : Type 0 where
  pub outcome_is : outcome r ≡ o
  pub words_are : (j : ℕ) → word_at r.mmu.memory j ≡ after access o i words j

outcome-failed :
    {S : Type 0} (ex : Exception) (pa : ℕ) (s : Mmu S)
    → ex ≢ Exception.e_none
    → outcome (record { exception = ex; physical_address = pa; mmu = s })
      ≡ Outcome.faulted s.regs.faultcode
outcome-failed Exception.e_none pa s h = absurd (h refl)
outcome-failed Exception.e_dacc pa s h = refl
outcome-failed Exception.e_cacc pa s h = refl

-- A translation that fails and leaves the words as they are.
failed-Resolves :
    {S : Type 0} (access : Access) (i : ℕ) (words : ℕ → ℕ) (r : Translation S)
    → r.exception ≢ Exception.e_none
    → ((j : ℕ) → word_at r.mmu.memory j ≡ words j)
    → Resolves access i words (Outcome.faulted r.mmu.regs.faultcode) r
failed-Resolves access i words r h hw = record {
  outcome_is = outcome-failed r.exception r.physical_address r.mmu h;
  words_are = hw;
}

module _ (bus : Bus) where
  -- A load of an aligned word in memory.
  record Loads (a : ℕ) (m : Memory bus.State) (w : ℕ) (m' : Memory bus.State) : Type 0 where
    value : w ≡ word_at m (a / 4)
    errno : m'.sim_errno ≡ false
    words : (i : ℕ) → word_at m' i ≡ word_at m i
    size : m'.memory_size ≡ m.memory_size

  read_sim_w-Loads :
      (a : ℕ) (m : Memory bus.State)
      → a % 4 ≡ 0
      → a < m.memory_size
      → Loads a m (read_sim_w bus a m).0 (read_sim_w bus a m).1
  unfolding read_sim_w read_cell word_at
  read_sim_w-Loads a m e h =
      let i : leb m.memory_size a ≡ false = ground arith in
      rw (i, e)
        (record {
          value = read_cell-value a (clear m);
          errno = ground arith;
          words = λ j. read_cell-word_at a j (clear m);
          size = ground arith;
        })

  write_sim_w-words :
      (big : Bool) (a v j : ℕ) (m : Memory bus.State)
      → a % 4 ≡ 0
      → a < m.memory_size
      → let m' = (write_sim_w bus big a v m).1 in
        (m'.sim_errno ≡ false) × (word_at m' j ≡ (if a / 4 == j then v else word_at m j))
  unfolding write_sim_w word_at
  write_sim_w-words big a v j m e h =
      let i : leb m.memory_size a ≡ false = ground arith in
      rw (i, e)
        (
          write_cell-sim_errno bus a (λ w. v) (clear m),
          write_cell-word_at bus a j (λ w. v) (clear m),
        )

stored_word :
    (access : Access) (pd a i j : ℕ) (before words : ℕ → ℕ)
    → a ≡ i * 4
    → ((j : ℕ) → before j ≡ words j)
    → pd ≡ words i
    → (if a / 4 == j then touch access pd else before j)
      ≡ (if i == j then touch access (words j) else words j)
stored_word access pd a i j before words ea hw ep =
    let e : a / 4 ≡ i = omega arith in
    rw (e, hw j, ep)
      (elim (Bool-cases (i == j)) [
        | inl f ↦ let k : i ≡ j = ground arith in rw (f, k)
        | inr f ↦ rw f
      ])

module _ (bus : Bus) (big : Bool) (ex : Exception) (h : ex ≢ Exception.e_none) where
  -- The words of a memory before the walk, and a state in which no load has changed them.
  module _ (words : ℕ → ℕ) (mode : Mode) (access : Access) (la : ℕ) where
    check_writeprotect-Resolves :
        (i : ℕ) (s : Mmu bus.State)
        → let pd = s.regs.page_descriptor in
          s.regs.page_descriptor_address ≡ i * 4
          → i * 4 < s.memory.memory_size
          → ((j : ℕ) → word_at s.memory j ≡ words j)
          → pd ≡ words i
          → pd < 2 ^ 32
          → Resolves access i words
              (if is_write access && (writeprotect s.regs.segment_descriptor || writeprotect pd)
                then Outcome.faulted 7
                else Outcome.mapped (base pd * 4096 + la % 4096))
              (check_writeprotect bus big ex access la s)
    unfolding check_writeprotect update_descriptor
    check_writeprotect-Resolves i s ea hi hw ep hp =
        let pd = s.regs.page_descriptor in
        elim (Bool-cases
          (is_write access && (writeprotect s.regs.segment_descriptor || writeprotect pd))) [
            | inl e ↦ rw e (failed-Resolves access i words _ h hw)
            | inr e ↦ rw e (record {
              outcome_is = ap Outcome.mapped (omega arith);
              words_are = λ j.
                  (write_sim_w-words bus big s.regs.page_descriptor_address (touch access pd) j
                    s.memory (omega arith) (omega arith)).1
                  ∙ stored_word access pd s.regs.page_descriptor_address i j (word_at s.memory)
                      words ea hw ep;
            })
          ]

    walk_page-Resolves :
        (s : Mmu bus.State)
        → let sd = s.regs.segment_descriptor in
          let i = page_index sd la in
          sd < 2 ^ 32
          → i * 4 < s.memory.memory_size
          → ((j : ℕ) → word_at s.memory j ≡ words j)
          → ((j : ℕ) → words j < 2 ^ 32)
          → Resolves access i words
              (resolve_page words mode access sd la)
              (walk_page bus big ex mode access la s)
    unfolding walk_page
    walk_page-Resolves s hs hi hw hb =
        let sd = s.regs.segment_descriptor in
        let i = page_index sd la in
        let a = descriptor_address (base sd) (la / 2 ^ 12 % 1024) in
        let (pd, m) = read_sim_w bus a s.memory in
        let ea : a ≡ i * 4 = omega arith in
        let l = read_sim_w-Loads bus a s.memory (omega arith) (omega arith) in
        let q : a / 4 ≡ i = omega arith in
        let ep : pd ≡ words i = l.value ∙ hw (a / 4) ∙ ap words q in
        let hw' : (j : ℕ) → word_at m j ≡ words j = λ j. l.words j ∙ hw j in
        rw (← ep, l.errno)
          (elim (Bool-cases (not (valid pd))) [
            | inl e ↦ rw e (failed-Resolves access i words _ h hw')
            | inr e ↦ rw e (elim (Bool-cases (is_user mode && supervisor_only pd)) [
              | inl f ↦ rw f (failed-Resolves access i words _ h hw')
              | inr f ↦
                  rw f (
                    check_writeprotect-Resolves i _ ea (omega (arith, l.size)) hw' ep
                      (rw ep (hb i)))
            ])
          ])

    walk_segment-Resolves :
        (s : Mmu bus.State)
        → let table = s.regs.area_descriptor.segment_table_base in
          let segment = table * 1024 + la / 2 ^ 22 in
          let page = page_index (words segment) la in
          la < 2 ^ 32
          → table < 2 ^ 20
          → segment * 4 < s.memory.memory_size
          → page * 4 < s.memory.memory_size
          → ((j : ℕ) → word_at s.memory j ≡ words j)
          → ((j : ℕ) → words j < 2 ^ 32)
          → Resolves access page words
              (resolve words mode access table la)
              (walk_segment bus big ex mode access la s)
    unfolding walk_segment
    walk_segment-Resolves s hl ht hs hp hw hb =
        let table = s.regs.area_descriptor.segment_table_base in
        let segment = table * 1024 + la / 2 ^ 22 in
        let i = page_index (words segment) la in
        let a = descriptor_address table (la / 2 ^ 22) in
        let (sd, m) = read_sim_w bus a s.memory in
        let ea : a ≡ segment * 4 = omega arith in
        let l = read_sim_w-Loads bus a s.memory (omega arith) (omega arith) in
        let q : a / 4 ≡ segment = omega arith in
        let es : sd ≡ words segment = l.value ∙ hw (a / 4) ∙ ap words q in
        let hw' : (j : ℕ) → word_at m j ≡ words j = λ j. l.words j ∙ hw j in
        rw (← es, l.errno)
          (elim (Bool-cases (not (valid sd))) [
            | inl e ↦ rw e (failed-Resolves access _ words _ h hw')
            | inr e ↦ rw e (elim (Bool-cases (is_user mode && supervisor_only sd)) [
              | inl f ↦ rw f (failed-Resolves access _ words _ h hw')
              | inr f ↦
                  rw f (
                    walk_page-Resolves _ (rw es (hb segment)) (rw es (omega (arith, l.size))) hw'
                      hb)
            ])
          ])

-- Where the tables are searched, since the address is not in the control memory, its area has a
-- table and no block port hits, and where both descriptors lie in memory: the translation comes to
-- the physical address or the fault code that `resolve` reads off the words of the memory, and the
-- only word that it changes is the page descriptor of an access that is mapped, which is used then,
-- and modified by a write.
pub translate-resolve :
    (bus : Bus) (big : Bool) (i : ℕ) (mode : Mode) (access : Access) (la : ℕ) (s : Mmu bus.State)
    → let area = (if is_user mode then s.regs.uapr else s.regs.sapr) in
      let table = area.segment_table_base in
      let words = word_at s.memory in
      let page = page_index (words (table * 1024 + la / 2 ^ 22)) la in
      la < 2 ^ 32
      → table < 2 ^ 20
      → in_control_memory mode la ≡ false
      → area.valid ≡ true
      → search_batc mode la s.regs.bwp ≡ none
      → (table * 1024 + la / 2 ^ 22) * 4 < s.memory.memory_size
      → page * 4 < s.memory.memory_size
      → IsMemory s.memory
      → let r = translate bus big (dacc_or_cacc i) mode access la s in
        let o = resolve words mode access table la in
        (outcome r ≡ o) × ((j : ℕ) → word_at r.mmu.memory j ≡ after access o page words j)
unfolding translate
translate-resolve bus big i mode access la s hl ht hc hv hb hs hp im =
    let v =
      walk_segment-Resolves bus big (dacc_or_cacc i) (dacc_or_cacc-raised i) (word_at s.memory) mode
        access la
        (load_area mode (record s {
          regs = record s.regs { batc = record s.regs.batc { valid = false } };
          last_writeprotect = false;
        }))
        hl ht hs hp (λ j. refl) im.words in
    rw (hc, hv, hb) (v.outcome_is, v.words_are)
