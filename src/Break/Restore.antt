-- ===== src/Break/Restore.antt =====
-- breakpoint.c: what insert_breakpoints and remove_breakpoints do to the program's memory.
use g.Base.{
  ℕ, ◌+◌, ◌≡◌, ◌<◌, refl, ap, ◌∙◌, true, false, ◌&&◌, [], ◌∷◌, ◌==◌, ltb, if◌then◌else◌, arith,
  Bool-cases, inl, inr, ==_iff,
}
use g.Break.{Breakpoint, Chain, align, here, breakpoint_here_p}
use g.Break.Target.{Target}
use g.Break.Insert.{insert_one, insert_breakpoints, remove_one, remove_breakpoints, wanted}
use g.Break.Marks.{MarkedAt, IsAligned}

-- No breakpoint of the chain is in the program.
abbrev pub IsOut : Chain → Type 0
IsOut [] = Unit
IsOut (b ∷ bs) = (b.inserted ≡ false) × IsOut bs

-- Removing the chain turns the word `cur` at `a` into `v`.
abbrev pub Restores : ℕ → ℕ → Chain → ℕ → Type 0
Restores a v [] cur = cur ≡ v
Restores a v (b ∷ bs) cur =
    Restores a v bs (if b.inserted && b.address == a then b.shadow_contents else cur)

IsOut-Restores :
    (a v : ℕ) (chain : Chain) (cur : ℕ) → IsOut chain → cur ≡ v → Restores a v chain cur
IsOut-Restores a v [] cur h e = e
IsOut-Restores a v (b ∷ bs) cur h e = rw (h.0) (IsOut-Restores a v bs cur h.1 e)

Restores-eq :
    (a v : ℕ) (chain : Chain) {cur cur' : ℕ}
    → cur ≡ cur'
    → Restores a v chain cur'
    → Restores a v chain cur
Restores-eq a v chain e h = rw e h

module _ (t : Target) where
  open t use {State, read_memory, write_memory, read-write}

  module _ (a : ℕ) (aligned : align a ≡ a) where
    remove_one-reads :
        (m : State) (b : Breakpoint)
        → align b.address ≡ b.address
        → (remove_one t m b).0 ≡ 0
        → read_memory (remove_one t m b).1 a
          ≡ (if b.inserted && b.address == a then b.shadow_contents else read_memory m a)
    unfolding remove_one
    remove_one-reads m b al ok =
        ground (arith, read-write m b.address a b.shadow_contents al aligned)

    pub remove-Restores :
        (v : ℕ) (m : State) (chain : Chain)
        → IsAligned chain
        → (remove_breakpoints t m chain).0 ≡ 0
        → Restores a v chain (read_memory m a)
        → read_memory (remove_breakpoints t m chain).1 a ≡ v
    unfolding remove_breakpoints
    remove-Restores v m [] al ok h = h
    remove-Restores v m (b ∷ bs) al ok h = elim (Bool-cases ((remove_one t m b).0 == 0)) [
      | inl e ↦ rw e (
          remove-Restores v (remove_one t m b).1 bs al.1 (rw e at ok)
            (rw (remove_one-reads m b al.0 ((==_iff (remove_one t m b).0 0).0 e)) h))
      | inr e ↦
          let stopped : (remove_one t m b).0 ≡ 0 = rw e at ok in
          absurd (ground (arith, ==_iff (remove_one t m b).0 0))
    ]

    insert_one-reads :
        (insn : ℕ) (m : State) (b : Breakpoint)
        → align b.address ≡ b.address
        → read_memory (insert_one t insn m b).1 a ≡ (
            if wanted b && b.address == a && (insert_one t insn m b).0 == 0
            then insn
            else read_memory m a)
    unfolding insert_one
    insert_one-reads insn m b al = ground (arith, read-write m b.address a insn al aligned)

    -- The head of the chain after its round, as removal sees it at `a`.
    insert_one-shadow :
        (insn : ℕ) (m : State) (b : Breakpoint) (cur : ℕ)
        → b.inserted ≡ false
        → let b' = (insert_one t insn m b).2 in
          (if b'.inserted && b'.address == a then b'.shadow_contents else cur) ≡ (
            if wanted b && b.address == a && (insert_one t insn m b).0 == 0
            then read_memory m a
            else cur)
    unfolding insert_one
    insert_one-shadow insn m b cur out = ground (arith, ==_iff b.address a)

    -- What insertion leaves where the address is taken: nothing is written there.
    pub record Taken (insn : ℕ) (m : State) (chain : Chain) : Type 0 where
      pub reads : read_memory (insert_breakpoints t insn m chain).1 a ≡ read_memory m a
      pub kept : (v cur : ℕ) → cur ≡ v → Restores a v (insert_breakpoints t insn m chain).2 cur

    taken_unwanted :
        (n : ℕ) (b : Breakpoint)
        → 0 < n
        → (here a b ≡ true → b.duplicate ≡ ltb 0 n)
        → (wanted b && b.address == a) ≡ false
    taken_unwanted n b pos h = ground arith

    -- A round that wants nothing at `a` leaves the word there, and removal sees no shadow.
    record Passed (insn : ℕ) (m : State) (b : Breakpoint) : Type 0 where
      reads : read_memory (insert_one t insn m b).1 a ≡ read_memory m a
      shadow :
          (cur : ℕ)
          → let b' = (insert_one t insn m b).2 in
            (if b'.inserted && b'.address == a then b'.shadow_contents else cur) ≡ cur

    insert_one-Passed :
        (insn : ℕ) (m : State) (b : Breakpoint)
        → align b.address ≡ b.address
        → b.inserted ≡ false
        → (wanted b && b.address == a && (insert_one t insn m b).0 == 0) ≡ false
        → Passed insn m b
    insert_one-Passed insn m b al out w = record {
      reads = rw (insert_one-reads insn m b al, w);
      shadow = λ cur. rw (insert_one-shadow insn m b cur out, w);
    }

    pub insert-Taken :
        (n insn : ℕ) (m : State) (chain : Chain)
        → 0 < n
        → IsAligned chain
        → IsOut chain
        → MarkedAt a n chain
        → Taken insn m chain
    unfolding insert_breakpoints
    insert-Taken n insn m [] pos al out mk = record { reads = refl; kept = λ v cur e. e }
    insert-Taken n insn m (b ∷ bs) pos al out mk =
        let w : (wanted b && b.address == a) ≡ false = taken_unwanted n b pos mk.0 in
        let p = insert_one-Passed insn m b al.0 out.0 (ground arith) in
        let ih =
          insert-Taken (if here a b then n + 1 else n) insn (insert_one t insn m b).1 bs
            (ground arith) al.1 out.1 mk.1 in
        elim (Bool-cases ((insert_one t insn m b).0 == 0)) [
          | inl e ↦ record {
            reads = rw e (ih.reads ∙ p.reads);
            kept = λ v cur q. rw e (ih.kept v _ (p.shadow cur ∙ q));
          }
          | inr e ↦ record {
            reads = rw e p.reads;
            kept = λ v cur q. rw e (IsOut-Restores a v bs _ out.1 (p.shadow cur ∙ q));
          }
        ]

    pub insert-Restores :
        (insn : ℕ) (m : State) (chain : Chain)
        → IsAligned chain
        → IsOut chain
        → MarkedAt a 0 chain
        → Restores a
            (read_memory m a)
            (insert_breakpoints t insn m chain).2
            (read_memory (insert_breakpoints t insn m chain).1 a)
    unfolding insert_breakpoints
    insert-Restores insn m [] al out mk = refl
    insert-Restores insn m (b ∷ bs) al out mk =
        elim (Bool-cases (wanted b && b.address == a && (insert_one t insn m b).0 == 0)) [
          | inl w ↦
              let e : ((insert_one t insn m b).0 == 0) ≡ true = ground arith in
              let first : here a b ≡ true = ground arith in
              let taken =
                insert-Taken 1 insn (insert_one t insn m b).1 bs (omega arith) al.1 out.1
                  (rw first at (mk.1)) in
              let word = read_memory (insert_breakpoints t insn (insert_one t insn m b).1 bs).1 a in
              rw e (
                taken.kept (read_memory m a) _ (
                  insert_one-shadow insn m b word out.0
                  ∙ ap (λ c. if c then read_memory m a else word) w))
          | inr w ↦
              let p = insert_one-Passed insn m b al.0 out.0 w in
              elim (Bool-cases ((insert_one t insn m b).0 == 0)) [
                | inl e ↦
                    let later : here a b ≡ false = ground arith in
                    rw e (
                      rw (← p.reads) (
                        Restores-eq a _ (insert_breakpoints t insn (insert_one t insn m b).1 bs).2
                          (p.shadow (
                            read_memory (insert_breakpoints t insn (insert_one t insn m b).1 bs).1
                              a))
                          (insert-Restores insn (insert_one t insn m b).1 bs al.1 out.1
                            (rw later at (mk.1)))))
                | inr e ↦ rw e (IsOut-Restores a _ bs _ out.1 (p.shadow _ ∙ p.reads))
              ]
        ]

    -- A breakpoint that is hit first at its address reads as the instruction, if all is written.
    pub insert-reads :
        (insn : ℕ) (m : State) (chain : Chain)
        → IsAligned chain
        → IsOut chain
        → MarkedAt a 0 chain
        → (insert_breakpoints t insn m chain).0 ≡ 0
        → read_memory (insert_breakpoints t insn m chain).1 a
          ≡ (if breakpoint_here_p chain a then insn else read_memory m a)
    unfolding insert_breakpoints breakpoint_here_p
    insert-reads insn m [] al out mk ok = refl
    insert-reads insn m (b ∷ bs) al out mk ok = elim (Bool-cases ((insert_one t insn m b).0 == 0)) [
      | inl e ↦ elim (Bool-cases (here a b)) [
        | inl first ↦
            let taken =
              insert-Taken 1 insn (insert_one t insn m b).1 bs (omega arith) al.1 out.1
                (rw first at (mk.1)) in
            rw e (taken.reads ∙ rw (aligned, first) (first_reads e first))
        | inr later ↦
            let ih =
              insert-reads insn (insert_one t insn m b).1 bs al.1 out.1 (rw later at (mk.1))
                (rw e at ok) in
            rw e (
              ih
              ∙ rw (aligned, later)
                  (ap (λ w. if breakpoint_here_p bs a then insn else w) (later_reads later)))
      ]
      | inr e ↦ absurd (ground (arith, failed e (rw e at ok)))
    ]
      where
        first_reads :
            ((insert_one t insn m b).0 == 0) ≡ true
            → here a b ≡ true
            → read_memory (insert_one t insn m b).1 a ≡ insn
        first_reads e first =
            ground (arith, insert_one-reads insn m b al.0, out.0, mk.0, ==_iff b.address a)

        later_reads : here a b ≡ false → read_memory (insert_one t insn m b).1 a ≡ read_memory m a
        later_reads later = ground (arith, insert_one-reads insn m b al.0)

        failed : ((insert_one t insn m b).0 == 0) ≡ false → (insert_one t insn m b).0 ≡ 0 → ⊥
        failed e z = ground arith

  pub remove-IsOut :
      (m : State) (chain : Chain)
      → (remove_breakpoints t m chain).0 ≡ 0
      → IsOut (remove_breakpoints t m chain).2
  unfolding remove_breakpoints
  remove-IsOut m [] ok = tt
  remove-IsOut m (b ∷ bs) ok = elim (Bool-cases ((remove_one t m b).0 == 0)) [
    | inl e ↦
        rw e
          ((unfold remove_one in ground arith), remove-IsOut (remove_one t m b).1 bs (rw e at ok))
    | inr e ↦ let z : (remove_one t m b).0 ≡ 0 = rw e at ok in absurd (ground arith)
  ]

  insert_one-address :
      (insn : ℕ) (m : State) (b : Breakpoint) → (insert_one t insn m b).2.address ≡ b.address
  unfolding insert_one
  insert_one-address insn m b = ground arith

  -- Insertion moves no breakpoint.
  pub insert-IsAligned :
      (insn : ℕ) (m : State) (chain : Chain)
      → IsAligned chain
      → IsAligned (insert_breakpoints t insn m chain).2
  unfolding insert_breakpoints
  insert-IsAligned insn m [] h = tt
  insert-IsAligned insn m (b ∷ bs) h =
      let first : align (insert_one t insn m b).2.address ≡ (insert_one t insn m b).2.address =
        rw (insert_one-address insn m b) (h.0) in
      elim (Bool-cases ((insert_one t insn m b).0 == 0)) [
        | inl e ↦ rw e (first, insert-IsAligned insn (insert_one t insn m b).1 bs h.1)
        | inr e ↦ rw e (first, h.1)
      ]
