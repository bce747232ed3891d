-- ===== src/Break/Program.antt =====
-- breakpoint.c: the contract of insert_breakpoints and remove_breakpoints with the program, and
-- the case in which a temporary breakpoint breaks it.
use g.Base.{ℕ, ◌≡◌, refl, Bool, true, none, [], ◌∷◌, if◌then◌else◌, arith}
use g.Break.{Enable, Breakpoint, Chain, align, here, breakpoint_here_p}
use g.Break.Target.{Target}
use g.Break.Insert.{delete_breakpoint, insert_breakpoints, remove_breakpoints}
use g.Break.Marks.{IsIn, unlink-IsMarked, IsMarked}
use g.Break.Restore.{
  IsOut, insert-reads, insert-Restores, insert-Taken, remove-Restores, remove-IsOut,
  insert-IsAligned,
}
use g.Break.Stop.{breakpoint_stop_status, stop_loop, visit}

breakpoint_here_p-align :
    (chain : Chain) (pc : ℕ) → breakpoint_here_p chain (align pc) ≡ breakpoint_here_p chain pc
unfolding breakpoint_here_p
breakpoint_here_p-align [] pc = refl
breakpoint_here_p-align (b ∷ bs) pc = ground (arith, breakpoint_here_p-align bs pc)

module _ (t : Target) where
  open t use {State, read_memory}

  -- Where the chain is marked and no breakpoint of it is inserted, an insertion that succeeds puts
  -- the breakpoint instruction at the aligned address of each `pc` at which breakpoint_here_p says
  -- that an enabled breakpoint is, and leaves the word at every other such address as it was.
  pub insert_breakpoints-reads :
      (insn : ℕ) (m : State) (chain : Chain) (pc : ℕ)
      → IsMarked chain
      → IsOut chain
      → (insert_breakpoints t insn m chain).0 ≡ 0
      → read_memory (insert_breakpoints t insn m chain).1 (align pc)
        ≡ (if breakpoint_here_p chain pc then insn else read_memory m (align pc))
  insert_breakpoints-reads insn m chain pc mk out ok =
      rw (← breakpoint_here_p-align chain pc) (
        insert-reads t (align pc) (omega arith) insn m chain mk.aligned out (mk.marks (align pc))
          ok)

  -- From a marked chain with no breakpoint inserted, an insertion, whether it succeeds or stops
  -- half-way, and then a removal that succeeds give back every aligned word of the program, and
  -- leave no breakpoint inserted.
  pub remove-insert :
      (insn : ℕ) (m : State) (chain : Chain)
      → IsMarked chain
      → IsOut chain
      → let (errno, m', chain') = insert_breakpoints t insn m chain in
        (remove_breakpoints t m' chain').0 ≡ 0
        → ((a : ℕ)
            → align a ≡ a
            → read_memory (remove_breakpoints t m' chain').1 a ≡ read_memory m a)
          × IsOut (remove_breakpoints t m' chain').2
  remove-insert insn m chain mk out ok =
      let (errno, m', chain') = insert_breakpoints t insn m chain in
      (
        (λ a al.
            remove-Restores t a al (read_memory m a) m' chain'
              (insert-IsAligned t insn m chain mk.aligned) ok
              (insert-Restores t a al insn m chain mk.aligned out (mk.marks a))),
        remove-IsOut t m' chain' ok,
      )

  -- A breakpoint that stops the program once.
  pub record StopsOnce (b : Breakpoint) (a : ℕ) : Type 0 where
    pub at : here a b ≡ true
    pub once : b.enable ≡ Enable.temporary
    pub any_frame : b.frame ≡ 0
    pub uncond : b.cond ≡ none
    pub counted : b.ignore_count ≡ 0

  stopped_once :
      (value_zero : ℕ → Bool) (pc fa : ℕ) (b : Breakpoint) (bs : Chain)
      → StopsOnce b (align pc)
      → (breakpoint_stop_status value_zero pc fa (b ∷ bs)).chain
        ≡ record b { enable = Enable.disabled } ∷ bs
  unfolding breakpoint_stop_status stop_loop visit
  stopped_once value_zero pc fa b bs h = ground arith

  -- Where the first breakpoint of a marked chain, none of it inserted, is a temporary one at `pc`
  -- without a condition, a frame or an ignore count, and a later enabled breakpoint of the chain is
  -- there: after breakpoint_stop_status breakpoint_here_p still says that a breakpoint is there, but
  -- insert_breakpoints leaves the word at its address as it was.
  pub once-hides-others :
      (value_zero : ℕ → Bool) (pc fa insn : ℕ) (m : State) (b : Breakpoint) (bs : Chain)
      → StopsOnce b (align pc)
      → IsMarked (b ∷ bs)
      → IsOut (b ∷ bs)
      → breakpoint_here_p bs pc ≡ true
      → let chain = (breakpoint_stop_status value_zero pc fa (b ∷ bs)).chain in
        (breakpoint_here_p chain pc ≡ true)
        × (read_memory (insert_breakpoints t insn m chain).1 (align pc) ≡ read_memory m (align pc))
  unfolding breakpoint_here_p
  once-hides-others value_zero pc fa insn m b bs h mk out others =
      let taken =
        insert-Taken t (align pc) (omega arith) 1 insn m
          (record b { enable = Enable.disabled } ∷ bs) (omega arith) mk.aligned out
          ((λ e. cc), rw h.at at ((mk.marks (align pc)).1)) in
      rw (stopped_once value_zero pc fa b bs h) (others, taken.reads)

  -- delete_breakpoint leaves a marked chain that has the breakpoint marked.
  pub delete_breakpoint-IsMarked :
      (bpt : Breakpoint) (m : State) (chain : Chain)
      → IsIn bpt chain
      → IsMarked chain
      → IsMarked (delete_breakpoint t bpt m chain).1
  unfolding delete_breakpoint
  delete_breakpoint-IsMarked bpt m chain i h = unlink-IsMarked bpt chain i h
