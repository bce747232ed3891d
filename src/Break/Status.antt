-- ===== src/Break/Status.antt =====
-- breakpoint.c: the status that breakpoint_stop_status returns.
use g.Base.{ℕ, ◌≡◌, refl, Bool, true, false, ◌&&◌, not, [], ◌∷◌, arith}
use g.Base.Int.{ℤ, pos, negsuc, eq_ℤ}
use g.Break.{Breakpoint, Chain, align, here, breakpoint_here_p}
use g.Break.Stop.{Visit, visit, stop_loop, breakpoint_stop_status, silenced}

-- Every breakpoint has a number, as each one has once its command is through.
abbrev pub IsNumbered : Chain → Type 0
IsNumbered [] = Unit
IsNumbered (b ∷ bs) = (eq_ℤ b.number (pos 0) ≡ false) × IsNumbered bs

silenced-ne_zero : (n : ℤ) → eq_ℤ n (pos 0) ≡ false → eq_ℤ (silenced n) (pos 0) ≡ false
silenced-ne_zero (pos n) h = ground arith
silenced-ne_zero (negsuc n) h = refl

-- What a round may answer at a breakpoint that has a number.
abbrev Answers : Bool → Visit → Type 0
Answers at Visit.elsewhere = at ≡ false
Answers at (Visit.resume b) = at ≡ true
Answers at (Visit.halt b status commands) = (at ≡ true) × (eq_ℤ status (pos 0) ≡ false)

visit-Answers :
    (value_zero : ℕ → Bool) (a fa : ℕ) (b : Breakpoint)
    → eq_ℤ b.number (pos 0) ≡ false
    → Answers (here a b) (visit value_zero a fa b)
unfolding visit
visit-Answers value_zero a fa b h = ground (arith, silenced-ne_zero b.number h)

stop_loop-status :
    (value_zero : ℕ → Bool) (pc fa : ℕ) (cont : ℤ) (chain : Chain)
    → IsNumbered chain
    → eq_ℤ (stop_loop value_zero (align pc) fa cont chain).status (pos 0)
      ≡ (eq_ℤ cont (pos 0) && not (breakpoint_here_p chain pc))
unfolding stop_loop breakpoint_here_p
stop_loop-status value_zero pc fa cont [] h = ground arith
stop_loop-status value_zero pc fa cont (b ∷ bs) h =
    go (visit value_zero (align pc) fa b) refl (visit-Answers value_zero (align pc) fa b h.0)
      (stop_loop-status value_zero pc fa cont bs h.1)
      (stop_loop-status value_zero pc fa (negsuc 0) bs h.1)
  where
    go :
        (v : Visit)
        → visit value_zero (align pc) fa b ≡ v
        → Answers (here (align pc) b) (visit value_zero (align pc) fa b)
        → eq_ℤ (stop_loop value_zero (align pc) fa cont bs).status (pos 0)
          ≡ (eq_ℤ cont (pos 0) && not (breakpoint_here_p bs pc))
        → eq_ℤ (stop_loop value_zero (align pc) fa (negsuc 0) bs).status (pos 0) ≡ false
        → eq_ℤ (stop_loop value_zero (align pc) fa cont (b ∷ bs)).status (pos 0)
          ≡ (eq_ℤ cont (pos 0) && not (breakpoint_here_p (b ∷ bs) pc))
    go Visit.elsewhere e w ih ih' =
        let n : here (align pc) b ≡ false = rw e at w in rw (e, n, stop_loop) ih
    go (Visit.resume b') e w ih ih' =
        let n : here (align pc) b ≡ true = rw e at w in rw (e, n, stop_loop) (ground arith)
    go (Visit.halt b' status commands) e w ih ih' =
        let n : (here (align pc) b ≡ true) × (eq_ℤ status (pos 0) ≡ false) = rw e at w in
        rw (e, n.0, stop_loop) (ground arith)

-- Where no breakpoint of the chain has the number 0, breakpoint_stop_status returns 0 exactly where
-- breakpoint_here_p says that no enabled breakpoint is at the stop, whatever the conditions and
-- counts do.
pub breakpoint_stop_status-zero :
    (value_zero : ℕ → Bool) (pc fa : ℕ) (chain : Chain)
    → IsNumbered chain
    → eq_ℤ (breakpoint_stop_status value_zero pc fa chain).status (pos 0)
      ≡ not (breakpoint_here_p chain pc)
unfolding breakpoint_stop_status
breakpoint_stop_status-zero value_zero pc fa chain h =
    stop_loop-status value_zero pc fa (pos 0) chain h
