-- ===== src/Break/Marks.antt =====
-- breakpoint.c: the `duplicate` marks. Of the breakpoints at one address that are not disabled,
-- all but the first are marked, and each operation on the chain keeps this.
use g.Base.{
  ℕ, ◌+◌, ◌≡◌, ◌≢◌, true, false, [], ◌∷◌, ◌++◌, ◌==◌, ltb, if◌then◌else◌, arith, Bool-cases, inl,
  inr, ==_iff,
}
use g.Break.{Enable, Breakpoint, Chain, align, here}
use g.Break.Chain.{
  mark, check_duplicates, SymtabAndLine, raw_breakpoint, update_at, set_raw_breakpoint, unlink,
  set_enable,
}

-- The marks at the address `a`, behind `n` breakpoints there that are not disabled.
abbrev pub MarkedAt : ℕ → ℕ → Chain → Type 0
MarkedAt a n [] = Unit
MarkedAt a n (b ∷ bs) =
    (here a b ≡ true → b.duplicate ≡ ltb 0 n) × MarkedAt a (if here a b then n + 1 else n) bs

abbrev pub IsAligned : Chain → Type 0
IsAligned [] = Unit
IsAligned (b ∷ bs) = (align b.address ≡ b.address) × IsAligned bs

pub record IsMarked (chain : Chain) : Type 0 where
  pub marks : (a : ℕ) → MarkedAt a 0 chain
  pub aligned : IsAligned chain

mark-MarkedAt : (a n : ℕ) (chain : Chain) → MarkedAt a n (mark a n chain)
unfolding mark
mark-MarkedAt a n [] = tt
mark-MarkedAt a n (b ∷ bs) = elim (Bool-cases (here a b)) [
  | inl p ↦ rw p ((λ h. ground arith), rw p (mark-MarkedAt a (n + 1) bs))
  | inr p ↦ rw p ((λ h. cc), rw p (mark-MarkedAt a n bs))
]

here-here_ne : (a c : ℕ) (b : Breakpoint) → a ≢ c → here a b ≡ true → here c b ≡ false
here-here_ne a c b ne h = ground arith

-- Marking at one address leaves the marks at the others.
mark-MarkedAt_ne :
    (a c m n : ℕ) (chain : Chain) → a ≢ c → MarkedAt c n chain → MarkedAt c n (mark a m chain)
unfolding mark
mark-MarkedAt_ne a c m n [] ne h = tt
mark-MarkedAt_ne a c m n (b ∷ bs) ne h = elim (Bool-cases (here a b)) [
  | inl p ↦
      let q : here c b ≡ false = here-here_ne a c b ne p in
      rw p ((λ h'. cc), rw q (mark-MarkedAt_ne a c (m + 1) n bs ne (rw q at (h.1))))
  | inr p ↦ rw p (h.0, mark-MarkedAt_ne a c m (if here c b then n + 1 else n) bs ne h.1)
]

mark-IsAligned : (a n : ℕ) (chain : Chain) → IsAligned chain → IsAligned (mark a n chain)
unfolding mark
mark-IsAligned a n [] h = tt
mark-IsAligned a n (b ∷ bs) h = elim (Bool-cases (here a b)) [
  | inl p ↦ rw p (h.0, mark-IsAligned a (n + 1) bs h.1)
  | inr p ↦ rw p (h.0, mark-IsAligned a n bs h.1)
]

-- The marks at every address but `a`.
abbrev MarkedBut : ℕ → Chain → Type 0
MarkedBut a chain = (c : ℕ) → a ≢ c → MarkedAt c 0 chain

align-align : (a : ℕ) → align (align a) ≡ align a
align-align a = omega arith

check_duplicates-IsMarked :
    (a : ℕ) (chain : Chain)
    → MarkedBut (align a) chain
    → IsAligned chain
    → IsMarked (check_duplicates a chain)
unfolding check_duplicates
check_duplicates-IsMarked a chain h al = record {
  marks = λ c. elim (Bool-cases (align a == c)) [
    | inl e ↦ rw (← (==_iff (align a) c).0 e) (mark-MarkedAt (align a) 0 chain)
    | inr e ↦
        let ne : align a ≢ c = ground arith in mark-MarkedAt_ne (align a) c 0 0 chain ne (h c ne)
  ];
  aligned = mark-IsAligned (align a) 0 chain al;
}

append-MarkedAt :
    (c n : ℕ) (chain : Chain) (b : Breakpoint)
    → here c b ≡ false
    → MarkedAt c n chain
    → MarkedAt c n (chain ++ b ∷ [])
append-MarkedAt c n [] b e h = ((λ h'. cc), tt)
append-MarkedAt c n (b' ∷ bs) b e h =
    (h.0, append-MarkedAt c (if here c b' then n + 1 else n) bs b e h.1)

append-IsAligned :
    (chain : Chain) (b : Breakpoint)
    → align b.address ≡ b.address
    → IsAligned chain
    → IsAligned (chain ++ b ∷ [])
append-IsAligned [] b e h = (e, tt)
append-IsAligned (b' ∷ bs) b e h = (h.0, append-IsAligned bs b e h.1)

-- Where the chain is marked (each `duplicate` flag of an enabled breakpoint says whether an enabled
-- one before it has its address, and the addresses are aligned), the chain that set_raw_breakpoint
-- makes, for any location and place of the new structure, is marked too.
pub set_raw_breakpoint-IsMarked :
    (self : ℕ) (sal : SymtabAndLine) (chain : Chain)
    → IsMarked chain
    → IsMarked (set_raw_breakpoint self sal chain)
unfolding set_raw_breakpoint
set_raw_breakpoint-IsMarked self sal chain h =
    check_duplicates-IsMarked sal.pc (chain ++ raw_breakpoint self sal ∷ [])
      (λ c ne. append-MarkedAt c 0 chain (raw_breakpoint self sal) (ground arith) (h.marks c))
      (append-IsAligned chain (raw_breakpoint self sal) (align-align sal.pc) h.aligned)

-- The breakpoint of the chain that `p` points to stands at `a`.
abbrev pub PointsTo : ℕ → ℕ → Chain → Type 0
PointsTo p a [] = Unit
PointsTo p a (b ∷ bs) = (b.self ≡ p → b.address ≡ a) × PointsTo p a bs

unlink-MarkedAt :
    (p a c n : ℕ) (chain : Chain)
    → PointsTo p a chain
    → a ≢ c
    → MarkedAt c n chain
    → MarkedAt c n (unlink p chain)
unfolding unlink
unlink-MarkedAt p a c n [] pt ne h = tt
unlink-MarkedAt p a c n (b ∷ bs) pt ne h = elim (Bool-cases (b.self == p)) [
  | inl e ↦
      let q : here c b ≡ false = ground (arith, pt.0, (==_iff b.self p).0 e) in rw e (rw q at (h.1))
  | inr e ↦ rw e (h.0, unlink-MarkedAt p a c (if here c b then n + 1 else n) bs pt.1 ne h.1)
]

unlink-IsAligned : (p : ℕ) (chain : Chain) → IsAligned chain → IsAligned (unlink p chain)
unfolding unlink
unlink-IsAligned p [] h = tt
unlink-IsAligned p (b ∷ bs) h = elim (Bool-cases (b.self == p)) [
  | inl e ↦ rw e (h.1)
  | inr e ↦ rw e (h.0, unlink-IsAligned p bs h.1)
]

enable-MarkedAt :
    (e : Enable) (p a c n : ℕ) (chain : Chain)
    → PointsTo p a chain
    → a ≢ c
    → MarkedAt c n chain
    → MarkedAt c n (update_at p (λ b. record b { enable = e }) chain)
unfolding update_at
enable-MarkedAt e p a c n [] pt ne h = tt
enable-MarkedAt e p a c n (b ∷ bs) pt ne h = elim (Bool-cases (b.self == p)) [
  | inl s ↦
      let q : b.address ≡ a = pt.0 ((==_iff b.self p).0 s) in
      let r : here c b ≡ false = ground arith in
      let r' : here c (record b { enable = e }) ≡ false = ground arith in
      rw s ((λ h'. cc), rw r' (rw r at (h.1)))
  | inr s ↦ rw s (h.0, enable-MarkedAt e p a c (if here c b then n + 1 else n) bs pt.1 ne h.1)
]

enable-IsAligned :
    (e : Enable) (p : ℕ) (chain : Chain)
    → IsAligned chain
    → IsAligned (update_at p (λ b. record b { enable = e }) chain)
unfolding update_at
enable-IsAligned e p [] h = tt
enable-IsAligned e p (b ∷ bs) h = elim (Bool-cases (b.self == p)) [
  | inl s ↦ rw s h
  | inr s ↦ rw s (h.0, enable-IsAligned e p bs h.1)
]

-- What a command knows of the breakpoint that it is given.
pub record IsIn (bpt : Breakpoint) (chain : Chain) : Type 0 where
  pub points : PointsTo bpt.self bpt.address chain
  pub aligned : align bpt.address ≡ bpt.address

-- A change of the state of a breakpoint that is in a marked chain, to any of the four states,
-- leaves the chain marked.
pub set_enable-IsMarked :
    (e : Enable) (bpt : Breakpoint) (chain : Chain)
    → IsIn bpt chain
    → IsMarked chain
    → IsMarked (set_enable e bpt chain)
unfolding set_enable
set_enable-IsMarked e bpt chain i h =
    check_duplicates-IsMarked bpt.address (update_at bpt.self (λ b. record b { enable = e }) chain)
      (λ c ne. enable-MarkedAt e bpt.self bpt.address c 0 chain i.points (ground arith) (h.marks c))
      (enable-IsAligned e bpt.self chain h.aligned)

-- The unlinking of delete_breakpoint, with the check behind it, keeps the marks right.
pub unlink-IsMarked :
    (bpt : Breakpoint) (chain : Chain)
    → IsIn bpt chain
    → IsMarked chain
    → IsMarked (check_duplicates bpt.address (unlink bpt.self chain))
unlink-IsMarked bpt chain i h =
    check_duplicates-IsMarked bpt.address (unlink bpt.self chain)
      (λ c ne. unlink-MarkedAt bpt.self bpt.address c 0 chain i.points (ground arith) (h.marks c))
      (unlink-IsAligned bpt.self chain h.aligned)
