-- ===== src/Sim/Instr/Lists.antt =====
-- sim/simdecode.c: what a search does to a list, and what builddecodetable puts into the lists.
use g.Base.{
  ℕ, ◌≡◌, refl, sym, ap, ◌∙◌, true, false, Option, none, some, [], ◌∷◌, ◌++◌, ◌==◌, arith,
  Bool-cases, ◌⊎◌, inl, inr, ◌↔◌, ==_iff,
}
use g.Sim.Instr.{Cache, push, push_all, pull, move_to_front, found}
use g.Sim.Instr.Entry.{SimInfo, SimTable, fits, top_bits}
use g.Sim.Instr.Unique.{Occurs}

-- What a search of a list answers: an entry of it that fits, and the others, or none fits.
abbrev pub Pulls : SimTable → ℕ → Option (SimInfo × SimTable) → Type 0
Pulls ps i none = (q : SimInfo) → Occurs q ps → fits q i ≡ false
Pulls ps i (some (p, qs)) = (fits p i ≡ true) × ((q : SimInfo) → Occurs q ps ↔ Occurs q (p ∷ qs))

-- An entry before the others that does not fit.
none-cons :
    (p : SimInfo) (ps : SimTable) (i : ℕ)
    → fits p i ≡ false
    → Pulls ps i none
    → Pulls (p ∷ ps) i none
none-cons p ps i e h q (inl s) = rw s e
none-cons p ps i e h q (inr o) = h q o

swapped :
    (p q r : SimInfo) (ps qs : SimTable)
    → Occurs r ps ↔ Occurs r (q ∷ qs)
    → Occurs r (p ∷ ps) ↔ Occurs r (q ∷ p ∷ qs)
swapped p q r ps qs h = (there, back)
  where
    there : Occurs r (p ∷ ps) → Occurs r (q ∷ p ∷ qs)
    there (inl s) = inr (inl s)
    there (inr o) = elim (h.0 o) [ inl s ↦ inl s | inr o' ↦ inr (inr o') ]

    back : Occurs r (q ∷ p ∷ qs) → Occurs r (p ∷ ps)
    back (inl s) = inr (h.1 (inl s))
    back (inr (inl s)) = inl s
    back (inr (inr o)) = inr (h.1 (inr o))

Pulls-cons :
    (p : SimInfo) (ps : SimTable) (i : ℕ) (o : Option (SimInfo × SimTable))
    → fits p i ≡ false
    → Pulls ps i o
    → Pulls (p ∷ ps) i (elim o [ none ↦ none | some (q, qs) ↦ some (q, p ∷ qs) ])
Pulls-cons p ps i none e h = none-cons p ps i e h
Pulls-cons p ps i (some (q, qs)) e h = (h.0, λ r. swapped p q r ps qs (h.1 r))

pull-Pulls : (ps : SimTable) (i : ℕ) → Pulls ps i (pull ps i)
unfolding pull
pull-Pulls [] i = λ q o. absurd o
pull-Pulls (p ∷ ps) i = elim (Bool-cases (fits p i)) [
  | inl e ↦ rw e (e, λ q. ((λ o. o), (λ o. o)))
  | inr e ↦ rw e (Pulls-cons p ps i (pull ps i) e (pull-Pulls ps i))
]

-- The list after a search has the same entries.
pub move_to_front-Occurs :
    (ps : SimTable) (i : ℕ) (q : SimInfo) → Occurs q ps ↔ Occurs q (move_to_front ps i)
move_to_front-Occurs ps i q = kept (pull ps i) (pull-Pulls ps i)
  where
    kept :
        (o : Option (SimInfo × SimTable))
        → Pulls ps i o
        → Occurs q ps ↔ Occurs q (elim o [ none ↦ ps | some (r, rs) ↦ r ∷ rs ])
    kept none h = ((λ o. o), (λ o. o))
    kept (some (r, rs)) h = h.1 q

-- What is found is an entry of the list that fits, or none fits.
abbrev pub Answers : SimTable → ℕ → Option SimInfo → Type 0
Answers ps i none = (q : SimInfo) → Occurs q ps → fits q i ≡ false
Answers ps i (some p) = Occurs p ps × (fits p i ≡ true)

pub found-Answers : (ps : SimTable) (i : ℕ) → Answers ps i (found ps i)
found-Answers ps i = answered (pull ps i) (pull-Pulls ps i)
  where
    answered :
        (o : Option (SimInfo × SimTable))
        → Pulls ps i o
        → Answers ps i (elim o [ none ↦ none | some (r, rs) ↦ some r ])
    answered none h = h
    answered (some (r, rs)) h = ((h.1 r).1 (inl refl), h.0)

-- A list of the table: what was there, and the entries with its top bits.
abbrev pub Filed : SimTable → Cache → ℕ → SimInfo → Type 0
Filed ps cache k p = (Occurs p ps × (top_bits p.info.opcode ≡ k)) ⊎ Occurs p (cache k)

push-Occurs :
    (q : SimInfo) (cache : Cache) (k : ℕ) (p : SimInfo)
    → Occurs p (push q cache k) ↔ (((p ≡ q) × (top_bits p.info.opcode ≡ k)) ⊎ Occurs p (cache k))
push-Occurs q cache k p = elim (Bool-cases (k == top_bits q.info.opcode)) [
  | inl e ↦ rw e (pushed ((==_iff k (top_bits q.info.opcode)).0 e))
  | inr e ↦ rw e ((λ o. inr o), (λ o. elim o [ inl (s, t) ↦ absurd (other e s t) | inr o' ↦ o' ]))
]
  where
    pushed :
        k ≡ top_bits q.info.opcode
        → Occurs p (q ∷ cache k) ↔ (((p ≡ q) × (top_bits p.info.opcode ≡ k)) ⊎ Occurs p (cache k))
    pushed e = (
      (λ o. elim o [
        | inl s ↦ inl (s, ap (λ r. top_bits r.info.opcode) s ∙ sym e)
        | inr o' ↦ inr o'
      ]),
      (λ o. elim o [ inl (s, t) ↦ inl s | inr o' ↦ inr o' ]),
    )

    other : (k == top_bits q.info.opcode) ≡ false → p ≡ q → top_bits p.info.opcode ≡ k → ⊥
    other e s t =
        let same : top_bits q.info.opcode ≡ k = ap (λ r. top_bits r.info.opcode) (sym s) ∙ t in
        ground (arith, e, same)

pub push_all-Filed :
    (ps : SimTable) (cache : Cache) (k : ℕ) (p : SimInfo)
    → Occurs p (push_all ps cache k) ↔ Filed ps cache k p
unfolding push_all
push_all-Filed [] cache k p = ((λ o. inr o), (λ o. elim o [ inl (n, t) ↦ absurd n | inr o' ↦ o' ]))
push_all-Filed (q ∷ qs) cache k p =
    let ih = push_all-Filed qs (push q cache) k p in
    let one = push-Occurs q cache k p in
    ((λ o. filed_there (ih.0 o) one.0), (λ o. ih.1 (filed_back o one.1)))
  where
    filed_there :
        Filed qs (push q cache) k p
        → (Occurs p (push q cache k)
            → ((p ≡ q) × (top_bits p.info.opcode ≡ k)) ⊎ Occurs p (cache k))
        → Filed (q ∷ qs) cache k p
    filed_there (inl (o, t)) f = inl (inr o, t)
    filed_there (inr o) f = elim (f o) [ inl (s, t) ↦ inl (inl s, t) | inr o' ↦ inr o' ]

    filed_back :
        Filed (q ∷ qs) cache k p
        → (((p ≡ q) × (top_bits p.info.opcode ≡ k)) ⊎ Occurs p (cache k)
            → Occurs p (push q cache k))
        → Filed qs (push q cache) k p
    filed_back (inl (inl s, t)) f = inr (f (inl (s, t)))
    filed_back (inl (inr o, t)) f = inl (o, t)
    filed_back (inr o) f = inr (f (inr o))

pub push_all-append :
    (ps qs : SimTable) (cache : Cache) → push_all (ps ++ qs) cache ≡ push_all qs (push_all ps cache)
unfolding push_all
push_all-append [] qs cache = refl
push_all-append (p ∷ ps) qs cache = push_all-append ps qs (push p cache)
