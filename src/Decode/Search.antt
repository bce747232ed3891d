-- ===== src/Decode/Search.antt =====
-- decode.c: remote_instruction_lookup returns the one entry that fits, in any order of the table.
use g.Base.{
  ℕ, ◌≡◌, refl, sym, ap, ◌∙◌, Bool, true, false, ◌&&◌, ◌||◌, not, Option, none, some, [], ◌∷◌, ◌++◌,
  ◌==◌, arith, Bool-cases, inl, inr, ◌↔◌,
}
use g.Decode.{entries, lookup_from, remote_instruction_lookup}
use g.Decode.Memory.{end_entry}
use g.Decode.Entry.{InstrInfo, Table, fits}
use g.Decode.Unique.{Occurs, HasMasks, NotFxcr, fits_once, entries_apart, fxcr_entry}

-- What a search from the head of a table may answer.
abbrev Answers : Table → ℕ → Option InstrInfo → Type 0
Answers ps i none = (q : InstrInfo) → Occurs q ps → fits q i ≡ false
Answers ps i (some p) = Occurs p ps × (fits p i ≡ true)

none-cons :
    (p : InstrInfo) (ps : Table) (i : ℕ)
    → fits p i ≡ false
    → Answers ps i none
    → Answers (p ∷ ps) i none
none-cons p ps i e h q (inl s) = rw s e
none-cons p ps i e h q (inr o) = h q o

Answers-cons :
    (p : InstrInfo) (ps : Table) (i : ℕ) (o : Option InstrInfo)
    → fits p i ≡ false
    → Answers ps i o
    → Answers (p ∷ ps) i o
Answers-cons p ps i none e h = none-cons p ps i e h
Answers-cons p ps i (some q) e h = (inr (h.0), h.1)

lookup_from-Answers : (ps : Table) (i : ℕ) → HasMasks ps → Answers ps i (lookup_from ps i)
unfolding lookup_from
lookup_from-Answers [] i h = λ q o. absurd o
lookup_from-Answers (p ∷ ps) i h = elim (Bool-cases (fits p i)) [
  | inl e ↦ rw (h p (inl refl), e) (inl refl, e)
  | inr e ↦
      rw (h p (inl refl), e)
        (Answers-cons p ps i (lookup_from ps i) e (lookup_from-Answers ps i (λ q o. h q (inr o))))
]

-- The entry with an empty mask ends the search.
lookup_from-end : (ps : Table) (i : ℕ) → lookup_from (ps ++ end_entry) i ≡ lookup_from ps i
unfolding lookup_from end_entry
lookup_from-end [] i = refl
lookup_from-end (p ∷ ps) i = rw (lookup_from-end ps i)

unfoldable masked : Table → Bool
masked [] = true
masked (p ∷ ps) = not (p.opmask == 0) && masked ps

masked-HasMasks : (ps : Table) → masked ps ≡ true → HasMasks ps
unfolding masked
masked-HasMasks [] h p o = absurd o
masked-HasMasks (q ∷ qs) h p (inl e) = rw e (ground arith)
masked-HasMasks (q ∷ qs) h p (inr o) = masked-HasMasks qs (ground arith) p o

entries-masked : masked entries ≡ true
unfolding masked entries
entries-masked = refl

entries-HasMasks : HasMasks entries
entries-HasMasks = masked-HasMasks entries entries-masked

-- The mask that goes with the code of `fxcr`.
unfoldable one_fxcr : Table → Bool
one_fxcr [] = true
one_fxcr (p ∷ ps) = (not (p.opcode == 0x8000c800) || p.opmask == 0xfc00f800) && one_fxcr ps

one_fxcr-NotFxcr :
    (ps : Table) (i : ℕ) → one_fxcr ps ≡ true → fits fxcr_entry i ≡ false → NotFxcr ps i
unfolding one_fxcr
one_fxcr-NotFxcr [] i h nf p o e = absurd o
one_fxcr-NotFxcr (q ∷ qs) i h nf p (inl s) e = rw (e, s, q_mask) nf
  where
    q_mask : q.opmask ≡ 0xfc00f800
    q_mask = let e' : q.opcode ≡ 0x8000c800 = rw s at e in ground arith
one_fxcr-NotFxcr (q ∷ qs) i h nf p (inr o) e = one_fxcr-NotFxcr qs i (ground arith) nf p o e

entries_fxcr : one_fxcr entries ≡ true
unfolding one_fxcr entries
entries_fxcr = refl

lookup-entries : (i : ℕ) → remote_instruction_lookup i ≡ lookup_from entries i
unfolding remote_instruction_lookup
lookup-entries i = lookup_from-end entries i

found_iff :
    (ps : Table) (i : ℕ) (o : Option InstrInfo) (p : InstrInfo)
    → ((q : InstrInfo) → Occurs q ps ↔ Occurs q entries)
    → fits fxcr_entry i ≡ false
    → Answers ps i o
    → Occurs p entries
    → (fits p i ≡ true) ↔ (o ≡ some p)
found_iff ps i none p same nf h op = ((λ e. cc (h p ((same p).1 op))), (λ e. cc))
found_iff ps i (some q) p same nf h op = (
  (λ e. ap some (
      fits_once entries i q p entries_apart (one_fxcr-NotFxcr entries i entries_fxcr nf)
        ((same q).0 h.0) op h.1 e)),
  (λ e. ground (arith, h.1)),
)

-- For a word that is not an `fxcr`, an entry of the table is the one that
-- remote_instruction_lookup finds exactly where the word fits its mask and code.
pub remote_instruction_lookup-fits :
    (i : ℕ) (p : InstrInfo)
    → fits fxcr_entry i ≡ false
    → Occurs p entries
    → (fits p i ≡ true) ↔ (remote_instruction_lookup i ≡ some p)
remote_instruction_lookup-fits i p nf op = rw (lookup-entries i) (
    found_iff entries i (lookup_from entries i) p (λ q. ((λ o. o), (λ o. o))) nf
      (lookup_from-Answers entries i entries-HasMasks) op)

any_order :
    (ps : Table) (i : ℕ) (o o' : Option InstrInfo)
    → ((q : InstrInfo) → Occurs q ps ↔ Occurs q entries)
    → fits fxcr_entry i ≡ false
    → Answers ps i o
    → Answers entries i o'
    → o ≡ o'
any_order ps i none none same nf h h' = refl
any_order ps i none (some q) same nf h h' = cc (h q ((same q).1 h'.0), h'.1)
any_order ps i (some p) o' same nf h h' =
    sym ((found_iff entries i o' p (λ q. ((λ o. o), (λ o. o))) nf h' ((same p).0 h.0)).0 h.1)

-- For a word that is not an `fxcr`, the search of any table with the same entries, in any order and
-- repeated or not, gives what remote_instruction_lookup gives.
pub remote_instruction_lookup-order :
    (ps : Table) (i : ℕ)
    → ((q : InstrInfo) → Occurs q ps ↔ Occurs q entries)
    → fits fxcr_entry i ≡ false
    → lookup_from ps i ≡ remote_instruction_lookup i
remote_instruction_lookup-order ps i same nf =
    any_order ps i (lookup_from ps i) (lookup_from entries i) same nf
      (lookup_from-Answers ps i (λ p o. entries-HasMasks p ((same p).0 o)))
      (lookup_from-Answers entries i entries-HasMasks)
    ∙ sym (lookup-entries i)
