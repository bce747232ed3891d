-- ===== src/Decode/Unique.antt =====
-- decode.c: no two entries of the table fit one word, but for `fxcr` and `xcr`.
use Prim.Native.Nat.{bit_and}
use g.Base.{
  ℕ, ◌≡◌, refl, sym, ap, ◌∙◌, Bool, true, false, ◌&&◌, ◌||◌, not, [], ◌∷◌, ◌==◌, arith, Bool-cases,
  ◌⊎◌, inl, inr, ==_iff,
}
use g.Base.Bits.{and_comm, and_assoc}
use g.Decode.{entries}
use g.Decode.Entry.{InstrInfo, Table, fits, Format, entry}

-- Whether some word could fit both entries.
abbrev pub clash : InstrInfo → InstrInfo → Bool
clash p q = bit_and p.opcode q.opmask == bit_and q.opcode p.opmask

-- A word that fits both entries makes their codes agree where both masks look.
pub fits-clash : (p q : InstrInfo) (i : ℕ) → fits p i ≡ true → fits q i ≡ true → clash p q ≡ true
fits-clash p q i hp hq = (==_iff (bit_and p.opcode q.opmask) (bit_and q.opcode p.opmask)).1 (
    rw
      (← (==_iff (bit_and p.opmask i) p.opcode).0 hp, ← (==_iff (bit_and q.opmask i) q.opcode).0 hq)
      (and_assoc p.opmask i q.opmask
        ∙ ap (bit_and p.opmask) (and_comm i q.opmask)
        ∙ and_comm p.opmask (bit_and q.opmask i)))

-- The one entry that overlaps another: `fxcr` stands before `xcr`.
abbrev pub fxcr_entry : InstrInfo
fxcr_entry = entry 0x8000c800 0xfc00f800 "fxcr" Format.fxcr

unfoldable pub apart : InstrInfo → Table → Bool
apart p [] = true
apart p (q ∷ qs) = not (clash p q) && apart p qs

unfoldable pub all_apart : Table → Bool
unfolding apart
all_apart [] = true
all_apart (p ∷ ps) = (p.opcode == 0x8000c800 || apart p ps) && all_apart ps

pub entries_apart : all_apart entries ≡ true
unfolding all_apart entries
entries_apart = refl

abbrev pub Occurs : InstrInfo → Table → Type 0
Occurs p [] = ⊥
Occurs p (q ∷ qs) = (p ≡ q) ⊎ Occurs p qs

-- Every entry looks at some bit, so the search does not stop at it.
abbrev pub HasMasks : Table → Type 0
HasMasks ps = (p : InstrInfo) → Occurs p ps → (p.opmask == 0) ≡ false

apart-fits :
    (p q : InstrInfo) (qs : Table) (i : ℕ)
    → apart p qs ≡ true
    → Occurs q qs
    → fits p i ≡ true
    → fits q i ≡ true
    → ⊥
unfolding apart
apart-fits p q [] i h o hp hq = o
apart-fits p q (r ∷ rs) i h (inl e) hp hq = ground (arith, fits-clash p r i hp (rw e at hq))
apart-fits p q (r ∷ rs) i h (inr o) hp hq = apart-fits p q rs i (ground arith) o hp hq

-- The word is not one of the `fxcr` instructions.
abbrev pub NotFxcr : Table → ℕ → Type 0
NotFxcr ps i = (p : InstrInfo) → Occurs p ps → p.opcode ≡ 0x8000c800 → fits p i ≡ false

-- A word that fits an entry and a later one fits an `fxcr` entry.
fits_later :
    (p q : InstrInfo) (qs : Table) (i : ℕ)
    → all_apart (p ∷ qs) ≡ true
    → NotFxcr (p ∷ qs) i
    → Occurs q qs
    → fits p i ≡ true
    → fits q i ≡ true
    → ⊥
unfolding all_apart
fits_later p q qs i h nf o hp hq = elim (Bool-cases (p.opcode == 0x8000c800)) [
  | inl e ↦ cc (nf p (inl refl) ((==_iff p.opcode 0x8000c800).0 e))
  | inr e ↦ apart-fits p q qs i (ground arith) o hp hq
]

pub fits_once :
    (ps : Table) (i : ℕ) (p q : InstrInfo)
    → all_apart ps ≡ true
    → NotFxcr ps i
    → Occurs p ps
    → Occurs q ps
    → fits p i ≡ true
    → fits q i ≡ true
    → p ≡ q
unfolding all_apart
fits_once [] i p q h nf op oq hp hq = absurd op
fits_once (r ∷ rs) i p q h nf (inl e) (inl e') hp hq = e ∙ sym e'
fits_once (r ∷ rs) i p q h nf (inl e) (inr o) hp hq =
    absurd (fits_later r q rs i h nf o (rw e at hp) hq)
fits_once (r ∷ rs) i p q h nf (inr o) (inl e) hp hq =
    absurd (fits_later r p rs i h nf o (rw e at hq) hp)
fits_once (r ∷ rs) i p q h nf (inr o) (inr o') hp hq =
    fits_once rs i p q (ground arith) (λ s os. nf s (inr os)) o o' hp hq
