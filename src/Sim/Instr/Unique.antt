-- ===== src/Sim/Instr/Unique.antt =====
-- sim/simdecode.c: no two instructions of the table fit one word, but for `fxcr` and `xcr`, and an
-- instruction that fits a word is in the list of its top bits.
use Prim.Native.Nat.{bit_and}
use g.Base.{
  ℕ, ◌≡◌, refl, sym, ap, ◌∙◌, ◌/◌, ◌^◌, ◌<◌, Bool, true, false, ◌&&◌, ◌||◌, not, [], ◌∷◌, ◌==◌,
  arith, Bool-cases, ◌⊎◌, inl, inr, ==_iff,
}
use g.Base.Bits.{and-div, and_comm, and_mask}
use g.Decode.Entry.{Format}
use g.Decode.Unique.{clash, fits-clash}
use g.Sim.Instr.{instructions}
use g.Sim.Instr.Entry.{SimInfo, SimTable, sim_entry, no_fix, fits, top_bits}

-- The instruction that overlaps another: `fxcr` stands before `xcr`.
abbrev pub fxcr : SimInfo
fxcr = sim_entry 0x8000c800 0xfc00f800 "fxcr" Format.fxcr "xcr" no_fix

abbrev pub Occurs : SimInfo → SimTable → Type 0
Occurs p [] = ⊥
Occurs p (q ∷ qs) = (p ≡ q) ⊎ Occurs p qs

unfoldable apart : SimInfo → SimTable → Bool
apart p [] = true
apart p (q ∷ qs) = not (clash p.info q.info) && apart p qs

is_fxcr : SimInfo → Bool
is_fxcr p = p.info.opcode == 0x8000c800 && p.info.opmask == 0xfc00f800

unfoldable all_apart : SimTable → Bool
unfolding apart is_fxcr
all_apart [] = true
all_apart (p ∷ ps) = (is_fxcr p || apart p ps) && all_apart ps

instructions_apart : all_apart instructions ≡ true
unfolding all_apart instructions
instructions_apart = refl

-- The mask looks at the top bits.
unfoldable all_topped : SimTable → Bool
all_topped [] = true
all_topped (p ∷ ps) = p.info.opmask / 2 ^ 26 == 63 && all_topped ps

instructions_topped : all_topped instructions ≡ true
unfolding all_topped instructions
instructions_topped = refl

apart-fits :
    (p q : SimInfo) (qs : SimTable) (i : ℕ)
    → apart p qs ≡ true
    → Occurs q qs
    → fits p i ≡ true
    → fits q i ≡ true
    → ⊥
unfolding apart
apart-fits p q [] i h o hp hq = o
apart-fits p q (r ∷ rs) i h (inl e) hp hq =
    ground (arith, fits-clash p.info r.info i hp (rw e at hq))
apart-fits p q (r ∷ rs) i h (inr o) hp hq = apart-fits p q rs i (ground arith) o hp hq

-- What a word that is no `fxcr` does not fit.
is_fxcr-fits : (p : SimInfo) (i : ℕ) → is_fxcr p ≡ true → fits fxcr i ≡ false → fits p i ≡ false
unfolding is_fxcr
is_fxcr-fits p i h nf =
    let code : p.info.opcode ≡ 0x8000c800 = ground (arith, h) in
    let mask : p.info.opmask ≡ 0xfc00f800 = ground (arith, h) in rw (code, mask) nf

fits_later :
    (p q : SimInfo) (qs : SimTable) (i : ℕ)
    → all_apart (p ∷ qs) ≡ true
    → fits fxcr i ≡ false
    → Occurs q qs
    → fits p i ≡ true
    → fits q i ≡ true
    → ⊥
unfolding all_apart
fits_later p q qs i h nf o hp hq = elim (Bool-cases (is_fxcr p)) [
  | inl e ↦ cc (is_fxcr-fits p i e nf)
  | inr e ↦ apart-fits p q qs i (ground arith) o hp hq
]

fits_once :
    (ps : SimTable) (i : ℕ) (p q : SimInfo)
    → all_apart ps ≡ true
    → fits fxcr i ≡ false
    → Occurs p ps
    → Occurs q ps
    → fits p i ≡ true
    → fits q i ≡ true
    → p ≡ q
unfolding all_apart
fits_once [] i p q h nf op oq hp hq = absurd op
fits_once (r ∷ rs) i p q h nf (inl e) (inl e') hp hq = e ∙ sym e'
fits_once (r ∷ rs) i p q h nf (inl e) (inr o) hp hq =
    absurd (fits_later r q rs i h nf o (rw e at hp) hq)
fits_once (r ∷ rs) i p q h nf (inr o) (inl e) hp hq =
    absurd (fits_later r p rs i h nf o (rw e at hq) hp)
fits_once (r ∷ rs) i p q h nf (inr o) (inr o') hp hq =
    fits_once rs i p q (ground arith) nf o o' hp hq

-- Two instructions that one word fits, which is no `fxcr`, are the same entry.
pub instructions_once :
    (i : ℕ) (p q : SimInfo)
    → fits fxcr i ≡ false
    → Occurs p instructions
    → Occurs q instructions
    → fits p i ≡ true
    → fits q i ≡ true
    → p ≡ q
instructions_once i p q nf = fits_once instructions i p q instructions_apart nf

topped :
    (ps : SimTable) (p : SimInfo)
    → all_topped ps ≡ true
    → Occurs p ps
    → (p.info.opmask / 2 ^ 26 == 63) ≡ true
unfolding all_topped
topped [] p h o = absurd o
topped (q ∷ qs) p h (inl e) = rw e (ground arith)
topped (q ∷ qs) p h (inr o) = topped qs p (ground arith) o

same_top_bits :
    (p : SimInfo) (i : ℕ)
    → i < 2 ^ 32
    → (p.info.opmask / 2 ^ 26 == 63) ≡ true
    → fits p i ≡ true
    → top_bits p.info.opcode ≡ top_bits i
same_top_bits p i hi ht hf =
    ap top_bits (sym ((==_iff (bit_and p.info.opmask i) p.info.opcode).0 hf))
    ∙ and-div 26 p.info.opmask i
    ∙ ap (λ m. bit_and m (top_bits i)) ((==_iff (top_bits p.info.opmask) 63).0 ht)
    ∙ and_comm 63 (top_bits i)
    ∙ and_mask 6 (top_bits i)
    ∙ omega arith

-- An instruction that fits a word has the top bits of the word.
pub fits-top_bits :
    (p : SimInfo) (i : ℕ)
    → i < 2 ^ 32
    → Occurs p instructions
    → fits p i ≡ true
    → top_bits p.info.opcode ≡ top_bits i
fits-top_bits p i hi o hf = same_top_bits p i hi (topped instructions p instructions_topped o) hf
