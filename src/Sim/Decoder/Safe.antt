-- ===== src/Sim/Decoder/Safe.antt =====
-- sim/simdecode.c: the operands that decode makes of an instruction on registers are such that no
-- store goes to r0 or to a literal.
use Prim.Native.String.{String}
use g.Base.{ℕ, ◌<◌, ◌≡◌, ◌≢◌, refl, Bool, ◌==◌, arith, Bool-cases, inl, inr}
use g.Base.Words.{IsWord, shift_left}
use g.Decode.Entry.{Format}
use g.Sim.Execute.{Operand, reg, lit, Decoded, Cpu}
use g.Sim.Execute.Label.{Label, run}
use g.Sim.Execute.Label.Bounds.{IsCpu, IsDecoded, IsSource, IsDestination, or-IsWord}
use g.Sim.Execute.Label.Invariant.{run-IsCpu}
use g.Sim.Decoder.{operands, fix, spare_r0, on_literal, d_field}
use g.Sim.Instr.Entry.{Fixup, no_fix, fix_r0, fix_and, fix_and_u, fix_mask_u, fix_or_u}

-- The formats of instructions on registers and literals.
pub data RegisterFormat : Type 0 where
  intrl_format intrr_format bitfield_format intrr2op_format rot_format : RegisterFormat

abbrev pub format : RegisterFormat → Format
format intrl_format = Format.intrl
format intrr_format = Format.intrr
format bitfield_format = Format.bitfield
format intrr2op_format = Format.intrr2op
format rot_format = Format.rot

spare_r0-IsDestination : (n : ℕ) → n < 32 → IsDestination (spare_r0 (reg n))
spare_r0-IsDestination n h = elim (Bool-cases (n == 0)) [
  | inl e ↦ rw e (omega arith)
  | inr e ↦ rw e (ground (arith, e), h)
]

-- The operands before the fixup: registers, and literals of at most 16 bits.
abbrev IsPlain : Decoded → Type 0
IsPlain p = ((n : ℕ) × (n < 32) × (p.dest ≡ reg n)) × IsSource p.s1 × IsSource p.s2

operands-IsPlain :
    (on_page : ℕ → Bool) (f : RegisterFormat) (l : String) (i ip : ℕ) (old : Decoded)
    → IsPlain (operands on_page (format f) l i ip old).1
unfolding operands
operands-IsPlain on_page intrl_format l i ip old =
    ((d_field i, omega arith, refl), omega arith, omega arith)
operands-IsPlain on_page intrr_format l i ip old =
    ((d_field i, omega arith, refl), omega arith, omega arith)
operands-IsPlain on_page bitfield_format l i ip old =
    ((d_field i, omega arith, refl), omega arith, omega arith)
operands-IsPlain on_page intrr2op_format l i ip old =
    ((d_field i, omega arith, refl), omega arith, omega arith)
operands-IsPlain on_page rot_format l i ip old =
    ((d_field i, omega arith, refl), omega arith, omega arith)

on_literal-IsSource :
    (f : ℕ → ℕ) (o : Operand)
    → ((w : ℕ) → IsWord w → IsWord (f w))
    → IsSource o
    → IsSource (on_literal f o)
on_literal-IsSource f (reg n) hf h = h
on_literal-IsSource f (Operand.sfu0 n) hf h = h
on_literal-IsSource f (Operand.sfu1 n) hf h = h
on_literal-IsSource f (lit w) hf h = hf w h
on_literal-IsSource f (Operand.num n) hf h = h
on_literal-IsSource f (Operand.code n) hf h = h
on_literal-IsSource f Operand.dummy_r0 hf h = h

fixed-IsDestination : (p : Decoded) → IsPlain p → IsDestination (spare_r0 p.dest)
fixed-IsDestination p ((n, hn, e), h1, h2) = rw e (spare_r0-IsDestination n hn)

fix-IsDecoded : (x : Fixup) (p : Decoded) → x ≢ no_fix → IsPlain p → IsDecoded (fix x p)
unfolding fix
fix-IsDecoded no_fix p hx h = absurd (hx refl)
fix-IsDecoded fix_r0 p hx h = record {
  destination = fixed-IsDestination p h;
  first = h.1;
  second = h.2;
}
fix-IsDecoded fix_and p hx h = record {
  destination = fixed-IsDestination p h;
  first = h.1;
  second = on_literal-IsSource _ p.s2 (λ w hw. or-IsWord w 0xffff0000 hw (omega arith)) h.2;
}
fix-IsDecoded fix_and_u p hx h = record {
  destination = fixed-IsDestination p h;
  first = h.1;
  second =
      on_literal-IsSource _ p.s2
        (λ w hw. or-IsWord (shift_left w 16) 0xffff (omega arith) (omega arith)) h.2;
}
fix-IsDecoded fix_mask_u p hx h = record {
  destination = fixed-IsDestination p h;
  first = h.1;
  second = on_literal-IsSource (λ w. shift_left w 16) p.s2 (λ w hw. omega arith) h.2;
}
fix-IsDecoded fix_or_u p hx h = record {
  destination = fixed-IsDestination p h;
  first = h.1;
  second = on_literal-IsSource (λ w. shift_left w 16) p.s2 (λ w hw. omega arith) h.2;
}

-- The code of any label on registers, run on what decode makes of an instruction of one of the
-- register formats that has a fixup, leaves every register a word and r0 zero, where they are so
-- before it; what the host gives for a shift by a negative count and for the number of the dummy
-- are words.
pub run-fix-IsCpu :
    (dummy_regnum : ℕ) (beyond : ℕ → ℕ → ℕ) (usermode : Bool)
    → IsWord dummy_regnum
    → ((w k : ℕ) → IsWord (beyond w k))
    → (on_page : ℕ → Bool) (f : RegisterFormat) (x : Fixup) (label : Label) (l : String) (i ip : ℕ)
      (old : Decoded) (c : Cpu)
    → x ≢ no_fix
    → IsCpu c
    → IsCpu
        (run dummy_regnum beyond usermode label
          (fix x (operands on_page (format f) l i ip old).1)
          c).1
run-fix-IsCpu dummy_regnum beyond usermode hd hb on_page f x label l i ip old c hx v =
    run-IsCpu dummy_regnum beyond usermode hd hb label _ c
      (fix-IsDecoded x (operands on_page (format f) l i ip old).1 hx
        (operands-IsPlain on_page f l i ip old))
      v
