-- ===== src/Sim/Decoder.antt =====
-- sim/simdecode.c: decode, which makes the decoded form of an instruction, and the routines of
-- `fixup`; fields88.h: the fields of an instruction. A literal of the pool is its value, which only
-- the fixup of its own instruction changes.
pub mod Safe
mod Tests
use Prim.Native.String.{String}
use Prim.Native.Nat.{bit_or}
use g.Base.{
  ℕ, ◌+◌, ◌*◌, ◌/◌, ◌%◌, ◌^◌, Bool, true, false, ◌==◌, ltb, leb, ◌||◌, ◌&&◌, not, if◌then◌else◌,
  Option, none, some,
}
use g.Base.Words.{u32, shift_left}
use g.Decode.Entry.{
  Format, intrl, intrr, cbranch, iprel, bitbranch, bitfield, intrr2op, fldcr, fstcr, fxcr, jmp,
  ldlit, ldro, ldri, ldcr, rot, rte, trap, tbnd, tcnd, xcr, stcr, intrr_s1_s2, stlit, stro, stri,
  pseudo_format,
}
use g.Sim.Execute.{Operand, reg, sfu0, sfu1, lit, num, code, dummy_r0, Decoded}
use g.Sim.Execute.Field.{shift_right_int}
use g.Sim.Instr.{sim_instruction_lookup, Cache}
use g.Sim.Instr.Entry.{SimInfo, Fixup, no_fix, fix_r0, fix_and, fix_and_u, fix_mask_u, fix_or_u}

-- S1, S2, D and M5, LIT16, O5, B5, CRS and VEC.
abbrev pub s1_field : ℕ → ℕ
s1_field i = i / 2 ^ 16 % 32

abbrev pub s2_field : ℕ → ℕ
s2_field i = i % 32

abbrev pub d_field : ℕ → ℕ
d_field i = i / 2 ^ 21 % 32

abbrev pub lit16 : ℕ → ℕ
lit16 i = i % 2 ^ 16

abbrev pub crs : ℕ → ℕ
crs i = i / 2 ^ 5 % 64

abbrev pub vec : ℕ → ℕ
vec i = i % 2 ^ 9

-- REL16 and REL26: four times the signed offset, as a word.
abbrev pub rel16 : ℕ → ℕ
rel16 i = shift_right_int (shift_left (i % 2 ^ 16) 16) 14

abbrev pub rel26 : ℕ → ℕ
rel26 i = shift_right_int (shift_left (i % 2 ^ 26) 6) 4

-- The control registers that stcr stores into, and those that xcr exchanges.
abbrev pub is_writable : ℕ → Bool
is_writable n = leb 1 n && leb n 3 || leb 5 n && leb n 7 || leb 17 n && leb n 20

-- The label and the operands that the switch of decode makes; `old` is what the slot held.
abbrev pub Decoding : Type 0
Decoding = String × Decoded

-- `on_page` is whether l_to_d finds the target of a branch.
module _ (on_page : ℕ → Bool) where
  -- A branch: the target on its page, or the offset.
  abbrev pub branch_operands : ℕ → ℕ → Decoded → Decoded
  branch_operands ip rel old =
      let target = u32 (ip + rel) in
      if target / 4096 == ip / 4096
      then record old { s2 = if on_page target then code target else num 0 }
      else record old { dest = num rel; s2 = num 0 }

  unfoldable pub operands : Format → String → ℕ → ℕ → Decoded → Decoding
  operands stro l i ip old =
      (l, record { dest = reg (d_field i); s1 = reg (s1_field i); s2 = reg (s2_field i) })
  operands stri l i ip old =
      (l, record { dest = reg (d_field i); s1 = reg (s1_field i); s2 = reg (s2_field i) })
  operands stlit l i ip old =
      (l, record { dest = reg (d_field i); s1 = reg (s1_field i); s2 = lit (lit16 i) })
  operands ldro l i ip old =
      (l, record { dest = reg (d_field i); s1 = reg (s1_field i); s2 = reg (s2_field i) })
  operands ldri l i ip old =
      (l, record { dest = reg (d_field i); s1 = reg (s1_field i); s2 = reg (s2_field i) })
  operands intrr l i ip old =
      (l, record { dest = reg (d_field i); s1 = reg (s1_field i); s2 = reg (s2_field i) })
  operands intrr2op l i ip old =
      (l, record { dest = reg (d_field i); s1 = reg (s1_field i); s2 = reg (s2_field i) })
  operands intrr_s1_s2 l i ip old =
      (l, record { dest = reg (d_field i); s1 = reg (s1_field i); s2 = reg (s2_field i) })
  operands ldlit l i ip old =
      (l, record { dest = reg (d_field i); s1 = reg (s1_field i); s2 = lit (lit16 i) })
  operands intrl l i ip old =
      (l, record { dest = reg (d_field i); s1 = reg (s1_field i); s2 = lit (lit16 i) })
  operands rot l i ip old =
      (l, record { dest = reg (d_field i); s1 = reg (s1_field i); s2 = lit (i % 32) })
  operands bitfield l i ip old =
      (l, record { dest = reg (d_field i); s1 = reg (s1_field i); s2 = lit (i % 2 ^ 10) })
  operands bitbranch l i ip old =
      (l, branch_operands ip (rel16 i) (record old { s1 = reg (s1_field i) }))
  operands cbranch l i ip old =
      (l, branch_operands ip (rel16 i) (record old { s1 = reg (s1_field i) }))
  operands iprel l i ip old = (l, branch_operands ip (rel26 i) old)
  operands jmp l i ip old = (l, record old { dest = reg (s2_field i); s2 = num 0 })
  operands trap l i ip old =
      (l, record { dest = num (shift_left 1 (d_field i)); s1 = reg (s1_field i); s2 = num (vec i) })
  operands tbnd l i ip old = (l, record old { s1 = reg (s1_field i); s2 = lit (lit16 i) })
  operands tcnd l i ip old =
      (l, record { dest = num (d_field i); s1 = reg (s1_field i); s2 = num (vec i) })
  operands rte l i ip old = (l, old)
  operands fldcr l i ip old = (
    if leb 62 (crs i) then "uldcr" else l,
    record old { dest = reg (d_field i); s1 = sfu1 (crs i) },
  )
  operands ldcr l i ip old = (l, record old { dest = reg (d_field i); s1 = sfu0 (crs i) })
  operands fstcr l i ip old = (
    if leb 62 (crs i) then "ustcr" else l,
    record old {
      s1 = reg (s1_field i);
      dest = if leb (crs i) 8 || leb 62 (crs i) then sfu1 (crs i) else dummy_r0;
    },
  )
  operands stcr l i ip old = (
    l,
    record old {
      s1 = reg (s1_field i);
      dest = if is_writable (crs i) || crs i == 21 then sfu0 (crs i) else dummy_r0;
    },
  )
  operands xcr l i ip old = (
    l,
    record {
      dest = reg (d_field i);
      s1 = if is_writable (crs i) then reg (s1_field i) else sfu0 (crs i);
      s2 = sfu0 (crs i);
    },
  )
  operands fxcr l i ip old = (
    if leb 62 (crs i) then "uxcr" else l,
    record {
      dest = reg (d_field i);
      s1 = if ltb (crs i) 9 || ltb 61 (crs i) then reg (s1_field i) else sfu1 (crs i);
      s2 = sfu1 (crs i);
    },
  )
  operands pseudo_format l i ip old = ("opc_exception", old)

-- `p->dest == &regs[0]`
abbrev pub spare_r0 : Operand → Operand
spare_r0 (reg n) = if n == 0 then dummy_r0 else reg n
spare_r0 o = o

-- `*(p->s2) = ...` of a literal.
abbrev pub on_literal : (ℕ → ℕ) → Operand → Operand
on_literal f (lit w) = lit (f w)
on_literal f o = o

unfoldable pub fix : Fixup → Decoded → Decoded
fix no_fix p = p
fix fix_r0 p = record p { dest = spare_r0 p.dest }
fix fix_and_u p = record p {
  dest = spare_r0 p.dest;
  s2 = on_literal (λ w. bit_or (shift_left w 16) 0xffff) p.s2;
}
fix fix_and p = record p { dest = spare_r0 p.dest; s2 = on_literal (λ w. bit_or w 0xffff0000) p.s2 }
fix fix_mask_u p = record p { dest = spare_r0 p.dest; s2 = on_literal (λ w. shift_left w 16) p.s2 }
fix fix_or_u p = record p { dest = spare_r0 p.dest; s2 = on_literal (λ w. shift_left w 16) p.s2 }

-- decode, from the instruction that was fetched on; the fixup is left out where the switch returns.
unfoldable pub decode_word : (on_page : ℕ → Bool) → ℕ → ℕ → Decoding → Cache → Decoding × Cache
decode_word on_page i ip old cache =
    let r = sim_instruction_lookup i cache in
    (
      elim r.0 [
        | none ↦ ("opc_exception", old.1)
        | some e ↦
            let d = operands on_page e.info.format e.norm_e_addr i ip old.1 in
            elim e.info.format [ pseudo_format ↦ d | _ ↦ (d.0, fix e.fixup d.1) ]
      ],
      r.1,
    )
