-- ===== src/Sim/Instr/Entry.antt =====
-- sim/decode.h: an entry of the table of the simulator.
use Prim.Native.String.{String}
use g.Base.{ℕ, Bool, List, ◌/◌, ◌^◌}
use g.Decode.Entry as Decode
use g.Decode.Entry.{InstrInfo, Format, entry}

-- The routines of `fixup`; `no_fix` is NOFIX.
pub data Fixup : Type 0 where
  no_fix fix_r0 fix_and fix_and_u fix_mask_u fix_or_u : Fixup

-- `struct instr_info`, with the name of the label of `sim` for its address.
pub record SimInfo : Type 0 where
  pub info : InstrInfo
  pub norm_e_addr : String
  pub fixup : Fixup

abbrev pub SimTable : Type 0
SimTable = List SimInfo

abbrev pub sim_entry : ℕ → ℕ → String → Format → String → Fixup → SimInfo
sim_entry opcode opmask mnemonic format label fixup = record {
  info = entry opcode opmask mnemonic format;
  norm_e_addr = label;
  fixup = fixup;
}

-- The test of the search: `(p->opmask & i) == p->opcode`.
abbrev pub fits : SimInfo → ℕ → Bool
fits p i = Decode.fits p.info i

-- `i >> DECODECACHESHIFT`
abbrev pub top_bits : ℕ → ℕ
top_bits i = i / 2 ^ 26
