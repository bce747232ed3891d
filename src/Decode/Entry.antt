-- ===== src/Decode/Entry.antt =====
-- decode.h and format.h: an entry of the instruction table.
use Prim.Native.Nat.{bit_and}
use Prim.Native.String.{String}
use g.Base.{ℕ, Bool, List, ◌==◌}

-- The values of `format` (format.h); `pseudo_format` is the 0 of the entry that ends the table.
pub data Format : Type 0 where
  intrl intrr cbranch iprel bitbranch bitfield intrr2op fldcr fstcr fxcr jmp ldlit ldro : Format
  ldri ldcr rot rte trap tbnd tcnd xcr stcr intrr_s1_s2 stlit stro stri pseudo_format : Format

-- `struct instr_info`
pub record InstrInfo : Type 0 where
  pub opcode : ℕ
  pub opmask : ℕ
  pub mnemonic : String
  pub format : Format

abbrev pub Table : Type 0
Table = List InstrInfo

abbrev pub entry : ℕ → ℕ → String → Format → InstrInfo
entry opcode opmask mnemonic format = record {
  opcode = opcode;
  opmask = opmask;
  mnemonic = mnemonic;
  format = format;
}

-- The test of the search: `(p->opmask & i) == p->opcode`.
abbrev pub fits : InstrInfo → ℕ → Bool
fits p i = bit_and p.opmask i == p.opcode
