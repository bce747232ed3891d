-- ===== src/Break/Chain.antt =====
-- breakpoint.c: check_duplicates, set_raw_breakpoint, set_momentary_breakpoint, set_breakpoint,
-- the enabling commands on one breakpoint, set_ignore_count and breakpoint_stop_status.
use g.Base.{ℕ, ◌+◌, false, Option, none, some, [], ◌∷◌, ◌++◌, ◌==◌, ltb, if◌then◌else◌}
use g.Base.Int.{ℤ, pos, negsuc, eq_ℤ}
use g.Break.{Enable, Breakpoint, Chain, align, here}

-- The loop of check_duplicates: `count` breakpoints at `a` were seen.
unfoldable pub mark : ℕ → ℕ → Chain → Chain
mark a count [] = []
mark a count (b ∷ bs) =
    let n = (if here a b then count + 1 else count) in
    (if here a b then record b { duplicate = ltb 1 n } else b) ∷ mark a n bs

unfoldable pub check_duplicates : ℕ → Chain → Chain
check_duplicates address chain = mark (align address) 0 chain

-- `struct symtab_and_line`
pub record SymtabAndLine : Type 0 where
  pub symtab : ℕ
  pub line : ℕ
  pub pc : ℕ

-- The structure that set_raw_breakpoint fills in, at the address `self` that xmalloc returned.
abbrev pub raw_breakpoint : ℕ → SymtabAndLine → Breakpoint
raw_breakpoint self sal = record {
  self = self;
  number = pos 0;
  address = align sal.pc;
  line_number = sal.line;
  symtab = sal.symtab;
  enable = Enable.enabled;
  silent = false;
  ignore_count = 0;
  shadow_contents = 0;
  inserted = false;
  duplicate = false;
  commands = [];
  frame = 0;
  cond = none;
}

-- A write through the pointer `p` to a breakpoint of the chain.
unfoldable pub update_at : ℕ → (Breakpoint → Breakpoint) → Chain → Chain
update_at p f [] = []
update_at p f (b ∷ bs) = if b.self == p then f b ∷ bs else b ∷ update_at p f bs

unfoldable pub set_raw_breakpoint : ℕ → SymtabAndLine → Chain → Chain
set_raw_breakpoint self sal chain = check_duplicates sal.pc (chain ++ raw_breakpoint self sal ∷ [])

-- `fp` is FRAME_FP (frame), or 0 where no frame is given.
unfoldable pub set_momentary_breakpoint : ℕ → SymtabAndLine → ℕ → Chain → Chain
set_momentary_breakpoint self sal fp chain =
    update_at self (λ b. record b { number = negsuc 2; enable = Enable.delete_on_hit; frame = fp })
      (set_raw_breakpoint self sal chain)

-- A change of `bpt->enable`, and check_duplicates (bpt->address).
unfoldable pub set_enable : Enable → Breakpoint → Chain → Chain
set_enable e bpt chain =
    check_duplicates bpt.address (update_at bpt.self (λ b. record b { enable = e }) chain)

unfoldable pub enable_breakpoint : Breakpoint → Chain → Chain
enable_breakpoint = set_enable Enable.enabled

unfoldable pub disable_breakpoint : Breakpoint → Chain → Chain
disable_breakpoint = set_enable Enable.disabled

unfoldable pub enable_once_breakpoint : Breakpoint → Chain → Chain
enable_once_breakpoint = set_enable Enable.temporary

unfoldable pub enable_delete_breakpoint : Breakpoint → Chain → Chain
enable_delete_breakpoint = set_enable Enable.delete_on_hit

-- `if (count < 0) count = 0;`
abbrev pub nonnegative : ℤ → ℕ
nonnegative (pos n) = n
nonnegative (negsuc n) = 0

-- `none` where no breakpoint has the number; the code then tries the watchpoints.
unfoldable pub set_ignore_count : ℤ → ℤ → Chain → Option Chain
set_ignore_count bptnum count [] = none
set_ignore_count bptnum count (b ∷ bs) =
    let rest = set_ignore_count bptnum count bs in
    if eq_ℤ b.number bptnum
    then some (record b { ignore_count = nonnegative count } ∷ bs)
    else elim rest [ none ↦ none | some bs' ↦ some (b ∷ bs') ]

-- The unlinking of delete_breakpoint.
unfoldable pub unlink : ℕ → Chain → Chain
unlink p [] = []
unlink p (b ∷ bs) = if b.self == p then bs else b ∷ unlink p bs
