-- ===== src/Link/Entry.antt =====
-- remote.c and hmon/mon.c: an entry of compress_table.
use g.Base.{ℕ}

pub record Compress : Type 0 where
  pub pattern : ℕ
  pub length : ℕ

abbrev pub compress : ℕ → ℕ → Compress
compress pattern length = record { pattern = pattern; length = length }
