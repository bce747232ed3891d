-- ===== src/Link/Table.antt =====
-- compress.h: compress_table, which the debugger and the monitor share.
mod Words
mod Bytes
use g.Base.{List, ◌++◌}
use g.Link.Entry.{Compress}
use g.Link.Table.Words.{upper_entries}
use g.Link.Table.Bytes.{lower_entries}

unfoldable pub compress_table : List Compress
unfolding upper_entries lower_entries
compress_table = upper_entries ++ lower_entries
