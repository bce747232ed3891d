-- ===== src/Locate.antt =====
-- blockframe.c and symtab.c: what an address or a line number belongs to, with the types of symtab.h
-- and symseg.h.
pub mod Misc
pub mod Blocks
pub mod Lines
pub mod Sources
mod Tests
