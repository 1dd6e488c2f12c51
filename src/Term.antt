-- ===== src/Term.antt =====
-- crates/polyterm-term.
pub mod Snapshot
pub mod Terminal
