-- ===== src/Pty.antt =====
-- crates/polyterm-pty/src: the local shell's back end.
pub mod Session
