-- ===== src/Store.antt =====
-- crates/polyterm-store/src: what outlives a run.
pub mod Op
pub mod KnownHosts
pub mod Files
pub mod Memory
pub mod Library
pub mod AtomicWrite
pub mod Credentials
