-- ===== src/Core.antt =====
-- crates/polyterm-core/src: the types that the back ends, the store and the window share.
pub mod Session
pub mod Forward
pub mod Transport
pub mod Prompt
