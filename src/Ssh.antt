-- ===== src/Ssh.antt =====
-- crates/polyterm-ssh/src: the SSH back end.
pub mod Reconnect
pub mod Socks
pub mod Forwards
pub mod Pump
pub mod Io
pub mod Auth
pub mod Establish
