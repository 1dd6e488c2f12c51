-- ===== src/Serial.antt =====
-- crates/polyterm-serial/src: the serial back end.
pub mod Session
