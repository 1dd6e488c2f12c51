-- ===== src/Ui/Prompts.antt =====
-- crates/polyterm-ui/src/prompts.rs and the prompts' part of crates/polyterm-ui/src/app.rs: the questions of the back
-- ends. A `oneshot` is a number, and what was sent on them is a log.
pub mod Modal
pub mod Answer
