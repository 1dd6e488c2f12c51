-- ===== src/Ui.antt =====
-- crates/polyterm-ui/src: the window, its panes and its dialogs.
pub mod InputQueue
pub mod Mouse
pub mod Palette
pub mod LineTimestamper
pub mod Selection
pub mod Recipients
pub mod PaneEvents
pub mod Keys
pub mod Prompts
pub mod Form
pub mod Sessions
pub mod ForwardForm
pub mod Tiles
pub mod Panes
pub mod Keyboard
