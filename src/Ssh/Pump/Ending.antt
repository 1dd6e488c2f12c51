-- ===== src/Ssh/Pump/Ending.antt =====
-- crates/polyterm-ssh/src/lib.rs: why a session ended, and what is left of its forwards.
use poly_term.Prelude.{◌≡◌, true, false, none, some}
use poly_term.Ssh.Reconnect.{reconnects}
use poly_term.Ssh.Pump.{Taken, input, control, from_channel, Step}

-- No write to the channel failed.
abbrev Written : Taken → Type 0
Written (input chunk written) = written ≡ true
Written (control msg) = Unit
Written (from_channel msg shown) = Unit

-- A step of a session whose shell has exited.
abbrev pub Clean : Step → Type 0
Clean (none, s) = s.exited ≡ true
Clean (some reason, s) = reconnects reason ≡ false
