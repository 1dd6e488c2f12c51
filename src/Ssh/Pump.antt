-- ===== src/Ssh/Pump.antt =====
-- crates/polyterm-ssh/src/lib.rs: `pump`, the loop of a connected session. What `select!` takes, one at a time,
-- is an argument, with whether the write or the send that it leads to succeeds.
pub mod Ending
mod Tests
use poly_term.Prelude.{
  ℕ, suc, Bool, true, false, Option, none, some, List, [], ◌∷◌, ◌++◌, if◌then◌else◌,
}
use poly_term.Prelude.Text.{Text, codes}
use poly_term.Core.Transport.{
  ControlMsg, resize, break, set_signal, reconnect, disconnect, add_forward, remove_forward,
  open_sftp, DisconnectReason, local, remote, timeout, failed,
}
use poly_term.Ssh.Forwards.{Forwards, start, stop, abort_all}

-- `russh::ChannelMsg`, with the messages that the loop ignores as one.
pub data ChannelMsg : Type 0 where
  data_bytes extended_data : List ℕ → ChannelMsg
  exit_status exit_signal eof close other : ChannelMsg

-- `none` is the end of the channel that is read.
pub data Taken : Type 0 where
  input : Option (List ℕ) → Bool → Taken
  control : Option ControlMsg → Taken
  from_channel : Option ChannelMsg → Bool → Taken

pub record PumpState : Type 0 where
  pub exited : Bool
  pub size : ℕ × ℕ
  pub forwards : Forwards
  -- To the far end, to the window, and the SFTP servers started.
  pub sent : List (List ℕ)
  pub shown : List (List ℕ)
  pub sftp_served : ℕ

abbrev pub Step : Type 0
Step = Option DisconnectReason × PumpState

on_input : Option (List ℕ) → Bool → PumpState → Step
on_input none written s = (some local, s)
on_input (some bytes) true s = (none, record s { sent = s.sent ++ bytes ∷ [] })
on_input (some bytes) false s = (some (failed (codes "write to channel failed")), s)

pub on_control : Option ControlMsg → PumpState → Step
on_control none s = (some local, s)
on_control (some (resize cols rows)) s = (none, record s { size = (cols, rows) })
on_control (some (add_forward id spec)) s = (none, record s { forwards = start id spec s.forwards })
on_control (some (remove_forward id)) s = (none, record s { forwards = stop id s.forwards })
on_control (some open_sftp) s = (none, record s { sftp_served = suc s.sftp_served })
on_control (some disconnect) s = (some local, s)
on_control (some break) s = (none, s)
on_control (some (set_signal signal level)) s = (none, s)
on_control (some reconnect) s = (none, s)

on_channel : Option ChannelMsg → Bool → PumpState → Step
on_channel none shown s = (some (if s.exited then remote else timeout), s)
on_channel (some (data_bytes bytes)) true s = (none, record s { shown = s.shown ++ bytes ∷ [] })
on_channel (some (data_bytes bytes)) false s = (some local, s)
on_channel (some (extended_data bytes)) true s = (none, record s { shown = s.shown ++ bytes ∷ [] })
on_channel (some (extended_data bytes)) false s = (none, s)
on_channel (some exit_status) shown s = (none, record s { exited = true })
on_channel (some exit_signal) shown s = (none, record s { exited = true })
on_channel (some eof) shown s = (none, s)
on_channel (some close) shown s = (some remote, s)
on_channel (some other) shown s = (none, s)

pub on_taken : Taken → PumpState → Step
unfolding on_input on_control on_channel
on_taken (input chunk written) s = on_input chunk written s
on_taken (control msg) s = on_control msg s
on_taken (from_channel msg shown) s = on_channel msg shown s

-- The loop goes on, or every forward is dropped and it returns.
abbrev pub continue : (PumpState → Step) → Step → Step
continue go (none, s) = go s
continue go (some reason, s) = (some reason, record s { forwards = abort_all s.forwards })

-- `none` while it still runs.
pub pump : List Taken → PumpState → Step
unfolding on_taken
pump [] s = (none, s)
pump (t ∷ takes) s = continue (pump takes) (on_taken t s)
