-- ===== src/Serial/Session.antt =====
-- crates/polyterm-serial/src/session.rs: the loop of a serial session and the wait after the adapter went away.
-- What a turn of the loop finds on its channels, at the port and on the clock is an argument. Times are in
-- milliseconds. What is done is logged, the newest first, with the modem lines as they were read.
pub mod Lines
mod Tests
use poly_term.Prelude.{
  ℕ, ◌+◌, Bool, true, false, not, ◌&&◌, ◌||◌, Option, none, some, List, [], ◌∷◌, leb, is_empty,
  if◌then◌else◌,
}
use poly_term.Core.Session.{Parity, StopBits, FlowControl, SerialConfig}
use poly_term.Core.Transport.{
  SerialSignal, dtr, rts, ModemLines, ControlMsg, resize, break, set_signal, reconnect, disconnect,
  add_forward, remove_forward, open_sftp, DisconnectReason, local, device_removed, TransportEvent,
  connected, disconnected, modem_status,
}

abbrev break_duration : ℕ
break_duration = 250

abbrev modem_poll_interval : ℕ
modem_poll_interval = 200

pub data Effect : Type 0 where
  opens_port set_break clear_break : Effect
  write_dtr write_rts : Bool → Effect
  sends : TransportEvent → Effect
  writes outputs : List ℕ → Effect
  reads_lines : ModemLines → Effect

pub record SerialState : Type 0 where
  pub break_until : Option ℕ
  pub modem_deadline : ℕ
  pub last_modem : Option ModemLines
  pub log : List Effect

abbrev pub logged : Effect → SerialState → SerialState
logged e s = record s { log = e ∷ s.log }

-- One control message: whether the loop goes on.
pub on_control : ℕ → ControlMsg → SerialState → Bool × SerialState
on_control now break s =
    (true, logged set_break (record s { break_until = some (now + break_duration) }))
on_control now (set_signal dtr level) s = (true, logged (write_dtr level) s)
on_control now (set_signal rts level) s = (true, logged (write_rts level) s)
on_control now (resize cols rows) s = (true, s)
on_control now reconnect s = (true, s)
on_control now (add_forward id spec) s = (true, s)
on_control now (remove_forward id) s = (true, s)
on_control now open_sftp s = (true, s)
on_control now disconnect s = (false, logged (sends (disconnected local)) s)

-- Go on with the rest of a turn, or not.
abbrev pub and_then : (SerialState → Bool × SerialState) → Bool × SerialState → Bool × SerialState
and_then go (true, s) = go s
and_then go (false, s) = (false, s)

-- Everything pending, and whether the window is gone behind it.
pub drain_control : ℕ → List ControlMsg → Bool → SerialState → Bool × SerialState
unfolding on_control
drain_control now [] gone s = (not gone, s)
drain_control now (msg ∷ msgs) gone s =
    and_then (drain_control now msgs gone) (on_control now msg s)

abbrev pub clear_due : ℕ → Option ℕ → SerialState → SerialState
clear_due now none s = s
clear_due now (some deadline) s =
    if leb deadline now then logged clear_break (record s { break_until = none }) else s

abbrev pub same_bool : Bool → Bool → Bool
same_bool true b = b
same_bool false b = not b

-- `==` on `ModemLines`
abbrev pub same_lines : ModemLines → ModemLines → Bool
same_lines a b =
    same_bool a.cts b.cts && same_bool a.dsr b.dsr && same_bool a.dcd b.dcd && same_bool a.ri b.ri

abbrev pub is_last : Option ModemLines → ModemLines → Bool
is_last none lines = false
is_last (some last) lines = same_lines last lines

abbrev pub read_modem : Option Bool → Option Bool → Option Bool → Option Bool → Option ModemLines
read_modem (some cts) (some dsr) (some dcd) (some ri) =
    some (record { cts = cts; dsr = dsr; dcd = dcd; ri = ri })
read_modem none dsr dcd ri = none
read_modem (some cts) none dcd ri = none
read_modem (some cts) (some dsr) none ri = none
read_modem (some cts) (some dsr) (some dcd) none = none

abbrev pub report_change : ModemLines → SerialState → SerialState
report_change lines s =
    if is_last s.last_modem lines
    then s
    else logged (sends (modem_status lines)) (record s { last_modem = some lines })

abbrev pub report : Option ModemLines → SerialState → SerialState
report none s = s
report (some lines) s = report_change lines (logged (reads_lines lines) s)

pub poll_modem : ℕ → ℕ → Option ModemLines → SerialState → SerialState
poll_modem now next lines s =
    if leb s.modem_deadline now
    then report lines (record s { modem_deadline = next + modem_poll_interval })
    else s

pub drain_input : List (List ℕ) → Bool → SerialState → Bool × SerialState
drain_input [] gone s = (not gone, s)
drain_input (bytes ∷ input) gone s = drain_input input gone (logged (writes bytes) s)

-- A control message taken while there is no port, with whether opening the port would succeed; or the end of the
-- channel.
pub data Wait : Type 0 where
  takes : ControlMsg → Bool → Wait
  hangs_up : Wait

-- Whether the port came back; `none` while it still waits.
pub wait_and_reopen : List Wait → Option Bool
wait_and_reopen [] = none
wait_and_reopen (hangs_up ∷ waits) = some false
wait_and_reopen (takes reconnect true ∷ waits) = some true
wait_and_reopen (takes reconnect false ∷ waits) = wait_and_reopen waits
wait_and_reopen (takes disconnect opens ∷ waits) = some false
wait_and_reopen (takes break opens ∷ waits) = wait_and_reopen waits
wait_and_reopen (takes (set_signal g l) opens ∷ waits) = wait_and_reopen waits
wait_and_reopen (takes (resize c r) opens ∷ waits) = wait_and_reopen waits
wait_and_reopen (takes (add_forward i f) opens ∷ waits) = wait_and_reopen waits
wait_and_reopen (takes (remove_forward i) opens ∷ waits) = wait_and_reopen waits
wait_and_reopen (takes open_sftp opens ∷ waits) = wait_and_reopen waits

-- What a read gives: bytes, with whether the window took them; nothing in time; or a hard error.
pub data ReadOutcome : Type 0 where
  got : List ℕ → Bool → ReadOutcome
  timed_out : ReadOutcome
  device_lost : List Wait → ReadOutcome

abbrev pub reopened : ℕ → Option Bool → SerialState → Bool × SerialState
reopened now none s = (false, s)
reopened now (some false) s = (false, s)
reopened now (some true) s = (
  true,
  logged (sends connected) (
      logged opens_port (record s { break_until = none; last_modem = none; modem_deadline = now })),
)

pub on_read : ℕ → ReadOutcome → SerialState → Bool × SerialState
unfolding wait_and_reopen
on_read now timed_out s = (true, s)
on_read now (got bytes taken) s =
    if is_empty bytes
    then (true, s)
    else if taken
    then (true, logged (outputs bytes) s)
    else (false, s)
on_read now (device_lost waits) s =
    reopened now (wait_and_reopen waits) (logged (sends (disconnected device_removed)) s)

-- What one turn of the loop meets; each reading of the clock is its own.
pub record Turn : Type 0 where
  pub control : List ControlMsg
  pub control_gone : Bool
  pub break_at : ℕ
  pub clear_at : ℕ
  pub poll_at : ℕ
  pub polled_at : ℕ
  -- The four input lines, `none` where reading one fails.
  pub cts : Option Bool
  pub dsr : Option Bool
  pub dcd : Option Bool
  pub ri : Option Bool
  pub input : List (List ℕ)
  pub input_gone : Bool
  pub read : ReadOutcome
  pub reopened_at : ℕ

-- The clearing of a BREAK that is due, and the poll of the modem lines.
abbrev pub tend : Turn → SerialState → SerialState
tend t s =
    poll_modem t.poll_at t.polled_at (read_modem t.cts t.dsr t.dcd t.ri)
      (clear_due t.clear_at s.break_until s)

abbrev pub after_control : Turn → SerialState → Bool × SerialState
after_control t s =
    and_then (on_read t.reopened_at t.read) (drain_input t.input t.input_gone (tend t s))

pub turn : Turn → SerialState → Bool × SerialState
turn t s = and_then (after_control t) (drain_control t.break_at t.control t.control_gone s)

pub run_turns : List Turn → SerialState → Bool × SerialState
run_turns [] s = (true, s)
run_turns (t ∷ turns) s = and_then (run_turns turns) (turn t s)

-- The port is open when the loop begins.
abbrev pub begun : ℕ → SerialState
begun now = record {
  break_until = none;
  modem_deadline = now;
  last_modem = none;
  log = sends connected ∷ opens_port ∷ [];
}

pub run : ℕ → List Turn → Bool × SerialState
unfolding run_turns
run now turns = run_turns turns (begun now)
