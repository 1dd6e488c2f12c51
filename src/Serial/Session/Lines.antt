-- ===== src/Serial/Session/Lines.antt =====
-- crates/polyterm-serial/src/session.rs: the BREAK condition and the modem lines over a whole session.
use poly_term.Prelude.{ℕ, ◌<◌, ◌≡◌, ◌≢◌, ◌⊎◌, Bool, true, false, Option, none, some, List, [], ◌∷◌}
use poly_term.Core.Transport.{ModemLines, modem_status}
use poly_term.Serial.Session.{
  Effect, opens_port, set_break, clear_break, write_dtr, write_rts, sends, writes, outputs,
  reads_lines, SerialState,
}

-- Whether the port in use was last told to hold BREAK.
abbrev in_break : List Effect → Bool
in_break [] = false
in_break (opens_port ∷ log) = false
in_break (set_break ∷ log) = true
in_break (clear_break ∷ log) = false
in_break (write_dtr level ∷ log) = in_break log
in_break (write_rts level ∷ log) = in_break log
in_break (sends e ∷ log) = in_break log
in_break (writes b ∷ log) = in_break log
in_break (outputs b ∷ log) = in_break log
in_break (reads_lines lines ∷ log) = in_break log

abbrev is_some : Option ℕ → Bool
is_some none = false
is_some (some n) = true

-- The modem lines that the window last heard of for the port in use.
abbrev last_report : List Effect → Option ModemLines
last_report [] = none
last_report (opens_port ∷ log) = none
last_report (sends (modem_status lines) ∷ log) = some lines
last_report (sends e ∷ log) = last_report log
last_report (set_break ∷ log) = last_report log
last_report (clear_break ∷ log) = last_report log
last_report (write_dtr level ∷ log) = last_report log
last_report (write_rts level ∷ log) = last_report log
last_report (writes b ∷ log) = last_report log
last_report (outputs b ∷ log) = last_report log
last_report (reads_lines lines ∷ log) = last_report log

-- The modem lines as they were last read from the port in use.
abbrev last_read : List Effect → Option ModemLines
last_read [] = none
last_read (opens_port ∷ log) = none
last_read (reads_lines lines ∷ log) = some lines
last_read (sends e ∷ log) = last_read log
last_read (set_break ∷ log) = last_read log
last_read (clear_break ∷ log) = last_read log
last_read (write_dtr level ∷ log) = last_read log
last_read (write_rts level ∷ log) = last_read log
last_read (writes b ∷ log) = last_read log
last_read (outputs b ∷ log) = last_read log

-- Every report differs from the one before it.
abbrev Changes : List Effect → Type 0
Changes [] = Unit
Changes (sends (modem_status lines) ∷ log) = (last_report log ≢ some lines) × Changes log
Changes (sends e ∷ log) = Changes log
Changes (opens_port ∷ log) = Changes log
Changes (set_break ∷ log) = Changes log
Changes (clear_break ∷ log) = Changes log
Changes (write_dtr level ∷ log) = Changes log
Changes (write_rts level ∷ log) = Changes log
Changes (writes b ∷ log) = Changes log
Changes (outputs b ∷ log) = Changes log
Changes (reads_lines lines ∷ log) = Changes log

abbrev pub Tracked : SerialState → Type 0
Tracked s =
    (in_break s.log ≡ is_some s.break_until)
    × (last_report s.log ≡ s.last_modem)
    × (last_read s.log ≡ s.last_modem)
    × Changes s.log

-- A BREAK that is held has a time to end it, which is not over.
abbrev pub NotOverdue : ℕ → SerialState → Type 0
NotOverdue now s =
    (in_break s.log ≡ false) ⊎ ((deadline : ℕ) × (s.break_until ≡ some deadline) × (now < deadline))
