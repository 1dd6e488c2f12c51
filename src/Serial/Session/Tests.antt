-- ===== src/Serial/Session/Tests.antt =====
-- A BREAK, then the adapter is unplugged and plugged in again.
use poly_term.Prelude.{ℕ, true, false, some, List, [], ◌∷◌}
use poly_term.Core.Transport.{ControlMsg, break, reconnect}
use poly_term.Serial.Session.{Turn, ReadOutcome, timed_out, device_lost, takes}

abbrev at : ℕ → List ControlMsg → ReadOutcome → Turn
at time control read = record {
  control = control;
  control_gone = false;
  break_at = time;
  clear_at = time;
  poll_at = time;
  polled_at = time;
  cts = some true;
  dsr = some true;
  dcd = some false;
  ri = some false;
  input = [];
  input_gone = false;
  read = read;
  reopened_at = time;
}

abbrev turns : List Turn
turns =
    at 0 (break ∷ []) timed_out
    ∷ at 200 [] timed_out
    ∷ at 220 [] (device_lost (takes reconnect false ∷ takes reconnect true ∷ []))
    ∷ at 240 [] timed_out
    ∷ []
