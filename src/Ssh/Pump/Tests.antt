-- ===== src/Ssh/Pump/Tests.antt =====
-- A shell that exits, and a link that then goes away without a close.
use poly_term.Prelude.{◌≡◌, refl, true, false, none, some, List, [], ◌∷◌}
use poly_term.Ssh.Forwards.{Forwards}
use poly_term.Ssh.Pump.{data_bytes, eof, Taken, input, from_channel, PumpState, pump}
use poly_term.Core.Transport.{timeout}

abbrev no_forwards : Forwards
no_forwards = record { running = []; remote_forwards = []; calls = [] }

abbrev exited : PumpState
exited = record {
  exited = true;
  size = (80, 24);
  forwards = no_forwards;
  sent = [];
  shown = [];
  sftp_served = 0;
}

abbrev link_goes : List Taken
link_goes =
    input (some (13 ∷ [])) true
    ∷ from_channel (some (data_bytes (108 ∷ []))) true
    ∷ from_channel (some eof) true
    ∷ from_channel none true
    ∷ []

a_dropped_link_is_a_timeout :
    (pump (from_channel none true ∷ []) (record exited { exited = false })).0 ≡ some timeout
unfolding pump
a_dropped_link_is_a_timeout = refl
