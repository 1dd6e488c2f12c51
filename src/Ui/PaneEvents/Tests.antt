-- ===== src/Ui/PaneEvents/Tests.antt =====
-- A forward that comes up and is closed again, and one that fails.
use poly_term.Prelude.{◌≡◌, refl, false, none, List, [], ◌∷◌}
use poly_term.Prelude.Text.{codes}
use poly_term.Core.Forward.{ForwardSpec, dynamic, active, failed, closed}
use poly_term.Core.Transport.{TransportEvent, connected, forward_status}
use poly_term.Ui.PaneEvents.{LivePane, lookup, request_forward, active_forward_count, pump_events}
use poly_term.Ui.PaneEvents.Latest.{last_status, shown, lookup-pump_events}

abbrev socks : ForwardSpec
socks = record {
  kind = dynamic;
  bind_host = codes "127.0.0.1";
  bind_port = 1080;
  target_host = [];
  target_port = 0;
}

abbrev fresh : LivePane
fresh = record {
  forwards = [];
  disconnected_now = false;
  finished = false;
  modem = none;
  prompts = [];
  control = [];
}

abbrev events : List TransportEvent
events =
    connected
    ∷ forward_status (record { id = 1; spec = socks; state = active })
    ∷ forward_status (record { id = 2; spec = socks; state = failed [] })
    ∷ forward_status (record { id = 1; spec = socks; state = closed })
    ∷ []

a_request_counts : active_forward_count (request_forward 1 socks fresh) ≡ 1
unfolding active_forward_count request_forward
a_request_counts = refl

lookup-pump_events_example :
    lookup 1 (pump_events events false fresh).forwards
    ≡ shown (last_status 1 events) (lookup 1 fresh.forwards)
lookup-pump_events_example = lookup-pump_events 1 events false fresh
