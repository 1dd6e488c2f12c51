-- ===== src/Ssh/Forwards.antt =====
-- crates/polyterm-ssh/src/forward.rs: starting and stopping port forwards. The two maps are association lists
-- with one entry per key, and what is asked of the runtime, the server and the window is a list of calls.
use poly_term.Prelude.{
  ℕ, Bool, not, ◌&&◌, Option, none, some, List, [], ◌∷◌, ◌++◌, eqb, ◌==◌, list_eq, nat_eq, find,
  retain,
}
use poly_term.Prelude.Text.{Text}
use poly_term.Core.Forward.{
  ForwardKind, local, remote, dynamic, ForwardSpec, ForwardId, ForwardStatus, closed,
}

pub data Running : Type 0 where
  listener : Running
  remote_listen : Text → ℕ → Running

pub data Call : Type 0 where
  spawn_listener : ForwardId → ForwardSpec → Call
  -- `tcpip_forward`, whose outcome is reported by its own task
  request_remote : ForwardId → ForwardSpec → Call
  abort_listener : ForwardId → Call
  cancel_remote : Text → ℕ → Call
  report : ForwardStatus → Call

pub record Entry : Type 0 where
  pub id : ForwardId
  pub spec : ForwardSpec
  pub running : Running

-- Where a channel that the server opens for a bind is delivered.
pub record Target : Type 0 where
  pub bind_host : Text
  pub bind_port : ℕ
  pub target_host : Text
  pub target_port : ℕ

pub record Forwards : Type 0 where
  pub running : List Entry
  pub remote_forwards : List Target
  pub calls : List Call

abbrev pub other_id : ForwardId → Entry → Bool
other_id id e = not (eqb e.id id)

abbrev other_bind : Text → ℕ → Target → Bool
other_bind host port t = not (t.bind_host == host && t.bind_port == port)

abbrev with_listener : ForwardId → ForwardSpec → Forwards → Forwards
with_listener id spec f = record f {
  running = record { id = id; spec = spec; running = listener } ∷ retain (other_id id) f.running;
  calls = f.calls ++ spawn_listener id spec ∷ [];
}

start_kind : ForwardKind → ForwardId → ForwardSpec → Forwards → Forwards
start_kind local id spec f = with_listener id spec f
start_kind dynamic id spec f = with_listener id spec f
start_kind remote id spec f = record {
  running =
      record { id = id; spec = spec; running = remote_listen spec.bind_host spec.bind_port }
      ∷ retain (other_id id) f.running;
  remote_forwards =
      record {
        bind_host = spec.bind_host;
        bind_port = spec.bind_port;
        target_host = spec.target_host;
        target_port = spec.target_port;
      }
      ∷ retain (other_bind spec.bind_host spec.bind_port) f.remote_forwards;
  calls = f.calls ++ request_remote id spec ∷ [];
}

pub start : ForwardId → ForwardSpec → Forwards → Forwards
unfolding start_kind
start id spec f = start_kind spec.kind id spec f

abbrev closed_status : Entry → Call
closed_status e = report (record { id = e.id; spec = e.spec; state = closed })

stop_running : Running → Entry → Forwards → Forwards
stop_running listener e f = record f {
  calls = f.calls ++ abort_listener e.id ∷ closed_status e ∷ [];
}
stop_running (remote_listen host port) e f = record f {
  remote_forwards = retain (other_bind host port) f.remote_forwards;
  calls = f.calls ++ cancel_remote host port ∷ closed_status e ∷ [];
}

abbrev stop_found : ForwardId → Option Entry → Forwards → Forwards
stop_found id none f = f
stop_found id (some e) f =
    stop_running e.running e (record f { running = retain (other_id id) f.running })

pub stop : ForwardId → Forwards → Forwards
unfolding stop_running
stop id f = stop_found id (find (λ e. eqb e.id id) f.running) f

abbrev aborts : List Entry → List Call
aborts [] = []
aborts (e ∷ entries) = elim e.running [
  | listener ↦ abort_listener e.id ∷ aborts entries
  | remote_listen host port ↦ aborts entries
]

pub abort_all : Forwards → Forwards
abort_all f = record f { running = []; calls = f.calls ++ aborts f.running }
