-- ===== src/Ui/PaneEvents.antt =====
-- crates/polyterm-ui/src/pane.rs: what a pane keeps of its back end's events, and its port forwards. The map of
-- forwards is a list with one entry per id; a control message is sent if the channel takes it, and the pane does
-- not look.
pub mod Latest
mod Tests
use poly_term.Prelude.{
  ℕ, Bool, true, false, not, Option, none, some, List, [], ◌∷◌, ◌++◌, eqb, find, retain, length,
}
use poly_term.Core.Forward.{
  ForwardSpec, ForwardId, ForwardState, starting, active, failed, closed, ForwardStatus,
}
use poly_term.Core.Prompt.{HostKeyPrompt, CredentialPrompt}
use poly_term.Core.Transport.{
  ModemLines, ControlMsg, add_forward, remove_forward, TransportEvent, connecting, host_key,
  credential, authenticated, connected, modem_status, disconnected, error, forward_status,
}

pub data PendingPrompt : Type 0 where
  host_key_prompt : HostKeyPrompt → PendingPrompt
  credential_prompt : CredentialPrompt → PendingPrompt

pub record LivePane : Type 0 where
  pub forwards : List ForwardStatus
  pub disconnected_now : Bool
  pub finished : Bool
  pub modem : Option ModemLines
  pub prompts : List PendingPrompt
  pub control : List ControlMsg

abbrev pub has_id : ForwardId → ForwardStatus → Bool
has_id id status = eqb status.id id

abbrev pub other_id : ForwardId → ForwardStatus → Bool
other_id id status = not (eqb status.id id)

-- `HashMap::remove`, `HashMap::insert` and `HashMap::get`
abbrev pub remove : ForwardId → List ForwardStatus → List ForwardStatus
remove id forwards = retain (other_id id) forwards

abbrev insert : ForwardStatus → List ForwardStatus → List ForwardStatus
insert status forwards = status ∷ remove status.id forwards

abbrev pub lookup : ForwardId → List ForwardStatus → Option ForwardStatus
lookup id forwards = find (has_id id) forwards

-- The new id is an argument.
pub request_forward : ForwardId → ForwardSpec → LivePane → LivePane
request_forward id spec p = record p {
  control = p.control ++ add_forward id spec ∷ [];
  forwards = insert (record { id = id; spec = spec; state = starting }) p.forwards;
}

pub drop_forward : ForwardId → LivePane → LivePane
drop_forward id p = record p {
  control = p.control ++ remove_forward id ∷ [];
  forwards = remove id p.forwards;
}

abbrev is_live : ForwardState → Bool
is_live starting = true
is_live active = true
is_live (failed reason) = false
is_live closed = false

pub active_forward_count : LivePane → ℕ
active_forward_count p = length (retain (λ f. is_live f.state) p.forwards)

abbrev pub on_status : ForwardState → ForwardStatus → List ForwardStatus → List ForwardStatus
on_status closed status forwards = remove status.id forwards
on_status starting status forwards = insert status forwards
on_status active status forwards = insert status forwards
on_status (failed reason) status forwards = insert status forwards

pub on_event : TransportEvent → LivePane → LivePane
on_event (disconnected reason) p = record p { disconnected_now = true; modem = none }
on_event connected p = record p { disconnected_now = false }
on_event (modem_status lines) p = record p { modem = some lines }
on_event (forward_status status) p = record p {
  forwards = on_status status.state status p.forwards;
}
on_event (host_key prompt) p = record p { prompts = p.prompts ++ host_key_prompt prompt ∷ [] }
on_event (credential prompt) p = record p { prompts = p.prompts ++ credential_prompt prompt ∷ [] }
on_event connecting p = p
on_event authenticated p = p
on_event (error message) p = p

-- The events waiting, oldest first, and whether the back end is gone behind them.
pub pump_events : List TransportEvent → Bool → LivePane → LivePane
unfolding on_event
pump_events [] false p = p
pump_events [] true p = record p { finished = true }
pump_events (e ∷ events) gone p = pump_events events gone (on_event e p)
