-- ===== src/Ui/PaneEvents/Latest.antt =====
-- crates/polyterm-ui/src/pane.rs: the list of forwards follows the latest report on each.
use poly_term.Prelude.{
  ◌≡◌, refl, ◌∙◌, ap, inl, inr, Bool, true, false, Option, none, some, List, [], ◌∷◌, arith, eqb,
  eqb_iff, if◌then◌else◌, Bool-cases, Option-cases,
}
use poly_term.Core.Forward.{
  ForwardId, ForwardState, starting, active, failed, closed, ForwardStatus,
}
use poly_term.Core.Transport.{
  TransportEvent, connecting, host_key, credential, authenticated, connected, modem_status,
  disconnected, error, forward_status,
}
use poly_term.Ui.PaneEvents.{LivePane, remove, lookup, on_status, on_event, pump_events}

-- The latest report on a forward.
abbrev pub last_status : ForwardId → List TransportEvent → Option ForwardStatus
last_status id [] = none
last_status id (forward_status status ∷ events) = elim (last_status id events) [
  | some later ↦ some later
  | none ↦ if eqb status.id id then some status else none
]
last_status id (e ∷ events) = last_status id events

abbrev listed : ForwardState → ForwardStatus → Option ForwardStatus
listed closed status = none
listed starting status = some status
listed active status = some status
listed (failed reason) status = some status

-- What the list shows for a forward, from the latest report and from before.
abbrev pub shown : Option ForwardStatus → Option ForwardStatus → Option ForwardStatus
shown none before = before
shown (some status) before = listed status.state status

lookup-remove_self : (id : ForwardId) (fs : List ForwardStatus) → lookup id (remove id fs) ≡ none
lookup-remove_self id [] = refl
lookup-remove_self id (f ∷ fs) = elim (Bool-cases (eqb f.id id)) [
  | inl e ↦ rw e (lookup-remove_self id fs)
  | inr e ↦ rw e (rw e (lookup-remove_self id fs))
]

-- The entry of one id is not that of another.
ids-ne : (a id other : ForwardId) → eqb other id ≡ false → eqb a other ≡ true → eqb a id ≡ false
ids-ne a id other ne e = ground arith

lookup-remove_ne :
    (id other : ForwardId) (fs : List ForwardStatus)
    → eqb other id ≡ false
    → lookup id (remove other fs) ≡ lookup id fs
lookup-remove_ne id other [] ne = refl
lookup-remove_ne id other (f ∷ fs) ne = elim (Bool-cases (eqb f.id other)) [
  | inl e ↦
      let not_id : eqb f.id id ≡ false = ids-ne f.id id other ne e in
      rw (e, not_id) (lookup-remove_ne id other fs ne)
  | inr e ↦
      rw e (ap (λ rest. if eqb f.id id then some f else rest) (lookup-remove_ne id other fs ne))
]

lookup-on_status_self :
    (state : ForwardState) (status : ForwardStatus) (fs : List ForwardStatus)
    → lookup status.id (on_status state status fs) ≡ listed state status
lookup-on_status_self closed status fs = lookup-remove_self status.id fs
lookup-on_status_self starting status fs = rw ((eqb_iff status.id status.id).1 refl) refl
lookup-on_status_self active status fs = rw ((eqb_iff status.id status.id).1 refl) refl
lookup-on_status_self (failed reason) status fs = rw ((eqb_iff status.id status.id).1 refl) refl

lookup-on_status_ne :
    (id : ForwardId) (state : ForwardState) (status : ForwardStatus) (fs : List ForwardStatus)
    → eqb status.id id ≡ false
    → lookup id (on_status state status fs) ≡ lookup id fs
lookup-on_status_ne id closed status fs ne = lookup-remove_ne id status.id fs ne
lookup-on_status_ne id starting status fs ne = rw ne (lookup-remove_ne id status.id fs ne)
lookup-on_status_ne id active status fs ne = rw ne (lookup-remove_ne id status.id fs ne)
lookup-on_status_ne id (failed reason) status fs ne = rw ne (lookup-remove_ne id status.id fs ne)

lookup-on_status :
    (id : ForwardId) (status : ForwardStatus) (fs : List ForwardStatus)
    → lookup id (on_status status.state status fs)
      ≡ shown (if eqb status.id id then some status else none) (lookup id fs)
lookup-on_status id status fs = elim (Bool-cases (eqb status.id id)) [
  | inl e ↦ rw e (rw (← (eqb_iff status.id id).0 e) (lookup-on_status_self status.state status fs))
  | inr e ↦ rw e (lookup-on_status_ne id status.state status fs e)
]

-- After any events, the list shows for each forward the latest report on it, unless that one says it is closed,
-- and what it showed before where there was no report.
pub lookup-pump_events :
    (id : ForwardId) (events : List TransportEvent) (gone : Bool) (p : LivePane)
    → lookup id (pump_events events gone p).forwards
      ≡ shown (last_status id events) (lookup id p.forwards)
unfolding pump_events on_event
lookup-pump_events id [] false p = refl
lookup-pump_events id [] true p = refl
lookup-pump_events id (forward_status status ∷ events) gone p =
    let rest = lookup-pump_events id events gone (on_event (forward_status status) p) in
    elim (Option-cases (last_status id events)) [
      | inl e ↦ rest ∙ rw e (lookup-on_status id status p.forwards)
      | inr (later, e) ↦ rest ∙ rw e refl
    ]
lookup-pump_events id (disconnected r ∷ events) gone p =
    lookup-pump_events id events gone (on_event (disconnected r) p)
lookup-pump_events id (connected ∷ events) gone p =
    lookup-pump_events id events gone (on_event connected p)
lookup-pump_events id (modem_status l ∷ events) gone p =
    lookup-pump_events id events gone (on_event (modem_status l) p)
lookup-pump_events id (host_key k ∷ events) gone p =
    lookup-pump_events id events gone (on_event (host_key k) p)
lookup-pump_events id (credential c ∷ events) gone p =
    lookup-pump_events id events gone (on_event (credential c) p)
lookup-pump_events id (connecting ∷ events) gone p = lookup-pump_events id events gone p
lookup-pump_events id (authenticated ∷ events) gone p = lookup-pump_events id events gone p
lookup-pump_events id (error m ∷ events) gone p = lookup-pump_events id events gone p
