-- ===== src/Ui/Keyboard.antt =====
-- crates/polyterm-ui/src/app.rs (`route_keyboard`, `deliver_paste`, the paste's confirmation) and `encode_key` of
-- crates/polyterm-ui/src/pane.rs. The events of a frame are egui's; text is its bytes. What the focused pane has
-- selected is an argument; what the frame sends, and to whom, is a list.
pub mod Pasting
mod Tests
use poly_term.Prelude.{
  ℕ, suc, ◌%◌, Bool, true, false, not, ◌&&◌, ◌||◌, Option, none, some, List, [], ◌∷◌, ◌++◌, any,
  eqb, leb, is_empty, if◌then◌else◌,
}
use poly_term.Prelude.Text.{Text}
use poly_term.Core.Session.{SessionId}

-- `egui::Key`, as far as the code tells its values apart: a letter is its upper-case code.
pub data Key : Type 0 where
  letter : ℕ → Key
  enter backspace tab escape arrow_up arrow_down arrow_right arrow_left : Key
  home end insert delete page_up page_down : Key
  other_key : Key

pub data FocusDir : Type 0 where
  left right up down : FocusDir

pub record Modifiers : Type 0 where
  pub ctrl : Bool
  pub shift : Bool
  pub alt : Bool

pub data Event : Type 0 where
  text : Text → Event
  paste : Text → Event
  copy cut : Event
  key : Key → Bool → Modifiers → Event
  other_event : Event

escape_sequence : Key → Option (List ℕ)
escape_sequence enter = some (13 ∷ [])
escape_sequence backspace = some (127 ∷ [])
escape_sequence tab = some (9 ∷ [])
escape_sequence escape = some (27 ∷ [])
escape_sequence arrow_up = some (27 ∷ 91 ∷ 65 ∷ [])
escape_sequence arrow_down = some (27 ∷ 91 ∷ 66 ∷ [])
escape_sequence arrow_right = some (27 ∷ 91 ∷ 67 ∷ [])
escape_sequence arrow_left = some (27 ∷ 91 ∷ 68 ∷ [])
escape_sequence home = some (27 ∷ 91 ∷ 72 ∷ [])
escape_sequence end = some (27 ∷ 91 ∷ 70 ∷ [])
escape_sequence insert = some (27 ∷ 91 ∷ 50 ∷ 126 ∷ [])
escape_sequence delete = some (27 ∷ 91 ∷ 51 ∷ 126 ∷ [])
escape_sequence page_up = some (27 ∷ 91 ∷ 53 ∷ 126 ∷ [])
escape_sequence page_down = some (27 ∷ 91 ∷ 54 ∷ 126 ∷ [])
escape_sequence (letter c) = none
escape_sequence other_key = none

with_alt : Bool → Option (List ℕ) → Option (List ℕ)
with_alt alt none = none
with_alt true (some bytes) = some (27 ∷ bytes)
with_alt false (some bytes) = some bytes

-- Ctrl and a letter make its control code, its last five bits.
control_code : Bool → Key → Option ℕ
control_code true (letter c) = some (c % 32)
control_code true enter = none
control_code true backspace = none
control_code true tab = none
control_code true escape = none
control_code true arrow_up = none
control_code true arrow_down = none
control_code true arrow_right = none
control_code true arrow_left = none
control_code true home = none
control_code true end = none
control_code true insert = none
control_code true delete = none
control_code true page_up = none
control_code true page_down = none
control_code true other_key = none
control_code false k = none

unfoldable pub encode_key : Key → Bool → Bool → Option (List ℕ)
unfolding control_code escape_sequence with_alt
encode_key k ctrl alt = elim (control_code ctrl k) [
  | some code ↦ some (code ∷ [])
  | none ↦ with_alt alt (escape_sequence k)
]

-- What a key is kept for, with Ctrl and Shift.
pub data Shortcut : Type 0 where
  toggle_panel toggle_logging : Shortcut
  move : FocusDir → Shortcut

unfoldable pub shortcut : Key → Option Shortcut
shortcut (letter c) =
    if eqb c 69 then some toggle_panel else if eqb c 76 then some toggle_logging else none
shortcut arrow_left = some (move left)
shortcut arrow_right = some (move right)
shortcut arrow_up = some (move up)
shortcut arrow_down = some (move down)
shortcut enter = none
shortcut backspace = none
shortcut tab = none
shortcut escape = none
shortcut home = none
shortcut end = none
shortcut insert = none
shortcut delete = none
shortcut page_up = none
shortcut page_down = none
shortcut other_key = none

-- What the loop over a frame's events collects. `selection` is that of the focused pane, where it is live: a copy
-- takes it.
pub record Routed : Type 0 where
  pub out : List ℕ
  pub copied : Option Text
  pub pastes : List Text
  pub live : Bool
  pub selection : Option Text
  pub panel_toggles : ℕ
  pub log_toggles : ℕ
  pub moves : List FocusDir

push : List ℕ → Routed → Routed
push bytes r = record r { out = r.out ++ bytes }

copy_or_interrupt : Bool → Option Text → Routed → Routed
unfolding push
copy_or_interrupt false selection r = r
copy_or_interrupt true (some t) r = record r { copied = some t; selection = none }
copy_or_interrupt true none r = push (3 ∷ []) r

obey : Shortcut → Routed → Routed
obey toggle_panel r = record r { panel_toggles = suc r.panel_toggles }
obey toggle_logging r = record r {
  log_toggles = if r.live then suc r.log_toggles else r.log_toggles;
}
obey (move dir) r = record r { moves = r.moves ++ dir ∷ [] }

type_key : Option (List ℕ) → Routed → Routed
unfolding push
type_key none r = r
type_key (some bytes) r = push bytes r

press : Option Shortcut → Key → Modifiers → Routed → Routed
unfolding obey type_key
press (some s) k m r = obey s r
press none k m r = type_key (encode_key k m.ctrl m.alt) r

route_event : Event → Routed → Routed
unfolding push copy_or_interrupt press
route_event (text t) r = push t r
route_event (paste t) r = record r { pastes = r.pastes ++ t ∷ [] }
route_event copy r = copy_or_interrupt r.live r.selection r
route_event cut r = copy_or_interrupt r.live r.selection r
route_event (key k false m) r = r
route_event (key k true m) r = press (if m.ctrl && m.shift then shortcut k else none) k m r
route_event other_event r = r

pub route_events : List Event → Routed → Routed
unfolding route_event
route_events [] r = r
route_events (e ∷ events) r = route_events events (route_event e r)

-- The restart menu of a finished pane.
pub data Menu : Type 0 where
  restart close nothing : Menu

menu_key : Key → Menu → Menu
menu_key (letter c) rest = if eqb c 82 then restart else rest
menu_key enter rest = close
menu_key backspace rest = rest
menu_key tab rest = rest
menu_key escape rest = rest
menu_key arrow_up rest = rest
menu_key arrow_down rest = rest
menu_key arrow_right rest = rest
menu_key arrow_left rest = rest
menu_key home rest = rest
menu_key end rest = rest
menu_key insert rest = rest
menu_key delete rest = rest
menu_key page_up rest = rest
menu_key page_down rest = rest
menu_key other_key rest = rest

pub menu : List Event → Menu
unfolding menu_key
menu [] = nothing
menu (key k true m ∷ events) = menu_key k (menu events)
menu (key k false m ∷ events) = menu events
menu (text t ∷ events) = menu events
menu (paste t ∷ events) = menu events
menu (copy ∷ events) = menu events
menu (cut ∷ events) = menu events
menu (other_event ∷ events) = menu events

-- What goes to a session.
pub data Send : Type 0 where
  input : SessionId → List ℕ → Send
  pasted : SessionId → Text → Send

pub record PendingPaste : Type 0 where
  pub text : Text
  pub recipients : List SessionId

-- A recipient that is not live gets nothing.
module _ (is_live : SessionId → Bool) where
  send_each : (SessionId → Send) → List SessionId → List Send
  send_each send [] = []
  send_each send (s ∷ recipients) =
      let rest = send_each send recipients in if is_live s then send s ∷ rest else rest

  pub send_typed : List ℕ → List SessionId → List Send
  unfolding send_each
  send_typed out recipients = send_each (λ s. input s out) recipients

  pub deliver_paste : Text → List SessionId → List Send
  unfolding send_each
  deliver_paste t recipients = send_each (λ s. pasted s t) recipients

  -- The pastes of a frame, in order, and the one that waits for its confirmation.
  pub route_pastes : List Text → List SessionId → List Send × Option PendingPaste
  unfolding deliver_paste
  route_pastes [] recipients = ([], none)
  route_pastes (t ∷ pastes) recipients =
      let (sends, waiting) = route_pastes pastes recipients in
      if any (eqb 10) t
      then ([], some (record { text = t; recipients = recipients }))
      else (deliver_paste t recipients ++ sends, waiting)

  -- A frame of the confirmation: the two buttons and whether its window is still open. What is sent, and what is
  -- left waiting.
  pub confirm_paste : Bool → Bool → Bool → PendingPaste → List Send × Option PendingPaste
  unfolding deliver_paste
  confirm_paste confirm cancel window_open pending =
      if cancel || not window_open
      then ([], none)
      else if confirm
      then (deliver_paste pending.text pending.recipients, none)
      else ([], some pending)

  typed_or_none : List ℕ → List SessionId → List Send
  unfolding send_typed
  typed_or_none [] recipients = []
  typed_or_none (b ∷ out) recipients = send_typed (b ∷ out) recipients

  -- What a frame sends when the focused pane is not finished. The recipients are those after the focus moved.
  pub route_keyboard : List Event → Routed → List SessionId → List Send × Option PendingPaste
  unfolding route_events typed_or_none route_pastes
  route_keyboard events start recipients =
      let r = route_events events start in
      let (sends, waiting) = route_pastes r.pastes recipients in
      (typed_or_none r.out recipients ++ sends, waiting)
