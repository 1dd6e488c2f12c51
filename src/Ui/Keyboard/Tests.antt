-- ===== src/Ui/Keyboard/Tests.antt =====
-- A typed letter, a paste with a line break, and the keys that are kept.
use poly_term.Prelude.{◌≡◌, refl, true, false, none, some, List, [], ◌∷◌, All}
use poly_term.Prelude.Text.{codes}
use poly_term.Ui.Keyboard.{
  Event, text, paste, key, letter, arrow_left, Modifiers, Routed, encode_key, shortcut, left, input,
  pasted, route_events, route_keyboard, menu, restart,
}
use poly_term.Ui.Keyboard.Pasting.{Unbroken, Held, newline_paste_waits}

abbrev ctrl_shift : Modifiers
ctrl_shift = record { ctrl = true; shift = true; alt = false }

abbrev start : Routed
start = record {
  out = [];
  copied = none;
  pastes = [];
  live = true;
  selection = none;
  panel_toggles = 0;
  log_toggles = 0;
  moves = [];
}

abbrev frame : List Event
frame =
    text (codes "a")
    ∷ key (letter 69) true ctrl_shift
    ∷ key arrow_left true ctrl_shift
    ∷ paste (codes "ok")
    ∷ paste (codes "rm\nx")
    ∷ paste (codes "late")
    ∷ []

sent :
    (route_keyboard (λ s. true) frame start (5 ∷ [])).0
    ≡ input 5 (codes "a") ∷ pasted 5 (codes "ok") ∷ []
unfolding route_keyboard shortcut
sent = refl

moved_left : (route_events frame start).moves ≡ left ∷ []
unfolding route_events shortcut
moved_left = refl

ctrl_c_is_3 : encode_key (letter 67) true false ≡ some (3 ∷ [])
unfolding encode_key
ctrl_c_is_3 = refl

r_restarts : menu (text (codes "r") ∷ key (letter 82) true ctrl_shift ∷ []) ≡ restart
unfolding menu
r_restarts = refl

newline_paste_waits_example :
    All Unbroken (route_keyboard (λ s. true) frame start (5 ∷ [])).0
    × Held
        (route_events frame start).pastes
        (5 ∷ [])
        (route_keyboard (λ s. true) frame start (5 ∷ [])).1
newline_paste_waits_example = newline_paste_waits (λ s. true) frame start (5 ∷ [])
