-- ===== src/Ui/Mouse.antt =====
-- crates/polyterm-ui/src/pane.rs: mouse events as bytes, with the request for them from
-- crates/polyterm-term/src/terminal.rs. A `u8` is a number whose wrap-around is written out.
pub mod Decode
mod Tests
use poly_term.Prelude.{
  ℕ, zero, suc, ◌+◌, ◌-◌, ◌*◌, ◌/◌, ◌%◌, max, Bool, true, false, ◌&&◌, ◌||◌, Option, none, some,
  List, [], ◌∷◌, ◌++◌, eqb, ltb, leb, if◌then◌else◌,
}
use poly_term.Prelude.Text.{Text, codes}
use poly_term.Prelude.Decimal.{to_string}

pub data MouseProtocol : Type 0 where
  off click button_drag any_motion : MouseProtocol

pub data MouseEncoding : Type 0 where
  normal sgr : MouseEncoding

pub record MouseReport : Type 0 where
  pub protocol : MouseProtocol
  pub encoding : MouseEncoding

-- The bits of `TermMode` that `mouse_report` reads.
pub record TermMode : Type 0 where
  pub mouse_motion : Bool
  pub mouse_drag : Bool
  pub mouse_report_click : Bool
  pub sgr_mouse : Bool

pub mouse_report : TermMode → MouseReport
mouse_report mode = record {
  protocol =
      if mode.mouse_motion
      then any_motion
      else if mode.mouse_drag
      then button_drag
      else if mode.mouse_report_click
      then click
      else off;
  encoding = if mode.sgr_mouse then sgr else normal;
}

pub data PointerButton : Type 0 where
  primary secondary middle extra1 extra2 : PointerButton

button_base : PointerButton → Option ℕ
button_base primary = some 0
button_base middle = some 1
button_base secondary = some 2
button_base extra1 = none
button_base extra2 = none

-- `buttons_down & 2 ^ i != 0`
bit_set : ℕ → ℕ → Bool
bit_set power n = eqb (n / power % 2) 1

held_button : ℕ → ℕ
unfolding bit_set
held_button buttons_down =
    if bit_set 1 buttons_down
    then 0
    else if bit_set 2 buttons_down
    then 1
    else if bit_set 4 buttons_down
    then 2
    else 3

pub record Modifiers : Type 0 where
  pub alt : Bool
  pub ctrl : Bool
  pub shift : Bool
  pub command : Bool

-- `|` on the lowest bits of two numbers.
pub bit_or : ℕ → ℕ → ℕ → ℕ
bit_or zero a b = 0
bit_or (suc bits) a b = 2 * bit_or bits (a / 2) (b / 2) + max (a % 2) (b % 2)

mouse_mods : Modifiers → ℕ
unfolding bit_or
mouse_mods m =
    let with_shift = if m.shift then 4 else 0 in
    let with_alt = if m.alt then bit_or 8 with_shift 8 else with_shift in
    if m.ctrl || m.command then bit_or 8 with_alt 16 else with_alt

abbrev pub Cell : Type 0
Cell = ℕ × ℕ

-- The button byte before the offset of 32.
pub button_code : ℕ → Bool → ℕ → ℕ
unfolding bit_or
button_code base motion mods = let cb = bit_or 8 base mods in if motion then bit_or 8 cb 32 else cb

encode_sgr : ℕ → Bool → ℕ → ℕ → List ℕ
encode_sgr cb release x y =
    27
    ∷ 91
    ∷ 60
    ∷ (to_string cb
        ++ 59 ∷ (to_string x ++ 59 ∷ (to_string y ++ (if release then 109 else 77) ∷ [])))

pub encode_mouse : MouseReport → ℕ → Bool → Bool → ℕ → Cell → Option (List ℕ)
unfolding button_code encode_sgr
encode_mouse report base motion release mods (row, col) =
    let x = col + 1 in
    let y = row + 1 in
    elim report.encoding [
      | sgr ↦ some (encode_sgr (button_code base motion mods) release x y)
      | normal ↦
          if ltb 223 x || ltb 223 y
          then none
          else some (
              27
              ∷ 91
              ∷ 77
              ∷ ((32 + button_code (if release then 3 else base) motion mods) % 256)
              ∷ ((32 + x % 256) % 256)
              ∷ ((32 + y % 256) % 256)
              ∷ [])
    ]
