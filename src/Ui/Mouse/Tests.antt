-- ===== src/Ui/Mouse/Tests.antt =====
-- A middle drag with Ctrl at column 4 of row 2, and a cell that the legacy encoding cannot name.
use poly_term.Prelude.{◌+◌, ◌≡◌, refl, true, false, none, some, [], ◌∷◌, if◌then◌else◌}
use poly_term.Ui.Mouse.{click, normal, sgr, button_code, encode_sgr, encode_mouse}
use poly_term.Prelude.Decimal.{to_string, show_digits}
use poly_term.Ui.Mouse.Decode.{read_back, read_back-encode_mouse}

drag_bytes :
    encode_mouse (record { protocol = click; encoding = sgr }) 1 true false 16 (2, 4)
    ≡ some (27 ∷ 91 ∷ 60 ∷ 52 ∷ 57 ∷ 59 ∷ 53 ∷ 59 ∷ 51 ∷ 77 ∷ [])
unfolding encode_mouse encode_sgr to_string show_digits
drag_bytes = refl

too_far :
    encode_mouse (record { protocol = click; encoding = normal }) 1 true false 16 (2, 223) ≡ none
unfolding encode_mouse
too_far = refl

read_back-encode_mouse_example :
    read_back (encode_mouse (record { protocol = click; encoding = sgr }) 1 true false 16 (2, 300))
    ≡ some
        (27 ∷ 91 ∷ 60 ∷ [], button_code 1 true 16, 300 + 1, 2 + 1, (if false then 109 else 77) ∷ [])
read_back-encode_mouse_example = read_back-encode_mouse click 1 true false 16 2 300
