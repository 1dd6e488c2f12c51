-- ===== src/Ui/Palette/Tests.antt =====
-- A theme of sixteen equal colours, and indices of the cube and of the grey ramp.
use poly_term.Prelude.{◌≡◌, refl, false, some, replicate}
use poly_term.Ui.Palette.{Color32, Theme, indexed}

abbrev grey : Color32
grey = record { r = 128; g = 128; b = 128 }

abbrev plain : Theme
plain = record {
  foreground = grey;
  background = grey;
  cursor = grey;
  selection = grey;
  broadcast = grey;
  ansi = replicate 16 grey;
}

orange : indexed plain 208 false ≡ some (record { r = 255; g = 135; b = 0 })
unfolding indexed
orange = refl
