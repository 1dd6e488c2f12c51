-- ===== src/Ui/Palette.antt =====
-- crates/polyterm-ui/src/palette.rs: logical colours as pixels. A `u8` is a number whose wrap-around
-- is written out; an index past the end of the sixteen ANSI colours is `none`, where the code panics.
pub mod Inverse
mod Tests
use poly_term.Prelude.{
  ℕ, ◌+◌, ◌-◌, ◌*◌, ◌/◌, ◌%◌, Bool, true, false, Option, none, some, List, leb, eqb, get_elem?,
  if◌then◌else◌,
}

-- `Color32::from_rgb`
pub record Color32 : Type 0 where
  pub r : ℕ
  pub g : ℕ
  pub b : ℕ

pub record Theme : Type 0 where
  pub foreground : Color32
  pub background : Color32
  pub cursor : Color32
  pub selection : Color32
  pub broadcast : Color32
  pub ansi : List Color32

-- `Color` of crates/polyterm-term/src/snapshot.rs
pub data Color : Type 0 where
  foreground background cursor : Color
  indexed_color : ℕ → Color
  rgb : ℕ → ℕ → ℕ → Color

pub cube : ℕ → ℕ
cube n = if eqb n 0 then 0 else (55 + n * 40 % 256) % 256

pub indexed : Theme → ℕ → Bool → Option Color32
unfolding cube
indexed theme i bold =
    if leb i 7
    then get_elem? theme.ansi (if bold then (i + 8) % 256 else i)
    else if leb i 15
    then get_elem? theme.ansi i
    else if leb i 231
    then some
        (record { r = cube ((i - 16) / 36); g = cube ((i - 16) % 36 / 6); b = cube ((i - 16) % 6) })
    else let v = (8 + (i - 232) * 10 % 256) % 256 in some (record { r = v; g = v; b = v })

resolve : Theme → Color → Bool → Option Color32
resolve theme foreground bold = some theme.foreground
resolve theme background bold = some theme.background
resolve theme cursor bold = some theme.cursor
resolve theme (rgb r g b) bold = some (record { r = r; g = g; b = b })
resolve theme (indexed_color i) bold = indexed theme i bold
