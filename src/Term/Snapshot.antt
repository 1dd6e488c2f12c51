-- ===== src/Term/Snapshot.antt =====
-- crates/polyterm-term/src/snapshot.rs: what the window draws in a frame.
use poly_term.Prelude.{ℕ, Bool, false, Option, none, some, List, [], map, get_elem?}
use poly_term.Prelude.Text.{Text, trim_end, join_with}
use poly_term.Ui.Palette.{Color, foreground, background}

pub record GridSize : Type 0 where
  pub cols : ℕ
  pub rows : ℕ

pub record Attrs : Type 0 where
  pub bold : Bool
  pub italic : Bool
  pub underline : Bool
  pub inverse : Bool
  pub dim : Bool
  pub hidden : Bool

pub record Cell : Type 0 where
  pub c : ℕ
  pub fg : Color
  pub bg : Color
  pub attrs : Attrs
  pub wide : Bool

-- `Default` of a cell
default_cell : Cell
default_cell = record {
  c = 32;
  fg = foreground;
  bg = background;
  attrs = record {
    bold = false;
    italic = false;
    underline = false;
    inverse = false;
    dim = false;
    hidden = false;
  };
  wide = false;
}

pub record Line : Type 0 where
  pub cells : List Cell

pub line_chars : Line → Text
line_chars l = map (λ x. x.c) l.cells

pub data CursorShape : Type 0 where
  block underline_cursor beam hidden_cursor : CursorShape

pub record Cursor : Type 0 where
  pub line : ℕ
  pub col : ℕ
  pub visible : Bool
  pub shape : CursorShape

pub record LineDamage : Type 0 where
  pub line : ℕ
  pub left : ℕ
  pub right : ℕ

pub data Damage : Type 0 where
  full : Damage
  lines : List LineDamage → Damage

pub record Snapshot : Type 0 where
  pub size : GridSize
  pub lines : List Line
  pub cursor : Cursor
  pub damage : Damage
  pub display_offset : ℕ

trimmed : Option Line → Text
unfolding line_chars
trimmed none = []
trimmed (some l) = trim_end (line_chars l)

pub line_text : Snapshot → ℕ → Text
unfolding trimmed
line_text s row = trimmed (get_elem? s.lines row)

-- `Snapshot::text`
pub text : Snapshot → Text
unfolding line_chars
text s = join_with 10 (map (λ l. trim_end (line_chars l)) s.lines)
