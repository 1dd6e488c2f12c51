-- ===== src/Term/Terminal.antt =====
-- crates/polyterm-term/src/terminal.rs: the wrapper of the emulation library. The engine is a parameter:
-- its state, the calls that change it, with the events they send, and what can be read of it. Its row numbers stay in an `i32`.
pub mod Fits
mod Tests
use poly_term.Prelude.{
  ℕ, zero, suc, ◌+◌, ◌-◌, ◌%◌, min, Bool, true, false, ◌&&◌, ◌||◌, not, Option, none, some, List,
  [], ◌∷◌, ◌++◌, map, ltb, if◌then◌else◌,
}
use poly_term.Prelude.Text.{Text}
use poly_term.Prelude.Int.{ℤ, pos, negsuc, ◌+ℤ◌, neg, as_i32}
use poly_term.Ui.Mouse.{TermMode, MouseReport, mouse_report}
use poly_term.Ui.Palette.{Color, foreground, background, cursor, indexed_color, rgb}
use poly_term.Term.Snapshot.{
  GridSize, Attrs, Cell, Line, CursorShape, block, underline_cursor, beam, hidden_cursor, Cursor,
  LineDamage, Damage, full, lines, Snapshot,
}

-- The library's types, with the variants that the source matches on; `other` is every other one.
pub data NamedColor : Type 0 where
  black red green yellow blue magenta cyan white : NamedColor
  bright_black bright_red bright_green bright_yellow : NamedColor
  bright_blue bright_magenta bright_cyan bright_white : NamedColor
  dim_black dim_red dim_green dim_yellow dim_blue dim_magenta dim_cyan dim_white : NamedColor
  named_background named_cursor named_foreground bright_foreground dim_foreground : NamedColor

pub data EngineColor : Type 0 where
  spec : ℕ → ℕ → ℕ → EngineColor
  by_index : ℕ → EngineColor
  named : NamedColor → EngineColor

pub data EngineShape : Type 0 where
  block_shape underline_shape beam_shape hidden_shape other_shape : EngineShape

pub data EngineDamage : Type 0 where
  everything : EngineDamage
  partial_damage : List LineDamage → EngineDamage

pub data EngineEvent : Type 0 where
  answer : List ℕ → EngineEvent
  title_set : Text → EngineEvent
  title_reset bell_rung : EngineEvent
  clipboard_set : Text → EngineEvent
  other_event : EngineEvent

pub record EngineCell : Type 0 where
  pub c : ℕ
  pub fg : EngineColor
  pub bg : EngineColor
  pub flags : Attrs
  pub wide_char : Bool

pub data Scroll : Type 0 where
  delta : ℤ → Scroll
  bottom : Scroll

pub record Engine : Type 1 where
  pub State : Type 0
  -- Scrollback, columns and lines.
  pub create : ℕ → ℕ → ℕ → State
  pub advance : State → List ℕ → State × List EngineEvent
  pub resize : State → ℕ → ℕ → State × List EngineEvent
  pub scroll_display : State → Scroll → State × List EngineEvent
  pub reset_damage : State → State
  pub mode : State → TermMode
  pub alt_screen_mode : State → Bool
  pub bracketed_paste_mode : State → Bool
  pub damage : State → EngineDamage × State
  pub display_offset : State → ℕ
  pub cursor_line : State → ℤ
  pub cursor_column : State → ℕ
  pub cursor_shape : State → EngineShape
  -- The grid; a negative line is scrollback.
  pub cell : State → ℤ → ℕ → EngineCell

pub data TermEvent : Type 0 where
  pty_write : List ℕ → TermEvent
  title : Text → TermEvent
  reset_title bell : TermEvent
  clipboard_store : Text → TermEvent

-- `EventProxy::send_event`
pub send_event : EngineEvent → List TermEvent
send_event (answer bytes) = pty_write bytes ∷ []
send_event (title_set t) = title t ∷ []
send_event title_reset = reset_title ∷ []
send_event bell_rung = bell ∷ []
send_event (clipboard_set t) = clipboard_store t ∷ []
send_event other_event = []

pub send_events : List EngineEvent → List TermEvent
unfolding send_event
send_events [] = []
send_events (e ∷ es) = send_event e ++ send_events es

map_named : NamedColor → Color
map_named black = indexed_color 0
map_named red = indexed_color 1
map_named green = indexed_color 2
map_named yellow = indexed_color 3
map_named blue = indexed_color 4
map_named magenta = indexed_color 5
map_named cyan = indexed_color 6
map_named white = indexed_color 7
map_named bright_black = indexed_color 8
map_named bright_red = indexed_color 9
map_named bright_green = indexed_color 10
map_named bright_yellow = indexed_color 11
map_named bright_blue = indexed_color 12
map_named bright_magenta = indexed_color 13
map_named bright_cyan = indexed_color 14
map_named bright_white = indexed_color 15
map_named dim_black = indexed_color 0
map_named dim_red = indexed_color 1
map_named dim_green = indexed_color 2
map_named dim_yellow = indexed_color 3
map_named dim_blue = indexed_color 4
map_named dim_magenta = indexed_color 5
map_named dim_cyan = indexed_color 6
map_named dim_white = indexed_color 7
map_named named_background = background
map_named named_cursor = cursor
map_named named_foreground = foreground
map_named bright_foreground = foreground
map_named dim_foreground = foreground

map_color : EngineColor → Color
unfolding map_named
map_color (spec r g b) = rgb r g b
map_color (by_index i) = indexed_color i
map_color (named n) = map_named n

map_cursor_shape : EngineShape → CursorShape
map_cursor_shape block_shape = block
map_cursor_shape underline_shape = underline_cursor
map_cursor_shape beam_shape = beam
map_cursor_shape hidden_shape = hidden_cursor
map_cursor_shape other_shape = block

pub map_cell : EngineCell → Cell
unfolding map_color
map_cell x = record {
  c = x.c;
  fg = map_color x.fg;
  bg = map_color x.bg;
  attrs = x.flags;
  wide = x.wide_char;
}

-- The fields of a damaged line `as u16`.
damaged : LineDamage → LineDamage
damaged d = record { line = d.line % 65536; left = d.left % 65536; right = d.right % 65536 }

map_damage : EngineDamage → Damage
unfolding damaged
map_damage everything = full
map_damage (partial_damage ds) = lines (map damaged ds)

is_hidden : CursorShape → Bool
is_hidden hidden_cursor = true
is_hidden block = false
is_hidden underline_cursor = false
is_hidden beam = false

-- `(0..rows as i32).contains(&row)`
pub in_rows : ℕ → ℤ → Bool
in_rows rows (pos row) = ltb row rows
in_rows rows (negsuc n) = false

-- `row.clamp(0, rows.saturating_sub(1) as i32)`
pub clamp_row : ℕ → ℤ → ℕ
clamp_row rows (pos row) = min row (rows - 1)
clamp_row rows (negsuc n) = 0

pub place_cursor : ℕ → ℤ → ℕ → CursorShape → Cursor
unfolding is_hidden in_rows clamp_row
place_cursor rows row column shape = record {
  line = clamp_row rows row;
  col = column % 65536;
  visible = not (is_hidden shape) && in_rows rows row;
  shape = shape;
}

-- `for i in from..from + n`, pushing.
pub collect {ℓ} : {A : Type ℓ} → (ℕ → A) → ℕ → ℕ → List A
collect f from zero = []
collect f from (suc n) = f from ∷ collect f (suc from) n

module _ (E : Engine) where
  pub record Terminal : Type 0 where
    pub term : E.State
    pub events : List TermEvent
    pub size : GridSize

  -- A call of the engine, whose events go down the channel.
  after : Terminal → E.State × List EngineEvent → Terminal
  unfolding send_events
  after t (state, es) = record t { term = state; events = t.events ++ send_events es }

  new : GridSize → ℕ → Terminal
  new size scrollback = record {
    term = E.create scrollback size.cols size.rows;
    events = [];
    size = size;
  }

  feed : Terminal → List ℕ → Terminal
  unfolding after
  feed t bytes = after t (E.advance t.term bytes)

  resize : Terminal → GridSize → Terminal
  unfolding after
  resize t size = record (after t (E.resize t.term size.cols size.rows)) { size = size }

  report_mouse : Terminal → MouseReport
  report_mouse t = mouse_report (E.mode t.term)

  alt_screen : Terminal → Bool
  alt_screen t = E.alt_screen_mode t.term

  bracketed_paste : Terminal → Bool
  bracketed_paste t = E.bracketed_paste_mode t.term

  scroll_up : Terminal → ℕ → Terminal
  unfolding after as_i32
  scroll_up t n = after t (E.scroll_display t.term (delta (as_i32 n)))

  scroll_down : Terminal → ℕ → Terminal
  unfolding after as_i32 neg
  scroll_down t n = after t (E.scroll_display t.term (delta (neg (as_i32 n))))

  scroll_to_bottom : Terminal → Terminal
  unfolding after
  scroll_to_bottom t = after t (E.scroll_display t.term bottom)

  -- ESC [ H ESC [ 2 J
  clear_screen : Terminal → Terminal
  unfolding feed
  clear_screen t = feed t (27 ∷ 91 ∷ 72 ∷ 27 ∷ 91 ∷ 50 ∷ 74 ∷ [])

  drain_events : Terminal → List TermEvent × Terminal
  drain_events t = (t.events, record t { events = [] })

  -- Viewport row `row` is the grid's line `row - display_offset`.
  row_cells : E.State → ℤ → ℕ → ℕ → Line
  unfolding map_cell collect ◌+ℤ◌ neg
  row_cells state offset cols row = record {
    cells = collect (λ col. map_cell (E.cell state (pos row +ℤ neg offset) col)) 0 cols;
  }

  pub snapshot : Terminal → Snapshot × Terminal
  unfolding map_damage map_cursor_shape place_cursor collect row_cells as_i32 ◌+ℤ◌
  snapshot t =
      let (found, state0) = E.damage t.term in
      let state = E.reset_damage state0 in
      let offset = as_i32 (E.display_offset state) in
      (
        record {
          size = t.size;
          lines = collect (row_cells state offset t.size.cols) 0 t.size.rows;
          cursor =
              place_cursor t.size.rows (E.cursor_line state +ℤ offset) (E.cursor_column state)
                (map_cursor_shape (E.cursor_shape state));
          damage = map_damage found;
          display_offset = E.display_offset state;
        },
        record t { term = state },
      )
