-- ===== src/Term/Terminal/Tests.antt =====
-- An engine that keeps its scroll offset alone, with a line of "a"s in its scrollback and "b"s below.
use poly_term.Prelude.{ℕ, ◌≡◌, refl, false, [], ◌∷◌, map, ◌<◌}
use poly_term.Prelude.Int.{ℤ, pos, negsuc, ◌⊖◌, ◌+ℤ◌, neg, as_i32}
use poly_term.Term.Snapshot.{Attrs, Cell}
use poly_term.Term.Terminal.{
  EngineCell, named, named_foreground, named_background, Engine, Terminal, Scroll, delta, bottom,
  everything, bell_rung, other_event, bell, block_shape, new, feed, scroll_up, drain_events,
  send_events, send_event, after, snapshot, map_cell, collect, row_cells, place_cursor, is_hidden,
  in_rows, map_cursor_shape,
}
use poly_term.Term.Terminal.Fits.{cursor_shown}

abbrev plain : Attrs
plain = record {
  bold = false;
  italic = false;
  underline = false;
  inverse = false;
  dim = false;
  hidden = false;
}

abbrev letter : ℕ → EngineCell
letter c = record {
  c = c;
  fg = named named_foreground;
  bg = named named_background;
  flags = plain;
  wide_char = false;
}

abbrev scrolled : ℕ → Scroll → ℕ
scrolled n (delta (pos k)) = k
scrolled n (delta (negsuc k)) = 0
scrolled n bottom = 0

abbrev two_letters : ℤ → EngineCell
two_letters (pos n) = letter 98
two_letters (negsuc n) = letter 97

abbrev small : Engine
small = record {
  State = ℕ;
  create = λ scrollback cols rows. 0;
  advance = λ s bytes. (s, bell_rung ∷ other_event ∷ []);
  resize = λ s cols rows. (s, []);
  scroll_display = λ s by. (scrolled s by, []);
  reset_damage = λ s. s;
  mode = λ s. record {
    mouse_motion = false;
    mouse_drag = false;
    mouse_report_click = false;
    sgr_mouse = false;
  };
  alt_screen_mode = λ s. false;
  bracketed_paste_mode = λ s. false;
  damage = λ s. (everything, s);
  display_offset = λ s. s;
  cursor_line = λ s. pos 0;
  cursor_column = λ s. 1;
  cursor_shape = λ s. block_shape;
  cell = λ s line col. two_letters line;
}

abbrev window : Terminal small
window = record { term = 1; events = []; size = record { cols = 2; rows = 2 } }

abbrev shown_a : Cell
shown_a = map_cell (letter 97)

-- The bell is passed on, the other event is not.
rings : (drain_events small (feed small window [])).0 ≡ bell ∷ []
unfolding drain_events feed after send_events send_event
rings = refl

scrolls : (scroll_up small (new small (record { cols = 2; rows = 2 }) 100) 1) ≡ window
unfolding scroll_up new after send_events as_i32
scrolls = refl

viewport :
    map (λ l. map (λ x. x.c) l.cells) (snapshot small window).0.lines
    ≡ (97 ∷ 97 ∷ []) ∷ (98 ∷ 98 ∷ []) ∷ []
unfolding snapshot row_cells collect map_cell as_i32 ◌+ℤ◌ ◌⊖◌ neg
viewport = refl

cursor_shown_example :
    (pos (snapshot small window).0.cursor.line ≡ pos 1)
    × ((snapshot small window).0.cursor.line < 2)
unfolding snapshot place_cursor is_hidden in_rows map_cursor_shape as_i32 ◌+ℤ◌
cursor_shown_example = cursor_shown small window refl
