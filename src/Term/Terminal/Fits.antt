-- ===== src/Term/Terminal/Fits.antt =====
-- The size of a snapshot, and where it puts the cursor.
use poly_term.Prelude.{
  ℕ, zero, suc, ◌<◌, ◌≡◌, refl, ap, true, false, not, length, All, &&_iff, ltb, arith,
}
use poly_term.Prelude.Int.{ℤ, pos, negsuc, ◌+ℤ◌, as_i32}
use poly_term.Term.Snapshot.{CursorShape}
use poly_term.Term.Terminal.{
  Engine, Terminal, snapshot, collect, row_cells, place_cursor, in_rows, clamp_row, is_hidden,
  map_cursor_shape,
}

module _ {ℓ} {A : Type ℓ} where
  length-collect : (f : ℕ → A) (from n : ℕ) → length (collect f from n) ≡ n
  unfolding collect
  length-collect f from zero = refl
  length-collect f from (suc n) = ap suc (length-collect f (suc from) n)

  All-collect {κ} :
      (P : A → Type κ) (f : ℕ → A) (from n : ℕ) → ((i : ℕ) → P (f i)) → All P (collect f from n)
  unfolding collect
  All-collect P f from zero h = tt
  All-collect P f from (suc n) h = (h from, All-collect P f (suc from) n h)

-- A visible cursor stands at its own row.
place_cursor-visible :
    (rows : ℕ) (row : ℤ) (column : ℕ) (shape : CursorShape)
    → (place_cursor rows row column shape).visible ≡ true
    → (pos (place_cursor rows row column shape).line ≡ row)
      × ((place_cursor rows row column shape).line < rows)
unfolding place_cursor in_rows clamp_row
place_cursor-visible rows (pos row) column shape h =
    let r = ((&&_iff (not (is_hidden shape)) (ltb row rows)).0 h).1 in
    (ap pos (ground (arith, r)), ground (arith, r))
place_cursor-visible rows (negsuc n) column shape h =
    let r = ((&&_iff (not (is_hidden shape)) false).0 h).1 in ground (arith, r)

module _ (E : Engine) (t : Terminal E) where
  -- The snapshot has as many lines as the terminal has rows, and each line as many cells as it has columns.
  snapshot_fits :
      (length (snapshot E t).0.lines ≡ t.size.rows)
      × All (λ l. length l.cells ≡ t.size.cols) (snapshot E t).0.lines
  unfolding snapshot row_cells
  snapshot_fits = (length-collect _ 0 _, All-collect _ _ 0 _ (λ row. length-collect _ 0 _))

  -- A cursor that is drawn lies in the view, the display offset below its line of the engine's.
  pub cursor_shown :
      (snapshot E t).0.cursor.visible ≡ true
      → (pos (snapshot E t).0.cursor.line
          ≡ E.cursor_line (E.reset_damage (E.damage t.term).1)
            +ℤ as_i32 (E.display_offset (E.reset_damage (E.damage t.term).1)))
        × ((snapshot E t).0.cursor.line < t.size.rows)
  unfolding snapshot
  cursor_shown h =
      place_cursor-visible t.size.rows
        (E.cursor_line (E.reset_damage (E.damage t.term).1)
          +ℤ as_i32 (E.display_offset (E.reset_damage (E.damage t.term).1)))
        (E.cursor_column (E.reset_damage (E.damage t.term).1))
        (map_cursor_shape (E.cursor_shape (E.reset_damage (E.damage t.term).1))) h
