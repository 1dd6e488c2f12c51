-- ===== src/Ui/Selection/Order.antt =====
-- crates/polyterm-ui/src/pane.rs: the selected cells are a stretch of the screen in reading order, whichever
-- way it was dragged.
use poly_term.Prelude.{
  ℕ, ◌+◌, ◌*◌, ◌≤◌, ◌<◌, min, max, ◌≡◌, refl, sym, ◌∙◌, ap, ◌↔◌, ◌⊎◌, inl, inr, true, false, ◌&&◌,
  arith, Bool-cases, &&_iff,
}
use poly_term.Ui.Selection.{
  Cell, cell_le, ordered, contains, Snapshot, text_between, selection_text,
}

cell_le-antisym : (a b : Cell) → cell_le a b ≡ true → cell_le b a ≡ true → a ≡ b
cell_le-antisym (r, c) (r', c') e e' =
    let same_row : r ≡ r' = ground arith in
    let same_col : c ≡ c' = ground arith in rw (same_row, same_col) refl

cell_le-total : (a b : Cell) → cell_le a b ≡ false → cell_le b a ≡ true
cell_le-total (r, c) (r', c') e = ground arith

ordered-swap :
    (a h : Cell)
    → ordered (record { anchor = a; head = h }) ≡ ordered (record { anchor = h; head = a })
unfolding ordered
ordered-swap a h = elim (Bool-cases (cell_le a h)) [
  | inl e ↦ elim (Bool-cases (cell_le h a)) [
    | inl e' ↦
        let same = cell_le-antisym a h e e' in
        ap (λ c. ordered (record { anchor = c; head = h })) same
        ∙ ap (λ c. ordered (record { anchor = h; head = c })) (sym same)
    | inr e' ↦ rw (e, e') refl
  ]
  | inr e ↦ rw (e, cell_le-total a h e) refl
]

-- A selection dragged backwards selects the same cells and copies the same text.
pub selection-swap :
    (a h cell : Cell) (snapshot : Snapshot)
    → (contains (record { anchor = a; head = h }) cell
        ≡ contains (record { anchor = h; head = a }) cell)
      × (selection_text (record { anchor = a; head = h }) snapshot
          ≡ selection_text (record { anchor = h; head = a }) snapshot)
unfolding contains selection_text
selection-swap a h cell snapshot = (
  ap (λ o. cell_le o.0 cell && cell_le cell o.1) (ordered-swap a h),
  ap (λ o. text_between snapshot o.0 o.1) (ordered-swap a h),
)

-- The place of a cell in reading order on a screen of that many columns.
abbrev pub place : ℕ → Cell → ℕ
place cols (row, col) = row * cols + col

row-below : (cols row row' col : ℕ) → row < row' → col < cols → row * cols + col < row' * cols
row-below cols row row' col h hc = grind arith

below-or-above : (a b : ℕ) → (a < b) ⊎ (a ≡ b) ⊎ (b < a)
below-or-above a b = ground arith

cell_le-place :
    (cols : ℕ) (a b : Cell)
    → a.1 < cols
    → b.1 < cols
    → (cell_le a b ≡ true) ↔ (place cols a ≤ place cols b)
cell_le-place cols (r, c) (r', c') ha hb = elim (below-or-above r r') [
  | inl below ↦ (λ e. omega (arith, row-below cols r r' c below ha), λ h. ground arith)
  | inr (inl same) ↦ rw same (λ e. ground arith, λ h. ground arith)
  | inr (inr above) ↦
      (λ e. absurd (ground arith), λ h. absurd (omega (arith, row-below cols r' r c' above hb)))
]

between :
    (cols : ℕ) (start end cell : Cell)
    → start.1 < cols
    → end.1 < cols
    → cell.1 < cols
    → place cols start ≤ place cols end
    → ((cell_le start cell && cell_le cell end) ≡ true)
      ↔ (min (place cols start) (place cols end) ≤ place cols cell)
        × (place cols cell ≤ max (place cols start) (place cols end))
between cols start end cell hs he hc up =
    let from_start = cell_le-place cols start cell hs hc in
    let to_end = cell_le-place cols cell end hc he in
    (
      λ t.
          let (a, b) = (&&_iff (cell_le start cell) (cell_le cell end)).0 t in
          (omega (arith, up, from_start.0 a), omega (arith, up, to_end.0 b)),
      λ b.
          (&&_iff _ _).1 (from_start.1 (omega (arith, up, b.0)), to_end.1 (omega (arith, up, b.1))),
    )

-- A cell of the screen is selected exactly when its place in reading order is between those of the two ends.
pub contains_iff :
    (cols : ℕ) (a h cell : Cell)
    → a.1 < cols
    → h.1 < cols
    → cell.1 < cols
    → (contains (record { anchor = a; head = h }) cell ≡ true)
      ↔ (min (place cols a) (place cols h) ≤ place cols cell)
        × (place cols cell ≤ max (place cols a) (place cols h))
unfolding contains ordered
contains_iff cols a h cell ha hh hc = elim (Bool-cases (cell_le a h)) [
  | inl e ↦ rw e (between cols a h cell ha hh hc ((cell_le-place cols a h ha hh).0 e))
  | inr e ↦
      let up = (cell_le-place cols h a hh ha).0 (cell_le-total a h e) in
      let (there, back) = between cols h a cell hh ha hc up in
      rw e (
        λ t. let (lo, hi) = there t in (omega arith, omega arith),
        λ b. back (omega (arith, b.0), omega (arith, b.1)),
      )
]
