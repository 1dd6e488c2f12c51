-- ===== src/Ui/Selection.antt =====
-- crates/polyterm-ui/src/pane.rs: a selection of cells and the text under it, and how a paste is sent. Of
-- a snapshot a selection reads the width and the characters of each row.
pub mod Order
mod Tests
use poly_term.Prelude.{
  ℕ, zero, suc, ◌+◌, ◌-◌, Bool, true, false, ◌&&◌, ◌||◌, Option, none, some, List, [], ◌∷◌, ◌++◌,
  ltb, leb, eqb, is_empty, get_elem?, if◌then◌else◌,
}
use poly_term.Prelude.Text.{Text, trim_end}

-- `(row, col)`
abbrev pub Cell : Type 0
Cell = ℕ × ℕ

-- The order of tuples.
abbrev pub cell_le : Cell → Cell → Bool
cell_le (row, col) (row', col') = ltb row row' || (eqb row row' && leb col col')

pub record Selection : Type 0 where
  pub anchor : Cell
  pub head : Cell

pub ordered : Selection → Cell × Cell
ordered s = if cell_le s.anchor s.head then (s.anchor, s.head) else (s.head, s.anchor)

pub contains : Selection → Cell → Bool
contains s cell = let (start, end) = ordered s in cell_le start cell && cell_le cell end

pub record Snapshot : Type 0 where
  pub cols : ℕ
  pub lines : List Text

-- `(first..=last).filter_map(get)` for `count` columns from `first` on.
chars : Text → ℕ → ℕ → Text
chars cells first zero = []
chars cells first (suc count) =
    let rest = chars cells (suc first) count in
    elim (get_elem? cells first) [ none ↦ rest | some c ↦ c ∷ rest ]

-- The rows from `row` on, `count` of them, each right-trimmed.
rows : Snapshot → Cell → Cell → ℕ → ℕ → Option (List Text)
unfolding chars
rows snapshot start end row zero = some []
rows snapshot start end row (suc count) =
    let rest = rows snapshot start end (suc row) count in
    let first = if eqb row start.0 then start.1 else 0 in
    let last = if eqb row end.0 then end.1 else snapshot.cols - 1 in
    elim (get_elem? snapshot.lines row) [
      | none ↦ none
      | some line ↦ elim rest [
        | none ↦ none
        | some texts ↦ some (trim_end (chars line first (suc last - first)) ∷ texts)
      ]
    ]

-- `join("\n")`
join_lines : List Text → Text
join_lines [] = []
join_lines (line ∷ []) = line
join_lines (line ∷ next ∷ lines) = line ++ 10 ∷ join_lines (next ∷ lines)

text_between : Snapshot → Cell → Cell → Option Text
unfolding rows join_lines
text_between snapshot start end = elim (rows snapshot start end start.0 (suc end.0 - start.0)) [
  | none ↦ none
  | some lines ↦ let joined = join_lines lines in if is_empty joined then none else some joined
]

pub selection_text : Selection → Snapshot → Option Text
unfolding text_between
selection_text s snapshot = let (start, end) = ordered s in text_between snapshot start end

pub wrap_paste : List ℕ → Bool → List ℕ
wrap_paste text bracketed =
    if bracketed
    then 27 ∷ 91 ∷ 50 ∷ 48 ∷ 48 ∷ 126 ∷ (text ++ 27 ∷ 91 ∷ 50 ∷ 48 ∷ 49 ∷ 126 ∷ [])
    else text
