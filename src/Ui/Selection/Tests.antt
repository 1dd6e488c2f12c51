-- ===== src/Ui/Selection/Tests.antt =====
-- A backward drag over two rows.
use poly_term.Prelude.{◌≤◌, min, max, ◌≡◌, ◌↔◌, true, [], ◌∷◌, arith}
use poly_term.Prelude.Text.{codes}
use poly_term.Ui.Selection.{Snapshot, contains}
use poly_term.Ui.Selection.Order.{place, contains_iff}

abbrev screen : Snapshot
screen = record { cols = 4; lines = codes "ab  " ∷ codes "cdef" ∷ [] }

contains_iff_example :
    (contains (record { anchor = (1, 1); head = (0, 1) }) (0, 3) ≡ true)
    ↔ (min (place 4 (1, 1)) (place 4 (0, 1)) ≤ place 4 (0, 3))
      × (place 4 (0, 3) ≤ max (place 4 (1, 1)) (place 4 (0, 1)))
contains_iff_example = contains_iff 4 (1, 1) (0, 1) (0, 3) (omega arith) (omega arith) (omega arith)
