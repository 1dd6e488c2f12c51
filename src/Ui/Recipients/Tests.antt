-- ===== src/Ui/Recipients/Tests.antt =====
-- A row, tile 0, of two panes that broadcasts.
use poly_term.Prelude.{
  ℕ, zero, suc, ◌≤◌, ◌<◌, ◌≡◌, refl, ◌⊎◌, Option, none, some, [], ◌∷◌, arith, length,
}
use poly_term.Ui.Recipients.{
  TileId, Tile, pane, container, collect_session_ids, resolve_recipients, best_group,
}
use poly_term.Ui.Recipients.Walk.{In, head, tail, Below, Heights}
use poly_term.Ui.Recipients.Isolation.{Reaches, resolve_recipients-isolation}

abbrev row : TileId → Option Tile
row zero = some (container (1 ∷ 2 ∷ []))
row (suc zero) = some (pane 30)
row (suc (suc zero)) = some (pane 40)
row (suc (suc (suc n))) = none

abbrev height : TileId → ℕ
height zero = 1
height (suc n) = 0

under_row : (c : TileId) → In c (1 ∷ 2 ∷ []) → height c < 1
under_row _ (head _ _) = omega arith
under_row _ (tail _ (head _ _)) = omega arith
under_row _ (tail _ (tail _ h)) = elim h [ ]

row-Heights : Heights row height
row-Heights zero children e c i = let same : 1 ∷ 2 ∷ [] ≡ children = cc in under_row c (rw same i)
row-Heights (suc zero) children e c i = cc
row-Heights (suc (suc zero)) children e c i = cc
row-Heights (suc (suc (suc n))) children e c i = cc

enough : (t : TileId) → height t < 2
enough zero = omega arith
enough (suc n) = omega arith

typed_into_1 : resolve_recipients row 2 (0 ∷ []) 1 ≡ 30 ∷ 40 ∷ []
unfolding resolve_recipients best_group
typed_into_1 = refl

no_broadcast : resolve_recipients row 2 [] 1 ≡ 30 ∷ []
unfolding resolve_recipients best_group
no_broadcast = refl

resolve_recipients-isolation_example :
    ((tile : TileId) × In tile (0 ∷ [])
      × Below row tile 1
      × Reaches row (resolve_recipients row 2 (0 ∷ []) 1) tile
      × ((other : TileId)
          → In other (0 ∷ [])
          → Below row other 1
          → length (resolve_recipients row 2 (0 ∷ []) 1)
            ≤ length (collect_session_ids row 2 other)))
    ⊎ (((tile : TileId) → In tile (0 ∷ []) → ¬ Below row tile 1)
        × Reaches row (resolve_recipients row 2 (0 ∷ []) 1) 1)
resolve_recipients-isolation_example =
    resolve_recipients-isolation row height row-Heights 2 enough (0 ∷ []) 1
