-- ===== src/Ui/Recipients.antt =====
-- crates/polyterm-ui/src/app.rs: who gets what is typed into a pane. `egui_tiles` is a parameter: what a tile
-- is, given its id. The walks recurse down the tree on fuel; the iteration order of the set of broadcast
-- tiles is that of a list.
pub mod Walk
pub mod Isolation
mod Tests
use poly_term.Prelude.{
  ℕ, zero, suc, Bool, true, false, ◌||◌, Option, none, some, List, [], ◌∷◌, ◌++◌, eqb, ltb, length,
  any, if◌then◌else◌,
}
use poly_term.Core.Session.{SessionId}

abbrev pub TileId : Type 0
TileId = ℕ

pub data Tile : Type 0 where
  pane : SessionId → Tile
  container : List TileId → Tile

module _ (tiles : TileId → Option Tile) where
  abbrev pub collect_all : (TileId → List SessionId) → List TileId → List SessionId
  collect_all collect [] = []
  collect_all collect (child ∷ children) = collect child ++ collect_all collect children

  abbrev pub collect_tile : (TileId → List SessionId) → Option Tile → List SessionId
  collect_tile collect none = []
  collect_tile collect (some (pane session)) = session ∷ []
  collect_tile collect (some (container children)) = collect_all collect children

  -- What the walk appends to `out`.
  pub collect_session_ids : ℕ → TileId → List SessionId
  collect_session_ids zero tile = []
  collect_session_ids (suc fuel) tile =
      collect_tile (λ child. collect_session_ids fuel child) (tiles tile)

  abbrev pub contains_below : (TileId → Bool) → Option Tile → Bool
  contains_below contains none = false
  contains_below contains (some (pane session)) = false
  contains_below contains (some (container children)) = any contains children

  pub subtree_contains : ℕ → TileId → TileId → Bool
  subtree_contains zero root target = eqb root target
  subtree_contains (suc fuel) root target =
      eqb root target || contains_below (λ child. subtree_contains fuel child target) (tiles root)

  -- `best.is_none_or(|b| out.len() < b.len())`
  abbrev pub better : List SessionId → Option (List SessionId) → Option (List SessionId)
  better out none = some out
  better out (some b) = if ltb (length out) (length b) then some out else some b

  pub best_group : ℕ → TileId → List TileId → Option (List SessionId) → Option (List SessionId)
  unfolding collect_session_ids subtree_contains
  best_group fuel focused [] best = best
  best_group fuel focused (tile ∷ multi_exec) best = best_group fuel focused multi_exec (
      if subtree_contains fuel tile focused
      then better (collect_session_ids fuel tile) best
      else best)

  -- `best.unwrap_or_else(..)`
  abbrev pub unwrap_or : List SessionId → Option (List SessionId) → List SessionId
  unwrap_or default none = default
  unwrap_or default (some group) = group

  pub resolve_recipients : ℕ → List TileId → TileId → List SessionId
  resolve_recipients fuel multi_exec focused =
      unwrap_or (collect_session_ids fuel focused) (best_group fuel focused multi_exec none)
