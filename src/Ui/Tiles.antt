-- ===== src/Ui/Tiles.antt =====
-- crates/polyterm-ui/src/app.rs: `attach_pane`, `add_tab_beside` and `split_tile`. The tree of `egui_tiles` is a parameter:
-- its state `T`, and the methods that the code calls.
pub mod Shown
pub mod Attached
use poly_term.Prelude.{ℕ, Bool, true, false, Option, none, some, List, [], ◌∷◌, if◌then◌else◌}
use poly_term.Core.Session.{SessionId}
use poly_term.Ui.Recipients.{TileId}

pub data SplitDir : Type 0 where
  right down : SplitDir

-- A removal gives the sessions of the panes that are gone. `insert_tabs` and `insert_linear` overwrite a tile.
pub record Tree (T : Type 0) : Type 0 where
  pub root : T → Option TileId
  pub set_root : Option TileId → T → T
  pub get_pane : T → TileId → Option SessionId
  pub panes : T → List (TileId × SessionId)
  pub active_tiles : T → List TileId
  pub is_tabs : T → TileId → Bool
  pub parent_of : T → TileId → Option TileId
  pub insert_pane : SessionId → T → TileId × T
  pub insert_tab_tile : List TileId → T → TileId × T
  pub add_child : TileId → TileId → T → T
  pub set_active : TileId → TileId → T → T
  pub insert_tabs : TileId → List TileId → TileId → T → T
  pub insert_linear : TileId → SplitDir → List TileId → T → T
  pub remove_recursively : TileId → T → List SessionId × T

module _ {T : Type 0} (tree : Tree T) where
  add_active : TileId → TileId → T → T
  add_active tabs leaf t = tree.set_active tabs leaf (tree.add_child tabs leaf t)

  -- The old root and the leaf become the tabs of a new root.
  new_root : TileId → TileId → T → T
  new_root root leaf t =
      let (tabs, t') = tree.insert_tab_tile (root ∷ leaf ∷ []) t in
      tree.set_root (some tabs) (tree.set_active tabs leaf t')

  attach_leaf : Option TileId → TileId → T → T
  unfolding add_active new_root
  attach_leaf none leaf t = tree.set_root (some leaf) t
  attach_leaf (some root) leaf t =
      if tree.is_tabs t root then add_active root leaf t else new_root root leaf t

  unfoldable pub attach_pane : SessionId → T → TileId × T
  unfolding attach_leaf
  attach_pane instance t =
      let (leaf, t') = tree.insert_pane instance t in (leaf, attach_leaf (tree.root t') leaf t')

  wrap : TileId → TileId → Option SessionId → T → T
  wrap focused new_leaf none t = t
  wrap focused new_leaf (some focused_instance) t =
      let (moved, t') = tree.insert_pane focused_instance t in
      tree.insert_tabs focused (moved ∷ new_leaf ∷ []) new_leaf t'

  beside : Option TileId → TileId → TileId → T → T
  unfolding add_active wrap
  beside none focused new_leaf t = wrap focused new_leaf (tree.get_pane t focused) t
  beside (some parent) focused new_leaf t =
      if tree.is_tabs t parent
      then add_active parent new_leaf t
      else wrap focused new_leaf (tree.get_pane t focused) t

  unfoldable pub add_tab_beside : TileId → SessionId → T → TileId × T
  unfolding beside
  add_tab_beside focused new t =
      let (new_leaf, t') = tree.insert_pane new t in
      (new_leaf, beside (tree.parent_of t' focused) focused new_leaf t')

  unfoldable pub split_tile : SessionId → SessionId → TileId → SplitDir → T → TileId × T
  split_tile existing new at_tile dir t =
      let (moved, t') = tree.insert_pane existing t in
      let (new_leaf, t'') = tree.insert_pane new t' in
      (new_leaf, tree.insert_linear at_tile dir (moved ∷ new_leaf ∷ []) t'')
