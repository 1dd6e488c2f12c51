-- ===== src/Ui/Sessions/Tree.antt =====
-- crates/polyterm-ui/src/sessions.rs: the folder tree of the panel (`FolderNode`, `build_folder_tree`). A `BTreeMap`
-- is a list in the order of its keys.
pub mod Complete
mod Tests
use poly_term.Prelude.{Bool, true, false, List, [], ◌∷◌, ◌++◌, ◌==◌, list_eq, nat_eq, if◌then◌else◌}
use poly_term.Prelude.Text.{Text}
use poly_term.Core.Session.{SessionId, FolderPath, SessionSpec}
use poly_term.Store.Library.Listing.{text_le, sort_by}

mutual
  pub data FolderNode : Type 0 where
    node : Subfolders → List (SessionId × Text) → FolderNode

  pub data Subfolders : Type 0 where
    no_subfolders : Subfolders
    subfolder : Text → FolderNode → Subfolders → Subfolders

pub empty_node : FolderNode
empty_node = node no_subfolders []

-- `entry(name).or_default()`, changed by `f`
pub entry : Text → (FolderNode → FolderNode) → Subfolders → Subfolders
unfolding empty_node
entry name f no_subfolders = subfolder name (f empty_node) no_subfolders
entry name f (subfolder other n rest) =
    let later = entry name f rest in
    if name == other
    then subfolder other (f n) rest
    else if text_le name other
    then subfolder name (f empty_node) (subfolder other n rest)
    else subfolder other n later

pub in_subfolders : (Subfolders → Subfolders) → FolderNode → FolderNode
in_subfolders f (node subfolders sessions) = node (f subfolders) sessions

-- The node that the path leads to, made where it is missing, changed by `f`.
pub ensure_path : FolderPath → (FolderNode → FolderNode) → FolderNode → FolderNode
unfolding entry in_subfolders
ensure_path [] f n = f n
ensure_path (segment ∷ path) f n = in_subfolders (entry segment (ensure_path path f)) n

pub push : SessionSpec → FolderNode → FolderNode
push spec (node subfolders sessions) = node subfolders (sessions ++ (spec.id, spec.name) ∷ [])

name_le : (Text → Text) → SessionId × Text → SessionId × Text → Bool
name_le to_lowercase a b = text_le (to_lowercase a.1) (to_lowercase b.1)

mutual
  pub sort_node : (Text → Text) → FolderNode → FolderNode
  sort_node to_lowercase (node subfolders sessions) =
      node (sort_subfolders to_lowercase subfolders) (sort_by (name_le to_lowercase) sessions)

  sort_subfolders : (Text → Text) → Subfolders → Subfolders
  sort_subfolders to_lowercase no_subfolders = no_subfolders
  sort_subfolders to_lowercase (subfolder name n rest) =
      subfolder name (sort_node to_lowercase n) (sort_subfolders to_lowercase rest)

seed : List FolderPath → FolderNode → FolderNode
seed [] root = root
seed (folder ∷ folders) root = seed folders (ensure_path folder (λ n. n) root)

place : List SessionSpec → FolderNode → FolderNode
place [] root = root
place (spec ∷ specs) root = place specs (ensure_path spec.folder (push spec) root)

pub build_folder_tree : (Text → Text) → List SessionSpec → List FolderPath → FolderNode
unfolding seed place
build_folder_tree to_lowercase specs folders =
    sort_node to_lowercase (place specs (seed folders empty_node))
