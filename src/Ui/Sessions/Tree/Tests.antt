-- ===== src/Ui/Sessions/Tree/Tests.antt =====
-- Two folders, seeded out of order.
use poly_term.Prelude.{ℕ, Bool, ◌≡◌, refl, none, List, [], ◌∷◌, list_eq, nat_eq, eqb}
use poly_term.Prelude.Text.{Text, codes}
use poly_term.Core.Session.{SessionId, FolderPath, SessionSpec, local_shell, prompt}
use poly_term.Ui.Sessions.Tree.Complete.{shown, build_folder_tree_complete}
use poly_term.Store.Library.Listing.{text_le, sort_by}
use poly_term.Ui.Sessions.Tree.{
  node, no_subfolders, subfolder, empty_node, build_folder_tree, sort_node, place, seed,
  ensure_path, entry, in_subfolders,
}

empty_folders_are_sorted :
    build_folder_tree (λ t. t) [] ((codes "lab" ∷ []) ∷ (codes "home" ∷ []) ∷ [])
    ≡ node
        (subfolder (codes "home") empty_node (subfolder (codes "lab") empty_node no_subfolders))
        []
unfolding build_folder_tree sort_node place seed ensure_path entry in_subfolders text_le sort_by
    empty_node
empty_folders_are_sorted = refl

abbrev shell : ℕ → Text → FolderPath → SessionSpec
shell id name folder = record {
  id = id;
  name = name;
  folder = folder;
  kind = local_shell (record { shell = none; working_directory = none; env = [] });
  on_exit = prompt;
}

abbrev specs : List SessionSpec
specs =
    shell 4 (codes "b") (codes "home" ∷ [])
    ∷ shell 5 (codes "a") (codes "home" ∷ [])
    ∷ shell 6 (codes "c") []
    ∷ []

abbrev is_fifth : SessionId × Text → Bool
is_fifth e = eqb e.0 5

build_folder_tree_complete_example :
    shown is_fifth (build_folder_tree (λ t. t) specs ((codes "lab" ∷ []) ∷ [])) ≡ 1
build_folder_tree_complete_example =
    build_folder_tree_complete is_fifth (λ t. t) specs ((codes "lab" ∷ []) ∷ [])
