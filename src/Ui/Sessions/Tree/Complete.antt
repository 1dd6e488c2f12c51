-- ===== src/Ui/Sessions/Tree/Complete.antt =====
-- No session is lost or shown twice in the folder tree.
use poly_term.Prelude.{
  ℕ, ◌+◌, ◌≡◌, refl, ◌∙◌, Bool, List, [], ◌∷◌, list_eq, nat_eq, arith, count, count-append, map,
}
use poly_term.Prelude.Text.{Text}
use poly_term.Core.Session.{SessionId, FolderPath, SessionSpec}
use poly_term.Store.Library.Listing.Order.{count-sort_by}
use poly_term.Ui.Sessions.Tree.{
  FolderNode, node, Subfolders, no_subfolders, subfolder, empty_node, entry, in_subfolders,
  ensure_path, push, name_le, sort_node, sort_subfolders, seed, place, build_folder_tree,
}

-- The sessions of the whole tree for which `p` holds.
module _ (p : SessionId × Text → Bool) where
  mutual
    pub shown : FolderNode → ℕ
    shown (node subfolders sessions) = shown_below subfolders + count p sessions

    shown_below : Subfolders → ℕ
    shown_below no_subfolders = 0
    shown_below (subfolder name n rest) = shown n + shown_below rest

  shown_below-entry :
      (name : Text) (f : FolderNode → FolderNode) (k : ℕ)
      → ((n : FolderNode) → shown (f n) ≡ shown n + k)
      → (subs : Subfolders) → shown_below (entry name f subs) ≡ shown_below subs + k
  unfolding entry shown empty_node
  shown_below-entry name f k law no_subfolders = omega (arith, law empty_node)
  shown_below-entry name f k law (subfolder other n rest) =
      ground (arith, law n, law empty_node, shown_below-entry name f k law rest)

  shown-ensure_path :
      (path : FolderPath) (f : FolderNode → FolderNode) (k : ℕ)
      → ((n : FolderNode) → shown (f n) ≡ shown n + k)
      → (n : FolderNode) → shown (ensure_path path f n) ≡ shown n + k
  unfolding ensure_path in_subfolders shown
  shown-ensure_path [] f k law n = law n
  shown-ensure_path (segment ∷ path) f k law (node subs sessions) = omega (
    arith,
    shown_below-entry segment (ensure_path path f) k (shown-ensure_path path f k law) subs,
  )

  mutual
    unfolding sort_node sort_subfolders shown shown_below

    shown-sort_node :
        (to_lowercase : Text → Text) (n : FolderNode) → shown (sort_node to_lowercase n) ≡ shown n
    shown-sort_node to_lowercase (node subs sessions) =
        omega (
          arith,
          shown_below-sort to_lowercase subs,
          count-sort_by (name_le to_lowercase) p sessions,
        )

    shown_below-sort :
        (to_lowercase : Text → Text) (subs : Subfolders)
        → shown_below (sort_subfolders to_lowercase subs) ≡ shown_below subs
    shown_below-sort to_lowercase no_subfolders = refl
    shown_below-sort to_lowercase (subfolder name n rest) =
        omega (arith, shown-sort_node to_lowercase n, shown_below-sort to_lowercase rest)

  shown-seed :
      (folders : List FolderPath) (root : FolderNode) → shown (seed folders root) ≡ shown root
  unfolding seed
  shown-seed [] root = refl
  shown-seed (folder ∷ folders) root =
      shown-seed folders _
      ∙ omega (arith, shown-ensure_path folder (λ n. n) 0 (λ n. omega arith) root)

  shown-push :
      (spec : SessionSpec) (n : FolderNode)
      → shown (push spec n) ≡ shown n + count p ((spec.id, spec.name) ∷ [])
  unfolding push shown
  shown-push spec (node subs sessions) =
      omega (arith, count-append p sessions ((spec.id, spec.name) ∷ []))

  shown-place :
      (specs : List SessionSpec) (root : FolderNode)
      → shown (place specs root) ≡ shown root + count p (map (λ s. (s.id, s.name)) specs)
  unfolding place
  shown-place [] root = omega arith
  shown-place (spec ∷ specs) root =
      let here = shown-ensure_path spec.folder (push spec) _ (shown-push spec) root in
      omega (arith, here, shown-place specs (ensure_path spec.folder (push spec) root))

  -- The tree holds the id and name of every session as often as the sessions given have them, whatever folders it
  -- is seeded with.
  pub build_folder_tree_complete :
      (to_lowercase : Text → Text) (specs : List SessionSpec) (folders : List FolderPath)
      → shown (build_folder_tree to_lowercase specs folders)
        ≡ count p (map (λ s. (s.id, s.name)) specs)
  unfolding build_folder_tree empty_node shown
  build_folder_tree_complete to_lowercase specs folders = omega (
    arith,
    shown-sort_node to_lowercase (place specs (seed folders empty_node)),
    shown-place specs (seed folders empty_node),
    shown-seed folders empty_node,
  )
