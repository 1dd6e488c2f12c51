-- ===== src/Store/Library/Listing.antt =====
-- `list_sessions` of crates/polyterm-store/src/library.rs: every session, in the order of the tree. `str::to_lowercase`,
-- Unicode's table, is an argument.
pub mod Order
use poly_term.Prelude.{
  ℕ, Bool, true, false, ◌&&◌, ◌||◌, List, [], ◌∷◌, ◌++◌, map, eqb, ltb, ◌==◌, list_eq, nat_eq,
  if◌then◌else◌,
}
use poly_term.Prelude.Text.{Text, join_with}
use poly_term.Core.Session.{FolderPath, SessionSpec}
use poly_term.Store.Library.{TopFolder, absolute}

-- `Ord` of text: by its code points.
unfoldable pub text_le : Text → Text → Bool
text_le [] t = true
text_le (a ∷ s) [] = false
text_le (a ∷ s) (b ∷ t) = ltb a b || (eqb a b && text_le s t)

folder_key : FolderPath → Text
folder_key folder = join_with 31 folder

-- Both clauses of `sort_by`'s comparison, as "not greater".
session_le : (Text → Text) → SessionSpec → SessionSpec → Bool
unfolding folder_key text_le
session_le to_lowercase a b =
    if folder_key a.folder == folder_key b.folder
    then text_le (to_lowercase a.name) (to_lowercase b.name)
    else text_le (folder_key a.folder) (folder_key b.folder)

module _ {ℓ} {A : Type ℓ} (le : A → A → Bool) where
  insert_sorted : A → List A → List A
  insert_sorted x [] = x ∷ []
  insert_sorted x (y ∷ ys) =
      let rest = insert_sorted x ys in if le x y then x ∷ y ∷ ys else y ∷ rest

  -- A stable sort: equal elements keep their order.
  unfoldable pub sort_by : List A → List A
  unfolding insert_sorted
  sort_by [] = []
  sort_by (x ∷ xs) = insert_sorted x (sort_by xs)

pub all_sessions : List TopFolder → List SessionSpec
all_sessions [] = []
all_sessions (t ∷ tops) = map (absolute t.name) t.contents.sessions ++ all_sessions tops

pub list_sessions : (Text → Text) → List TopFolder → List SessionSpec
unfolding session_le sort_by all_sessions
list_sessions to_lowercase tops = sort_by (session_le to_lowercase) (all_sessions tops)
