-- ===== src/Store/Library.antt =====
-- crates/polyterm-store/src/library.rs: the session library in memory. The included files are a list
-- of top-level folders; the operations that also write files are in `Ops`.
pub mod Ops
pub mod Lookup
pub mod Listing
use mathlib.Core.Option
use poly_term.Prelude.{
  ℕ, zero, suc, ◌+◌, Bool, true, false, not, ◌&&◌, ◌||◌, Option, none, some, List, [], ◌∷◌, ◌++◌,
  map, ltb, leb, eqb, ◌==◌, list_eq, nat_eq, any, all, find, retain, is_empty, length, take,
  get_elem?, if◌then◌else◌,
}
use poly_term.Prelude.Text.{Text, codes}
use poly_term.Core.Session.{SessionId, PathBuf, FolderPath, is_root, SessionSpec}
use poly_term.Store.Op.{StoreError, unknown_top_folder, not_writable, Result, ok, err}

abbrev pub default_top_folder : Text
default_top_folder = codes "General"

abbrev legacy_default_top_folder : Text
legacy_default_top_folder = codes "Sessions"

pub record SessionFileData : Type 0 where
  pub folders : List FolderPath
  pub sessions : List SessionSpec

abbrev pub empty_file : SessionFileData
empty_file = record { folders = []; sessions = [] }

-- `contents` is the source's `data`.
pub record TopFolder : Type 0 where
  pub name : Text
  pub path : PathBuf
  pub contents : SessionFileData
  pub writable : Bool
  pub error : Option Text

pub record IndexEntry : Type 0 where
  pub name : Text
  pub path : PathBuf

pub record TopFolderInfo : Type 0 where
  pub name : Text
  pub path : PathBuf
  pub error : Option Text

pub record SessionLibrary : Type 0 where
  pub index_path : PathBuf
  pub dir : PathBuf
  pub tops : List TopFolder

-- `position(|t| &t.name == first)`
pub position : Text → List TopFolder → Option ℕ
position name [] = none
position name (t ∷ tops) = if t.name == name then some 0 else Option.map suc (position name tops)

pub modify : ℕ → (SessionFileData → SessionFileData) → List TopFolder → List TopFolder
modify i f [] = []
modify zero f (t ∷ tops) = record t { contents = f t.contents } ∷ tops
modify (suc i) f (t ∷ tops) = t ∷ modify i f tops

prepend : Text → FolderPath → FolderPath
prepend name rel = name ∷ rel

-- `f.len() >= b.len() && f[..b.len()] == *b`
is_within : FolderPath → FolderPath → Bool
is_within base folder = leb (length base) (length folder) && take (length base) folder == base

or_unknown : Text → FolderPath → Option ℕ → Result (ℕ × FolderPath)
or_unknown first rest none = err (unknown_top_folder first)
or_unknown first rest (some i) = ok (i, rest)

pub locate : List TopFolder → FolderPath → Result (ℕ × FolderPath)
unfolding or_unknown position
locate tops [] = err (unknown_top_folder [])
locate tops (first ∷ rest) = or_unknown first rest (position first tops)

-- An index out of range would panic; the callers take theirs from `locate`.
pub ensure_writable : List TopFolder → ℕ → Result (Unit {0})
ensure_writable [] i = ok tt
ensure_writable (t ∷ tops) zero = if t.writable then ok tt else err (not_writable t.path)
ensure_writable (t ∷ tops) (suc i) = ensure_writable tops i

-- The session as the window sees it.
pub absolute : Text → SessionSpec → SessionSpec
unfolding prepend
absolute name spec = record spec { folder = prepend name spec.folder }

abbrev pub has_id : SessionId → SessionSpec → Bool
has_id id s = eqb s.id id

pub get_session : List TopFolder → SessionId → Option SessionSpec
unfolding absolute
get_session [] id = none
get_session (t ∷ tops) id = elim (find (has_id id) t.contents.sessions) [
  | some spec ↦ some (absolute t.name spec)
  | none ↦ get_session tops id
]

abbrev pub without : SessionId → SessionFileData → SessionFileData
without id d = record d { sessions = retain (λ s. not (has_id id s)) d.sessions }

-- The two results of `take_out`: the folders without the session, and the indices that changed.
pub take_out_tops : SessionId → List TopFolder → List TopFolder
take_out_tops id [] = []
take_out_tops id (t ∷ tops) = record t { contents = without id t.contents } ∷ take_out_tops id tops

pub take_out_changed : ℕ → SessionId → List TopFolder → List ℕ
take_out_changed i id [] = []
take_out_changed i id (t ∷ tops) =
    let rest = take_out_changed (i + 1) id tops in
    if eqb (length (without id t.contents).sessions) (length t.contents.sessions)
    then rest
    else i ∷ rest

-- `affected.sort_unstable(); affected.dedup();`
insert_sorted : ℕ → List ℕ → List ℕ
insert_sorted n [] = n ∷ []
insert_sorted n (m ∷ ms) = if leb n m then n ∷ m ∷ ms else m ∷ insert_sorted n ms

pub sort_unstable : List ℕ → List ℕ
unfolding insert_sorted
sort_unstable [] = []
sort_unstable (n ∷ ns) = insert_sorted n (sort_unstable ns)

dedup_after : ℕ → List ℕ → List ℕ
dedup_after n [] = []
dedup_after n (m ∷ ms) = let rest = dedup_after m ms in if eqb m n then rest else m ∷ rest

pub dedup : List ℕ → List ℕ
unfolding dedup_after
dedup [] = []
dedup (n ∷ ns) = n ∷ dedup_after n ns

abbrev pub push_session : SessionSpec → SessionFileData → SessionFileData
push_session spec d = record d { sessions = d.sessions ++ spec ∷ [] }

abbrev pub push_folder : FolderPath → SessionFileData → SessionFileData
push_folder rel d = record d { folders = d.folders ++ rel ∷ [] }

-- What `delete_folder` keeps of a file.
pub prune : FolderPath → SessionFileData → SessionFileData
unfolding is_within
prune rel d = record {
  folders = retain (λ f. not (is_within rel f)) d.folders;
  sessions = retain (λ s. not (is_within rel s.folder)) d.sessions;
}

top_folders : List TopFolder → List TopFolderInfo
top_folders = map λ t. record { name = t.name; path = t.path; error = t.error }

top_folder_names : List TopFolder → List Text
top_folder_names = map λ t. t.name

list_folders : List TopFolder → List FolderPath
unfolding prepend
list_folders [] = []
list_folders (t ∷ tops) =
    (t.name ∷ []) ∷ (map (prepend t.name) t.contents.folders ++ list_folders tops)

-- `name.is_empty() || any(|t| t.name == name || t.path == path)`
pub is_duplicate : Text → PathBuf → List TopFolder → Bool
is_duplicate name path tops = is_empty name || any (λ t. t.name == name || t.path == path) tops

is_pristine_legacy : TopFolder → Bool
is_pristine_legacy t =
    t.name == legacy_default_top_folder
    && (is_empty t.contents.sessions && is_empty t.contents.folders)

rename_first : List TopFolder → List TopFolder
unfolding is_pristine_legacy
rename_first [] = []
rename_first (t ∷ tops) =
    if is_pristine_legacy t
    then record t { name = default_top_folder } ∷ tops
    else t ∷ rename_first tops

pub migrate_legacy_default : List TopFolder → List TopFolder
unfolding rename_first
migrate_legacy_default tops =
    if any (λ t. t.name == default_top_folder) tops then tops else rename_first tops

-- `self.tops.remove(pos)`
pub remove_at : ℕ → List TopFolder → List TopFolder
remove_at i [] = []
remove_at zero (t ∷ tops) = tops
remove_at (suc i) (t ∷ tops) = t ∷ remove_at i tops
