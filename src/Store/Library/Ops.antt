-- ===== src/Store/Library/Ops.antt =====
-- crates/polyterm-store/src/library.rs: the operations that read and write files. A new UUID is an
-- argument. Opening and including files is in `Include`.
pub mod Crud
pub mod Stored
pub mod Include
pub mod Guarded
pub mod Survival
pub mod History
mod Tests
use poly_term.Prelude.{
  ℕ, zero, suc, ◌+◌, ◌≡◌, Bool, true, false, not, ◌&&◌, ◌||◌, Option, none, some, List, [], ◌∷◌,
  ◌++◌, map, ltb, eqb, ◌==◌, list_eq, nat_eq, any, is_empty, length, if◌then◌else◌,
}
use poly_term.Prelude.Text.{Text, codes, trim}
use poly_term.Core.Session.{SessionId, PathBuf, FolderPath, is_root, SessionSpec}
use poly_term.Store.Op.{
  StoreError, serde, io, duplicate_top_folder, no_name, name_taken, path_taken, Result, ok, err, Op,
  pure, fail, lift, gets, continue, ◌>>=◌, ◌>>◌,
}
use poly_term.Store.Files.{Files, Json, ReadResult, contents, not_found, failed}
use poly_term.Store.Library.{
  SessionFileData, empty_file, TopFolder, IndexEntry, SessionLibrary, default_top_folder, position,
  modify, locate, ensure_writable, get_session, take_out_tops, take_out_changed, sort_unstable,
  dedup, push_session, push_folder, prune, is_duplicate, migrate_legacy_default, remove_at,
}

-- The library and the disk that it writes to.
pub record World (F : Files) : Type 0 where
  pub lib : SessionLibrary
  pub disk : F.Disk

module _ (F : Files) (J : Json F.Bytes) where
  abbrev M {ℓ} : Type ℓ → Type ℓ
  M A = World F → Result A × World F

  abbrev pub set_tops : List TopFolder → World F → World F
  set_tops tops w = record w { lib = record w.lib { tops = tops } }

  -- `self.tops = f(self.tops)`
  abbrev pub change : (List TopFolder → List TopFolder) → World F → Result (Unit {0}) × World F
  change f w = (ok tt, set_tops (f w.lib.tops) w)

  abbrev pub written : World F → F.Disk × Bool → Result (Unit {0}) × World F
  written w (disk, true) = (ok tt, record w { disk = disk })
  written w (disk, false) = (err io, record w { disk = disk })

  pub write_bytes : PathBuf → Option F.Bytes → World F → Result (Unit {0}) × World F
  write_bytes p none w = (err serde, w)
  write_bytes p (some b) w = written w (F.atomic_write w.disk p b)

  save_at : ℕ → List TopFolder → World F → Result (Unit {0}) × World F
  unfolding write_bytes
  save_at i [] w = (ok tt, w)
  save_at zero (t ∷ tops) w = write_bytes t.path (J.write_file t.contents) w
  save_at (suc i) (t ∷ tops) w = save_at i tops w

  pub save_top : ℕ → World F → Result (Unit {0}) × World F
  unfolding save_at
  save_top i w = save_at i w.lib.tops w

  pub save_index : World F → Result (Unit {0}) × World F
  unfolding write_bytes
  save_index w =
      write_bytes w.lib.index_path
        (J.write_index (map (λ t. record { name = t.name; path = t.path }) w.lib.tops)) w

  -- `for i in affected { self.save_top(i)?; }`
  pub save_tops : List ℕ → World F → Result (Unit {0}) × World F
  save_tops [] w = (ok tt, w)
  save_tops (i ∷ is) w = continue (λ _. save_tops is) (save_top i w).0 (save_top i w).1

  pub upsert_session : SessionSpec → World F → Result (Unit {0}) × World F
  upsert_session spec w =
      continue
        (λ place w.
          continue
            (λ _ w.
              let affected = take_out_changed 0 spec.id w.lib.tops in
              let stored = record spec { folder = place.1 } in
              save_tops (dedup (sort_unstable (affected ++ place.0 ∷ []))) (
                set_tops (modify place.0 (push_session stored) (take_out_tops spec.id w.lib.tops))
                  w))
            (ensure_writable w.lib.tops place.0) w)
        (locate w.lib.tops spec.folder) w

  pub delete_session : SessionId → World F → Result (Unit {0}) × World F
  delete_session id w =
      save_tops (take_out_changed 0 id w.lib.tops) (set_tops (take_out_tops id w.lib.tops) w)

  move_found : FolderPath → Option SessionSpec → World F → Result (Unit {0}) × World F
  move_found folder none w = (ok tt, w)
  move_found folder (some spec) w = upsert_session (record spec { folder = folder }) w

  pub move_session : SessionId → FolderPath → World F → Result (Unit {0}) × World F
  unfolding move_found
  move_session id folder w = move_found folder (get_session w.lib.tops id) w

  -- `format!("{} copy", spec.name)`
  abbrev pub copy_of : SessionId → SessionSpec → SessionSpec
  copy_of fresh spec = record spec { id = fresh; name = spec.name ++ codes " copy" }

  duplicate_found : SessionId → Option SessionSpec → World F → Result (Option SessionSpec) × World F
  duplicate_found fresh none w = (ok none, w)
  duplicate_found fresh (some spec) w =
      continue (λ _ w. (ok (some (copy_of fresh spec)), w))
        (upsert_session (copy_of fresh spec) w).0 (upsert_session (copy_of fresh spec) w).1

  pub duplicate_session : SessionId → SessionId → World F → Result (Option SessionSpec) × World F
  unfolding duplicate_found
  duplicate_session fresh id w = duplicate_found fresh (get_session w.lib.tops id) w

  -- `self.tops[idx].data.folders.contains(&rel)`
  contains_folder : ℕ → FolderPath → List TopFolder → Bool
  contains_folder i rel [] = false
  contains_folder zero rel (t ∷ tops) = any (λ f. f == rel) t.contents.folders
  contains_folder (suc i) rel (t ∷ tops) = contains_folder i rel tops

  pub create_folder : FolderPath → World F → Result (Unit {0}) × World F
  unfolding contains_folder
  create_folder folder w =
      continue
        (λ place w.
          if is_root place.1
          then (ok tt, w)
          else continue
              (λ _ w.
                if contains_folder place.0 place.1 w.lib.tops
                then (ok tt, w)
                else save_top place.0
                    (set_tops (modify place.0 (push_folder place.1) w.lib.tops) w))
              (ensure_writable w.lib.tops place.0) w)
        (locate w.lib.tops folder) w

  pub delete_folder : FolderPath → World F → Result (Unit {0}) × World F
  delete_folder folder w =
      continue
        (λ place w.
          if is_root place.1
          then (ok tt, w)
          else continue
              (λ _ w. save_top place.0 (set_tops (modify place.0 (prune place.1) w.lib.tops) w))
              (ensure_writable w.lib.tops place.0) w)
        (locate w.lib.tops folder) w

  remove_found : Option ℕ → World F → Result (Unit {0}) × World F
  remove_found none w = (ok tt, w)
  remove_found (some i) w = save_index (set_tops (remove_at i w.lib.tops) w)

  pub remove_top_folder : Text → World F → Result (Unit {0}) × World F
  unfolding remove_found
  remove_top_folder name w = remove_found (position name w.lib.tops) w

  -- One file, as `load_entry` reads it: a missing file is an empty folder that may be written, and
  -- what cannot be read or parsed is kept read-only.
  abbrev parsed : Option SessionFileData → SessionFileData × Bool × Option Text
  parsed (some d) = (d, true, none)
  parsed none = (empty_file, false, some (codes "could not parse"))

  pub load_file : ReadResult F.Bytes → SessionFileData × Bool × Option Text
  load_file (contents b) = parsed (J.parse_file b)
  load_file not_found = (empty_file, true, none)
  load_file (failed e) = (empty_file, false, some (codes "could not read"))

  abbrev loaded : Text → PathBuf → SessionFileData × Bool × Option Text → TopFolder
  loaded name path r = record {
    name = name;
    path = path;
    contents = r.0;
    writable = r.1;
    error = r.2;
  }

  pub load_entry : F.Disk → Text → PathBuf → List TopFolder → List TopFolder
  unfolding load_file
  load_entry disk name path tops =
      if is_duplicate (trim name) path tops
      then tops
      else tops ++ loaded (trim name) path (load_file (F.read disk path)) ∷ []

  pub load_entries : F.Disk → List IndexEntry → List TopFolder → List TopFolder
  load_entries disk [] tops = tops
  load_entries disk (e ∷ es) tops = load_entries disk es (load_entry disk e.name e.path tops)
