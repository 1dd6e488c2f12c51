-- ===== src/Store/Library/Ops/Include.antt =====
-- crates/polyterm-store/src/library.rs: opening the library and including files. An opened library is
-- the `lib` of the world that comes back with `ok`.
use poly_term.Prelude.{
  ℕ, zero, suc, ◌+◌, Bool, true, false, not, ◌&&◌, ◌||◌, Option, none, some, List, [], ◌∷◌, ◌==◌,
  list_eq, nat_eq, any, is_empty, length, if◌then◌else◌,
}
use poly_term.Prelude.Text.{Text, codes, trim}
use poly_term.Prelude.Path.{PathBuf, is_relative, join, parent, file_name}
use poly_term.Store.Op.{
  serde, io, duplicate_top_folder, no_name, name_taken, path_taken, Result, ok, err, continue,
}
use poly_term.Store.Files.{Files, Json, ReadResult, contents, not_found, failed}
use poly_term.Store.Library.{
  empty_file, TopFolder, IndexEntry, default_top_folder, migrate_legacy_default,
}
use poly_term.Store.Library.Ops.{
  World, set_tops, write_bytes, save_top, save_index, load_entry, load_entries,
}

-- `path.parent() == Some(Path::new(""))`
abbrev is_bare : Option PathBuf → Bool
is_bare none = false
is_bare (some p) = is_empty p

abbrev has_no_name : Option Text → Bool
has_no_name none = true
has_no_name (some n) = false

module _ (F : Files) (J : Json F.Bytes) where
  unfoldable pub resolve_file_path : F.Disk → PathBuf → PathBuf → PathBuf
  resolve_file_path disk dir path =
      let path' = if is_relative path && is_bare (parent path) then join dir path else path in
      if F.is_dir disk path' || has_no_name (file_name path')
      then join path' (codes "sessions.json" ∷ [])
      else path'

  -- `if !path.exists() { atomic_write(…default…)?; }`
  unfoldable pub create_missing : PathBuf → World F → Result (Unit {0}) × World F
  unfolding write_bytes
  create_missing path w =
      if F.exists w.disk path then (ok tt, w) else write_bytes F J path (J.write_file empty_file) w

  unfoldable pub include : Text → PathBuf → World F → Result (Unit {0}) × World F
  unfolding create_missing
  include name path w =
      if any (λ t. t.name == name) w.lib.tops
      then (err (duplicate_top_folder (name_taken name)), w)
      else if any (λ t. t.path == path) w.lib.tops
      then (err (duplicate_top_folder (path_taken path)), w)
      else continue
          (λ _ w. save_index F J (set_tops F J (load_entry F J w.disk name path w.lib.tops) w))
          (create_missing path w).0 (create_missing path w).1

  unfoldable pub add_file : Text → PathBuf → World F → Result (Unit {0}) × World F
  unfolding include
  add_file name path w =
      if is_empty (trim name)
      then (err (duplicate_top_folder no_name), w)
      else include (trim name) (resolve_file_path w.disk w.lib.dir path) w

  -- `for i in 0..lib.tops.len()`: the rounds left, and `i`.
  unfoldable pub is_missing_at : ℕ → List TopFolder → F.Disk → Bool
  is_missing_at i [] disk = false
  is_missing_at zero (t ∷ tops) disk = t.writable && not (F.exists disk t.path)
  is_missing_at (suc i) (t ∷ tops) disk = is_missing_at i tops disk

  unfoldable pub materialise : ℕ → ℕ → World F → Result (Unit {0}) × World F
  unfolding is_missing_at
  materialise zero i w = (ok tt, w)
  materialise (suc n) i w = elim (is_missing_at i w.lib.tops w.disk) [
    | true ↦ continue (λ _. materialise n (i + 1)) (save_top F J i w).0 (save_top F J i w).1
    | false ↦ materialise n (i + 1) w
  ]

  -- The index as `open_in` reads it.
  abbrev parsed_index : Option (List IndexEntry) → Result (List IndexEntry)
  parsed_index none = err serde
  parsed_index (some es) = ok es

  abbrev read_contents : ReadResult F.Bytes → Result (List IndexEntry)
  read_contents (contents b) = parsed_index (J.parse_index b)
  read_contents not_found = err io
  read_contents (failed e) = err io

  unfoldable pub read_index : F.Disk → PathBuf → Result (List IndexEntry)
  read_index disk p = if F.exists disk p then read_contents (F.read disk p) else ok []

  -- `if index.entries.is_empty() { index.entries.push(…) }`
  unfoldable pub seed : PathBuf → List IndexEntry → List IndexEntry
  seed dir [] =
      record { name = default_top_folder; path = join dir (codes "sessions.json" ∷ []) } ∷ []
  seed dir (e ∷ es) = e ∷ es

  unfoldable pub opened : PathBuf → List IndexEntry → F.Disk → World F
  unfolding seed
  opened dir es disk = record {
    lib = record {
      index_path = join dir (codes "library.json" ∷ []);
      dir = dir;
      tops = migrate_legacy_default (load_entries F J disk (seed dir es) []);
    };
    disk = disk;
  }

  unfoldable pub finish_open : World F → Result (Unit {0}) × World F
  finish_open w =
      continue (λ _ w. materialise (length w.lib.tops) 0 w) (save_index F J w).0
        (save_index F J w).1

  unfoldable pub opened_dir : PathBuf → F.Disk × Bool → Result (Unit {0}) × World F
  unfolding read_index opened finish_open
  opened_dir dir (disk, false) = (err io, opened dir [] disk)
  opened_dir dir (disk, true) =
      continue (λ es _. finish_open (opened dir es disk))
        (read_index disk (join dir (codes "library.json" ∷ []))) (opened dir [] disk)

  unfoldable pub open_in : F.Disk → PathBuf → Result (Unit {0}) × World F
  unfolding opened_dir
  open_in disk dir = opened_dir dir (F.create_dir_all disk dir)
