-- ===== src/Store/Library/Ops/History.antt =====
-- crates/polyterm-store/src/library.rs: whole runs of the library, from its opening.
use poly_term.Prelude.{
  ℕ, zero, suc, ◌+◌, ◌≡◌, refl, subst, ◌≢◌, inl, inr, Bool, true, false, none, List, [], ◌∷◌, arith,
  any, All-append, Bool-cases, ◌==◌, list_eq, nat_eq, is_empty,
}
use poly_term.Prelude.Text.{Text, codes, trim}
use poly_term.Prelude.Path.{PathBuf, join}
use poly_term.Core.Session.{SessionId, FolderPath, SessionSpec}
use poly_term.Store.Files.{Files, Json, contents}
use poly_term.Store.Library.{
  TopFolder, IndexEntry, is_duplicate, default_top_folder, is_pristine_legacy, rename_first,
  migrate_legacy_default,
}
use poly_term.Store.Library.Ops.{
  World, save_top, save_index, upsert_session, delete_session, move_session, duplicate_session,
  create_folder, delete_folder, remove_top_folder, load_file, load_entry, load_entries,
}
use poly_term.Store.Library.Ops.Include.{
  resolve_file_path, create_missing, include, add_file, is_missing_at, materialise, read_index,
  seed, opened, finish_open, opened_dir, open_in,
}
use poly_term.Store.Library.Ops.Guarded.{Guarded, Free}
use poly_term.Store.Library.Ops.Survival.{
  Safe, Safe-write_bytes, Safe-continue, Safe-save_index, Safe-save_top, Safe-set_tops, Safe-if,
  Safe-upsert, Safe-delete, Safe-move, Safe-duplicate, Safe-create_folder, Safe-delete_folder,
  Safe-remove_top_folder,
}

-- The calls of a session library after it was opened.
pub data Action : Type 0 where
  upserts : SessionSpec → Action
  deletes : SessionId → Action
  moves : SessionId → FolderPath → Action
  duplicates : SessionId → SessionId → Action
  creates_folder deletes_folder : FolderPath → Action
  removes_top_folder : Text → Action
  adds_file : Text → PathBuf → Action

Guarded-rename_first :
    (q : PathBuf) (tops : List TopFolder) → Guarded q tops → Guarded q (rename_first tops)
unfolding rename_first
Guarded-rename_first q [] g = tt
Guarded-rename_first q (t ∷ tops) g = elim (Bool-cases (is_pristine_legacy t)) [
  | inl e ↦ rw (e, rename_first) (g.0, g.1)
  | inr e ↦ rw (e, rename_first) (g.0, Guarded-rename_first q tops g.1)
]

Guarded-migrate :
    (q : PathBuf) (tops : List TopFolder) → Guarded q tops → Guarded q (migrate_legacy_default tops)
unfolding migrate_legacy_default
Guarded-migrate q tops g = elim (Bool-cases (any (λ t. t.name == default_top_folder) tops)) [
  | inl e ↦ rw e g
  | inr e ↦ rw e (Guarded-rename_first q tops g)
]

module _ (F : Files) (J : Json F.Bytes) where
  act : Action → World F → World F
  act (upserts spec) w = (upsert_session F J spec w).1
  act (deletes id) w = (delete_session F J id w).1
  act (moves id folder) w = (move_session F J id folder w).1
  act (duplicates fresh id) w = (duplicate_session F J fresh id w).1
  act (creates_folder folder) w = (create_folder F J folder w).1
  act (deletes_folder folder) w = (delete_folder F J folder w).1
  act (removes_top_folder name) w = (remove_top_folder F J name w).1
  act (adds_file name path) w = (add_file F J name path w).1

  pub run : List Action → World F → World F
  run [] w = w
  run (a ∷ rest) w = run rest (act a w)

module _ (F : Files) (J : Json F.Bytes) (q : PathBuf) (b : F.Bytes)
    (not_temp : (p : PathBuf) → q ≢ F.temp p) (broken : J.parse_file b ≡ none) where
  Guarded-load_entry :
      (disk : F.Disk) (name : Text) (path : PathBuf) (tops : List TopFolder)
      → F.read disk q ≡ contents b
      → Guarded q tops
      → Guarded q (load_entry F J disk name path tops)
  unfolding load_entry load_file
  Guarded-load_entry disk name path tops holds g =
      elim (Bool-cases (is_duplicate (trim name) path tops)) [
        | inl e ↦ rw (e, load_entry) g
        | inr e ↦
            rw (e, load_entry)
              (All-append _ tops _ g ((λ same. rw (same, holds, broken) (refl, refl)), tt))
      ]

  Guarded-load_entries :
      (disk : F.Disk) (es : List IndexEntry) (tops : List TopFolder)
      → F.read disk q ≡ contents b
      → Guarded q tops
      → Guarded q (load_entries F J disk es tops)
  unfolding load_entries
  Guarded-load_entries disk [] tops holds g = g
  Guarded-load_entries disk (e ∷ es) tops holds g =
      Guarded-load_entries disk es _ holds (Guarded-load_entry disk e.name e.path tops holds g)

  Safe-create_missing :
      (path : PathBuf) (w : World F) → Safe F q b w → Safe F q b (create_missing F J path w).1
  unfolding create_missing
  Safe-create_missing path w s = elim (Bool-cases (F.exists w.disk path)) [
    | inl e ↦ rw e s
    | inr e ↦ rw e (
        Safe-write_bytes F J q b not_temp path _ w
          (λ same.
            cc (F.exists_read w.disk q b s.holds, subst (λ p. F.exists w.disk p ≡ false) same e))
          s)
  ]

  Safe-add_file :
      (name : Text) (path : PathBuf) (w : World F)
      → Safe F q b w
      → Safe F q b (add_file F J name path w).1
  unfolding add_file include
  Safe-add_file name path w s =
      let path' = resolve_file_path F J w.disk w.lib.dir path in
      let made = Safe-create_missing path' w s in
      Safe-if F J q b not_temp (is_empty (trim name)) _ _ s (
        Safe-if F J q b not_temp (any (λ t. t.name == trim name) w.lib.tops) _ _ s (
          Safe-if F J q b not_temp (any (λ t. t.path == path') w.lib.tops) _ _ s (
            Safe-continue F J q b not_temp (create_missing F J path' w) _ made λ _ _.
              Safe-save_index F J q b not_temp _ (
                Safe-set_tops F J q b not_temp _ _
                  (Guarded-load_entry _ (trim name) path' _ made.holds made.guarded) made))))

  -- No operation of the library changes a session file that does not parse.
  Safe-act : (a : Action) (w : World F) → Safe F q b w → Safe F q b (act F J a w)
  unfolding act
  Safe-act (upserts spec) w s = Safe-upsert F J q b not_temp spec w s
  Safe-act (deletes id) w s = Safe-delete F J q b not_temp id w s
  Safe-act (moves id folder) w s = Safe-move F J q b not_temp id folder w s
  Safe-act (duplicates fresh id) w s = Safe-duplicate F J q b not_temp fresh id w s
  Safe-act (creates_folder folder) w s = Safe-create_folder F J q b not_temp folder w s
  Safe-act (deletes_folder folder) w s = Safe-delete_folder F J q b not_temp folder w s
  Safe-act (removes_top_folder name) w s = Safe-remove_top_folder F J q b not_temp name w s
  Safe-act (adds_file name path) w s = Safe-add_file name path w s

  Safe-run : (actions : List Action) (w : World F) → Safe F q b w → Safe F q b (run F J actions w)
  unfolding run
  Safe-run [] w s = s
  Safe-run (a ∷ rest) w s = Safe-run rest (act F J a w) (Safe-act a w s)

  Free-missing :
      (i : ℕ) (tops : List TopFolder) (disk : F.Disk)
      → Guarded q tops
      → is_missing_at F J i tops disk ≡ true
      → Free q i tops
  unfolding is_missing_at
  Free-missing i [] disk g e = tt
  Free-missing zero (t ∷ tops) disk g e = λ same. ground (arith, g.0 same)
  Free-missing (suc i) (t ∷ tops) disk g e = Free-missing i tops disk g.1 e

  Safe-materialise : (n i : ℕ) (w : World F) → Safe F q b w → Safe F q b (materialise F J n i w).1
  unfolding materialise
  Safe-materialise zero i w s = s
  Safe-materialise (suc n) i w s = elim (Bool-cases (is_missing_at F J i w.lib.tops w.disk)) [
    | inl e ↦
        let saved =
          Safe-save_top F J q b not_temp i w (Free-missing i w.lib.tops w.disk s.guarded e) s in
        rw (e, materialise)
          (Safe-continue F J q b not_temp (save_top F J i w) _ saved
            λ _ _. Safe-materialise n (i + 1) _ saved)
    | inr e ↦ rw (e, materialise) (Safe-materialise n (i + 1) w s)
  ]

  Safe-opened :
      (dir : PathBuf) (es : List IndexEntry) (disk : F.Disk)
      → F.read disk q ≡ contents b
      → join dir (codes "library.json" ∷ []) ≢ q
      → Safe F q b (opened F J dir es disk)
  unfolding opened
  Safe-opened dir es disk holds ne = record {
    holds = holds;
    guarded = Guarded-migrate q _ (Guarded-load_entries disk (seed F J dir es) [] holds tt);
    not_index = ne;
  }

  Safe-finish_open : (w : World F) → Safe F q b w → Safe F q b (finish_open F J w).1
  unfolding finish_open
  Safe-finish_open w s =
      let saved = Safe-save_index F J q b not_temp w s in
      Safe-continue F J q b not_temp (save_index F J w) _ saved λ _ _. Safe-materialise _ 0 _ saved

  Safe-opened_dir :
      (dir : PathBuf) (made : F.Disk × Bool)
      → F.read made.0 q ≡ contents b
      → join dir (codes "library.json" ∷ []) ≢ q
      → Safe F q b (opened_dir F J dir made).1
  unfolding opened_dir
  Safe-opened_dir dir (disk, false) holds ne = Safe-opened dir [] disk holds ne
  Safe-opened_dir dir (disk, true) holds ne =
      Safe-continue F J q b not_temp
        (read_index F J disk (join dir (codes "library.json" ∷ [])), opened F J dir [] disk) _
        (Safe-opened dir [] disk holds ne)
        λ es _. Safe-finish_open _ (Safe-opened dir es disk holds ne)

  -- A session file whose contents do not parse, and which is neither the library's index nor named
  -- like a temporary file, is on the disk byte for byte after the library was opened in any directory
  -- and any operations followed, whichever of them or of their writes failed.
  pub read-run_open :
      (disk : F.Disk) (dir : PathBuf) (actions : List Action)
      → F.read disk q ≡ contents b
      → join dir (codes "library.json" ∷ []) ≢ q
      → F.read (run F J actions (open_in F J disk dir).1).disk q ≡ contents b
  unfolding open_in
  read-run_open disk dir actions holds ne =
      (Safe-run actions _ (
        Safe-opened_dir dir (F.create_dir_all disk dir) (F.read-create_dir_all disk dir q b holds)
          ne)).holds
