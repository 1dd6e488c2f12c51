-- ===== src/Store/Library/Ops/Survival.antt =====
-- crates/polyterm-store/src/library.rs: a session file that does not parse is not written by any operation
-- on sessions and folders.
use poly_term.Prelude.{
  ℕ, zero, suc, ◌≡◌, refl, sym, ◌≢◌, Bool, true, false, Option, none, some, List, [], ◌∷◌, ◌++◌,
  arith, All, All-append, All-mono, if◌then◌else◌, list_eq, nat_eq,
}
use poly_term.Prelude.Text.{Text}
use poly_term.Core.Session.{SessionId, PathBuf, FolderPath, is_root, SessionSpec}
use poly_term.Store.Op.{Result, ok, err, continue}
use poly_term.Store.Files.{Files, Json, contents}
use poly_term.Store.Library.{
  SessionFileData, TopFolder, position, modify, locate, ensure_writable, get_session, take_out_tops,
  take_out_changed, push_session, push_folder, prune,
}
use poly_term.Store.Library.Ops.{
  World, set_tops, write_bytes, save_at, save_top, save_tops, save_index, upsert_session,
  delete_session, move_found, move_session, copy_of, duplicate_found, duplicate_session,
  contains_folder, create_folder, delete_folder, remove_found, remove_top_folder,
}
use poly_term.Store.Library.Ops.Crud.{lib-save_top}
use poly_term.Store.Library.Ops.Guarded.{
  All-sort_unstable, All-dedup, Guarded, Free, Free-writable, Free-take_out, Free-modify,
  Guarded-take_out, Guarded-modify, Guarded-remove_at, Free-take_out_changed,
}

-- The file `q` holds `b`, is included read-only if at all, and is not the index.
pub record Safe (F : Files) (q : PathBuf) (b : F.Bytes) (w : World F) : Type 0 where
  pub holds : F.read w.disk q ≡ contents b
  pub guarded : Guarded q w.lib.tops
  pub not_index : w.lib.index_path ≢ q

module _ (F : Files) (J : Json F.Bytes) (q : PathBuf) (b : F.Bytes)
    (not_temp : (p : PathBuf) → q ≢ F.temp p) where
  read-write_bytes :
      (p : PathBuf) (o : Option F.Bytes) (w : World F)
      → p ≢ q
      → F.read w.disk q ≡ contents b
      → F.read (write_bytes F J p o w).1.disk q ≡ contents b
  unfolding write_bytes
  read-write_bytes p none w ne h = h
  read-write_bytes p (some c) w ne h =
      ground (arith, F.write_frame w.disk p c q b (λ e. ne (sym e)) (not_temp p) h)

  lib-write_bytes :
      (p : PathBuf) (o : Option F.Bytes) (w : World F) → (write_bytes F J p o w).1.lib ≡ w.lib
  unfolding write_bytes
  lib-write_bytes p none w = refl
  lib-write_bytes p (some c) w = ground arith

  pub Safe-write_bytes :
      (p : PathBuf) (o : Option F.Bytes) (w : World F)
      → p ≢ q
      → Safe F q b w
      → Safe F q b (write_bytes F J p o w).1
  Safe-write_bytes p o w ne s = record {
    holds = read-write_bytes p o w ne s.holds;
    guarded = rw (lib-write_bytes p o w) s.guarded;
    not_index = rw (lib-write_bytes p o w) s.not_index;
  }

  pub Safe-continue :
      {A B : Type 0} (r : Result A × World F) (k : A → World F → Result B × World F)
      → Safe F q b r.1
      → ((a : A) → r.0 ≡ ok a → Safe F q b (k a r.1).1)
      → Safe F q b (continue k r.0 r.1).1
  Safe-continue (ok a, w) k s next = next a refl
  Safe-continue (err e, w) k s next = s

  pub Safe-save_index : (w : World F) → Safe F q b w → Safe F q b (save_index F J w).1
  unfolding save_index
  Safe-save_index w s = Safe-write_bytes w.lib.index_path _ w s.not_index s

  Safe-save_at :
      (i : ℕ) (tops : List TopFolder) (w : World F)
      → Free q i tops
      → Safe F q b w
      → Safe F q b (save_at F J i tops w).1
  unfolding save_at
  Safe-save_at i [] w f s = s
  Safe-save_at zero (t ∷ tops) w f s = Safe-write_bytes t.path _ w f s
  Safe-save_at (suc i) (t ∷ tops) w f s = Safe-save_at i tops w f s

  pub Safe-save_top :
      (i : ℕ) (w : World F) → Free q i w.lib.tops → Safe F q b w → Safe F q b (save_top F J i w).1
  unfolding save_top
  Safe-save_top i w = Safe-save_at i w.lib.tops w

  Safe-save_tops :
      (is : List ℕ) (w : World F)
      → All (λ i. Free q i w.lib.tops) is
      → Safe F q b w
      → Safe F q b (save_tops F J is w).1
  unfolding save_tops
  Safe-save_tops [] w f s = s
  Safe-save_tops (i ∷ is) w f s =
      Safe-continue (save_top F J i w) (λ _. save_tops F J is) (Safe-save_top i w f.0 s)
        λ _ _.
          Safe-save_tops is (save_top F J i w).1 (rw (lib-save_top F J i w) f.1)
            (Safe-save_top i w f.0 s)

  pub Safe-set_tops :
      (tops : List TopFolder) (w : World F)
      → Guarded q tops
      → Safe F q b w
      → Safe F q b (set_tops F J tops w)
  Safe-set_tops tops w g s = record { holds = s.holds; guarded = g; not_index = s.not_index }

  -- The operations on sessions and folders.
  pub Safe-upsert :
      (spec : SessionSpec) (w : World F) → Safe F q b w → Safe F q b (upsert_session F J spec w).1
  unfolding upsert_session
  Safe-upsert spec w s =
      Safe-continue (locate w.lib.tops spec.folder, w) _ s
        λ (i, rel) _.
          Safe-continue (ensure_writable w.lib.tops i, w) _ s
            λ _ can.
              let free = Free-writable q i w.lib.tops s.guarded can in
              let free' = Free-take_out q spec.id i w.lib.tops free in
              let f = push_session (record spec { folder = rel }) in
              let placed : All (λ j. Free q j (modify i f (take_out_tops spec.id w.lib.tops)))
                  (take_out_changed 0 spec.id w.lib.tops ++ i ∷ []) =
                All-append _ (take_out_changed 0 spec.id w.lib.tops) (i ∷ [])
                  (All-mono _ _ (take_out_changed 0 spec.id w.lib.tops)
                    (λ j g. Free-modify q f i j _ (Free-take_out q spec.id j w.lib.tops g))
                    (Free-take_out_changed q spec.id [] w.lib.tops s.guarded))
                  (Free-modify q f i i _ free', tt) in
              Safe-save_tops _ _ (All-dedup _ _ (All-sort_unstable _ _ placed)) (
                Safe-set_tops _ w
                  (Guarded-modify q f i _ free' (Guarded-take_out q spec.id w.lib.tops s.guarded))
                  s)

  pub Safe-delete :
      (id : SessionId) (w : World F) → Safe F q b w → Safe F q b (delete_session F J id w).1
  unfolding delete_session
  Safe-delete id w s =
      Safe-save_tops (take_out_changed 0 id w.lib.tops) _
        (All-mono _ _ (take_out_changed 0 id w.lib.tops) (λ i. Free-take_out q id i w.lib.tops)
          (Free-take_out_changed q id [] w.lib.tops s.guarded))
        (Safe-set_tops _ w (Guarded-take_out q id w.lib.tops s.guarded) s)

  pub Safe-move :
      (id : SessionId) (folder : FolderPath) (w : World F)
      → Safe F q b w
      → Safe F q b (move_session F J id folder w).1
  unfolding move_session
  Safe-move id folder w s = go (get_session w.lib.tops id)
    where
      go : (o : Option SessionSpec) → Safe F q b (move_found F J folder o w).1
      go none = unfold move_found in s
      go (some spec) = unfold move_found in Safe-upsert (record spec { folder = folder }) w s

  pub Safe-duplicate :
      (fresh id : SessionId) (w : World F)
      → Safe F q b w
      → Safe F q b (duplicate_session F J fresh id w).1
  unfolding duplicate_session
  Safe-duplicate fresh id w s = go (get_session w.lib.tops id)
    where
      go : (o : Option SessionSpec) → Safe F q b (duplicate_found F J fresh o w).1
      go none = unfold duplicate_found in s
      go (some spec) =
          unfold duplicate_found in
          Safe-continue (upsert_session F J (copy_of F J fresh spec) w) _
            (Safe-upsert (copy_of F J fresh spec) w s)
            λ _ _. Safe-upsert (copy_of F J fresh spec) w s

  -- A file that `ensure_writable` lets through is changed and saved.
  Safe-edit :
      (i : ℕ) (f : SessionFileData → SessionFileData) (w : World F) (a : Unit {0})
      → ensure_writable w.lib.tops i ≡ ok a
      → Safe F q b w
      → Safe F q b (save_top F J i (set_tops F J (modify i f w.lib.tops) w)).1
  Safe-edit i f w a can s =
      let free = Free-writable q i w.lib.tops s.guarded can in
      Safe-save_top i _ (Free-modify q f i i w.lib.tops free)
        (Safe-set_tops _ w (Guarded-modify q f i w.lib.tops free s.guarded) s)

  pub Safe-if {ℓ} :
      {A : Type ℓ} (t : Bool) (x y : A × World F)
      → Safe F q b x.1
      → Safe F q b y.1
      → Safe F q b (if t then x else y).1
  Safe-if true x y sx sy = sx
  Safe-if false x y sx sy = sy

  pub Safe-create_folder :
      (folder : FolderPath) (w : World F) → Safe F q b w → Safe F q b (create_folder F J folder w).1
  unfolding create_folder
  Safe-create_folder folder w s =
      Safe-continue (locate w.lib.tops folder, w) _ s
        λ (i, rel) _. Safe-if (is_root rel) _ _ s (
          Safe-continue (ensure_writable w.lib.tops i, w) _ s
            λ a can.
              Safe-if (contains_folder F J i rel w.lib.tops) _ _ s
                (Safe-edit i (push_folder rel) w a can s))

  pub Safe-delete_folder :
      (folder : FolderPath) (w : World F) → Safe F q b w → Safe F q b (delete_folder F J folder w).1
  unfolding delete_folder
  Safe-delete_folder folder w s =
      Safe-continue (locate w.lib.tops folder, w) _ s
        λ (i, rel) _. Safe-if (is_root rel) _ _ s (
          Safe-continue (ensure_writable w.lib.tops i, w) _ s
            λ a can. Safe-edit i (prune rel) w a can s)

  pub Safe-remove_top_folder :
      (name : Text) (w : World F) → Safe F q b w → Safe F q b (remove_top_folder F J name w).1
  unfolding remove_top_folder
  Safe-remove_top_folder name w s = go (position name w.lib.tops)
    where
      go : (o : Option ℕ) → Safe F q b (remove_found F J o w).1
      go none = unfold remove_found in s
      go (some i) =
          unfold remove_found in
          Safe-save_index _ (Safe-set_tops _ w (Guarded-remove_at q i w.lib.tops s.guarded) s)
