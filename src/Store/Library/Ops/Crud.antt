-- ===== src/Store/Library/Ops/Crud.antt =====
-- crates/polyterm-store/src/library.rs: what `get_session` gives after each operation on a session.
use poly_term.Prelude.{
  ℕ, zero, suc, ◌≡◌, refl, sym, ap, subst, ◌∙◌, ◌≢◌, inl, inr, ◌⊎◌, none, some, List, [], ◌∷◌,
  arith,
}
use poly_term.Core.Session.{SessionId, FolderPath, SessionSpec}
use poly_term.Store.Op.{StoreError, Result, ok, err, continue}
use poly_term.Store.Files.{Files, Json}
use poly_term.Store.Library.{
  TopFolder, modify, locate, ensure_writable, get_session, take_out_tops, take_out_changed,
  push_session, absolute,
}
use poly_term.Store.Library.Lookup.{
  get-take_out_self, get-take_out_ne, position-take_out, get-push_self, get-push_ne, locate-eq-ok,
  id-get,
}
use poly_term.Store.Library.Ops.{
  World, write_bytes, save_at, save_top, save_tops, upsert_session, delete_session, move_found,
  move_session,
}

pub Result-cases {ℓ} :
    {A : Type ℓ} (r : Result A) → ((e : StoreError) × (r ≡ err e)) ⊎ ((a : A) × (r ≡ ok a))
Result-cases (ok a) = inr (a, refl)
Result-cases (err e) = inl (e, refl)

module _ (F : Files) (J : Json F.Bytes) where
  lib-save_at : (i : ℕ) (tops : List TopFolder) (w : World F) → (save_at F J i tops w).1.lib ≡ w.lib
  unfolding save_at write_bytes
  lib-save_at i [] w = refl
  lib-save_at zero (t ∷ tops) w = ground arith
  lib-save_at (suc i) (t ∷ tops) w = lib-save_at i tops w

  pub lib-save_top : (i : ℕ) (w : World F) → (save_top F J i w).1.lib ≡ w.lib
  unfolding save_top
  lib-save_top i w = lib-save_at i w.lib.tops w

  -- Saving changes nothing in memory, whether it succeeds or not.
  pub lib-save_tops : (is : List ℕ) (w : World F) → (save_tops F J is w).1.lib ≡ w.lib
  unfolding save_tops
  lib-save_tops [] w = refl
  lib-save_tops (i ∷ is) w = elim (Result-cases (save_top F J i w).0) [
    | inl (e, failed) ↦ rw (failed, continue) (lib-save_top i w)
    | inr (a, saved) ↦
        rw (saved, continue) (lib-save_tops is (save_top F J i w).1 ∙ lib-save_top i w)
  ]

  module _ (spec : SessionSpec) (w : World F) where
    -- The folders in memory once the session has been placed.
    abbrev pub placed : ℕ → FolderPath → List TopFolder
    placed i rel =
        modify i (push_session (record spec { folder = rel })) (take_out_tops spec.id w.lib.tops)

    -- `upsert_session` either refuses, and changes nothing, or places the session.
    upsert_cases :
        ((e : StoreError) × (upsert_session F J spec w ≡ (err e, w)))
        ⊎ ((i : ℕ) × (rel : FolderPath) × (locate w.lib.tops spec.folder ≡ ok (i, rel))
            × (ensure_writable w.lib.tops i ≡ ok tt)
            × ((upsert_session F J spec w).1.lib.tops ≡ placed i rel))
    unfolding upsert_session
    upsert_cases = elim (Result-cases (locate w.lib.tops spec.folder)) [
      | inl (e, failed) ↦ inl (e, rw (failed, continue))
      | inr ((i, rel), found) ↦ elim (Result-cases (ensure_writable w.lib.tops i)) [
        | inl (e, failed) ↦ inl (e, rw (found, continue) (rw (failed, continue)))
        | inr (_, writable) ↦ inr (
          i,
          rel,
          found,
          writable,
          rw (found, continue) (rw (writable, continue) (ap (λ l. l.tops) (lib-save_tops _ _))),
        )
      ]
    ]

    -- After a successful `upsert_session` the session is found by its id, exactly as it was given,
    -- its folder included.
    pub get-upsert :
        (upsert_session F J spec w).0 ≡ ok tt
        → get_session (upsert_session F J spec w).1.lib.tops spec.id ≡ some spec
    unfolding absolute
    get-upsert done = elim upsert_cases [
      | inl (e, refused) ↦ cc (ap (λ r. r.0) refused)
      | inr (i, rel, found, writable, tops) ↦
          let (name, split, place) = locate-eq-ok w.lib.tops spec.folder i rel found in
          rw tops (
            get-push_self (record spec { folder = rel }) name i (take_out_tops spec.id w.lib.tops)
              (position-take_out spec.id name w.lib.tops ∙ place)
              (get-take_out_self spec.id w.lib.tops)
            ∙ ap (λ (f : FolderPath). some (record spec { folder = f })) (sym split))
    ]

    -- Whether it succeeds or not, `upsert_session` leaves every other session as it was.
    pub get-upsert_ne :
        (id : SessionId)
        → spec.id ≢ id
        → get_session (upsert_session F J spec w).1.lib.tops id ≡ get_session w.lib.tops id
    get-upsert_ne id ne = elim upsert_cases [
      | inl (e, refused) ↦ rw refused
      | inr (i, rel, found, writable, tops) ↦ rw tops (
          get-push_ne (record spec { folder = rel }) id i (take_out_tops spec.id w.lib.tops) ne
          ∙ get-take_out_ne spec.id id w.lib.tops ne)
    ]

  -- After `delete_session` the library in memory no longer has the session, even where writing a file fails, and it
  -- has every other session as before.
  pub get-delete :
      (id : SessionId) (w : World F)
      → (get_session (delete_session F J id w).1.lib.tops id ≡ none)
        × ((id' : SessionId)
            → id ≢ id'
            → get_session (delete_session F J id w).1.lib.tops id' ≡ get_session w.lib.tops id')
  unfolding delete_session
  get-delete id w = (
    rw (lib-save_tops (take_out_changed 0 id w.lib.tops) _) (get-take_out_self id w.lib.tops),
    λ id' ne.
        rw (lib-save_tops (take_out_changed 0 id w.lib.tops) _)
          (get-take_out_ne id id' w.lib.tops ne),
  )

  -- A successful `move_session` of a session that is there changes its folder and nothing else of it,
  -- and no other session.
  pub get-move :
      (id : SessionId) (folder : FolderPath) (spec : SessionSpec) (w : World F)
      → get_session w.lib.tops id ≡ some spec
      → (move_session F J id folder w).0 ≡ ok tt
      → (get_session (move_session F J id folder w).1.lib.tops id
          ≡ some (record spec { folder = folder }))
        × ((id' : SessionId)
            → id ≢ id'
            → get_session (move_session F J id folder w).1.lib.tops id'
              ≡ get_session w.lib.tops id')
  unfolding move_session
  get-move id folder spec w found =
      rw (found, move_found)
        λ done.
          let same = id-get w.lib.tops id spec found in
          let moved = record spec { folder = folder } in
          (
            subst (λ k. get_session (upsert_session F J moved w).1.lib.tops k ≡ some moved) same
                (get-upsert moved w done),
            λ id' ne. get-upsert_ne moved w id' (λ e. ne (sym same ∙ e)),
          )
