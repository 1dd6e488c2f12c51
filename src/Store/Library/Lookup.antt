-- ===== src/Store/Library/Lookup.antt =====
-- crates/polyterm-store/src/library.rs: how a session is found after one is taken out or pushed.
use mathlib.Core.Option
use poly_term.Prelude.{
  ℕ, zero, suc, ◌≡◌, refl, ap, ◌≢◌, inl, inr, not, Option, none, some, List, [], ◌∷◌, ◌++◌, arith,
  ◌==◌, ==_sound, list_eq, nat_eq, find, retain, Bool-cases, Option-cases,
}
use poly_term.Prelude.Text.{Text}
use poly_term.Core.Session.{SessionId, FolderPath, SessionSpec}
use poly_term.Store.Op.{ok}
use poly_term.Store.Library.{
  TopFolder, position, modify, locate, absolute, has_id, get_session, take_out_tops, push_session,
}

find-retain_self :
    (id : SessionId) (xs : List SessionSpec)
    → find (has_id id) (retain (λ s. not (has_id id s)) xs) ≡ none
find-retain_self id [] = refl
find-retain_self id (x ∷ xs) = ground (arith, find-retain_self id xs)

find-retain_ne :
    (id id' : SessionId) (xs : List SessionSpec)
    → id ≢ id'
    → find (has_id id') (retain (λ s. not (has_id id s)) xs) ≡ find (has_id id') xs
find-retain_ne id id' [] ne = refl
find-retain_ne id id' (x ∷ xs) ne = ground (arith, find-retain_ne id id' xs ne)

find-push_self :
    (spec : SessionSpec) (xs : List SessionSpec)
    → find (has_id spec.id) xs ≡ none
    → find (has_id spec.id) (xs ++ spec ∷ []) ≡ some spec
find-push_self spec [] e = ground arith
find-push_self spec (x ∷ xs) e = ground (arith, find-push_self spec xs)

find-push_ne :
    (spec : SessionSpec) (id : SessionId) (xs : List SessionSpec)
    → spec.id ≢ id
    → find (has_id id) (xs ++ spec ∷ []) ≡ find (has_id id) xs
find-push_ne spec id [] ne = ground arith
find-push_ne spec id (x ∷ xs) ne = ground (arith, find-push_ne spec id xs ne)

-- A session that was taken out is in no file.
pub get-take_out_self :
    (id : SessionId) (tops : List TopFolder) → get_session (take_out_tops id tops) id ≡ none
unfolding get_session take_out_tops
get-take_out_self id [] = refl
get-take_out_self id (t ∷ tops) =
    rw (find-retain_self id t.contents.sessions, get_session) (get-take_out_self id tops)

pub get-take_out_ne :
    (id id' : SessionId) (tops : List TopFolder)
    → id ≢ id'
    → get_session (take_out_tops id tops) id' ≡ get_session tops id'
unfolding get_session take_out_tops
get-take_out_ne id id' [] ne = refl
get-take_out_ne id id' (t ∷ tops) ne =
    ground (arith, find-retain_ne id id' t.contents.sessions ne, get-take_out_ne id id' tops ne)

pub position-take_out :
    (id : SessionId) (name : Text) (tops : List TopFolder)
    → position name (take_out_tops id tops) ≡ position name tops
unfolding position take_out_tops
position-take_out id name [] = refl
position-take_out id name (t ∷ tops) = rw (position-take_out id name tops)

map-suc_inv :
    (o : Option ℕ) (i : ℕ) → Option.map suc o ≡ some i → (j : ℕ) × (o ≡ some j) × (i ≡ suc j)
map-suc_inv none i e = cc
map-suc_inv (some j) i e = (j, refl, ground arith)

not_suc_zero : (o : Option ℕ) → Option.map suc o ≡ some 0 → ⊥
not_suc_zero none e = cc
not_suc_zero (some j) e = ground arith

not_found_first :
    (id : SessionId) (t : TopFolder) (tops : List TopFolder)
    → get_session (t ∷ tops) id ≡ none
    → (find (has_id id) t.contents.sessions ≡ none) × (get_session tops id ≡ none)
unfolding get_session
not_found_first id t tops e = elim (Option-cases (find (has_id id) t.contents.sessions)) [
  | inl missing ↦ (missing, rw (missing, get_session) at e)
  | inr (s, found) ↦ cc (rw (found, get_session) at e)
]

-- A session pushed to the file of the folder `name` is found there, under that name.
pub get-push_self :
    (stored : SessionSpec) (name : Text) (i : ℕ) (tops : List TopFolder)
    → position name tops ≡ some i
    → get_session tops stored.id ≡ none
    → get_session (modify i (push_session stored) tops) stored.id ≡ some (absolute name stored)
unfolding get_session position modify
get-push_self stored name i [] e none_yet = cc
get-push_self stored name zero (t ∷ tops) e none_yet = elim (Bool-cases (t.name == name)) [
  | inl hit ↦
      let here = not_found_first stored.id t tops none_yet in
      rw (find-push_self stored t.contents.sessions here.0, get_session)
        (ap (λ (n : Text). some (absolute n stored)) (==_sound t.name name hit))
  | inr miss ↦ absurd (not_suc_zero (position name tops) (rw (miss, position) at e))
]
get-push_self stored name (suc i) (t ∷ tops) e none_yet = elim (Bool-cases (t.name == name)) [
  | inl hit ↦ cc (rw (hit, position) at e)
  | inr miss ↦
      let here = not_found_first stored.id t tops none_yet in
      let later = map-suc_inv (position name tops) (suc i) (rw (miss, position) at e) in
      rw (here.0, get_session)
        (get-push_self stored name i tops (ground (arith, later.1, later.2)) here.1)
]

pub get-push_ne :
    (stored : SessionSpec) (id : SessionId) (i : ℕ) (tops : List TopFolder)
    → stored.id ≢ id
    → get_session (modify i (push_session stored) tops) id ≡ get_session tops id
unfolding get_session modify
get-push_ne stored id i [] ne = refl
get-push_ne stored id zero (t ∷ tops) ne =
    rw (find-push_ne stored id t.contents.sessions ne, get_session)
get-push_ne stored id (suc i) (t ∷ tops) ne = ground (arith, get-push_ne stored id i tops ne)

-- `locate` takes the first segment for the folder's name and leaves the rest.
pub locate-eq-ok :
    (tops : List TopFolder) (folder : FolderPath) (i : ℕ) (rel : FolderPath)
    → locate tops folder ≡ ok (i, rel)
    → (name : Text) × (folder ≡ name ∷ rel) × (position name tops ≡ some i)
unfolding locate
locate-eq-ok tops [] i rel e = cc
locate-eq-ok tops (name ∷ rest) i rel e = elim (Option-cases (position name tops)) [
  | inl missing ↦ cc (rw missing at e)
  | inr (j, found) ↦ (name, ground arith, ground arith)
]

id-find :
    (id : SessionId) (xs : List SessionSpec) (s : SessionSpec)
    → find (has_id id) xs ≡ some s
    → s.id ≡ id
id-find id [] s e = cc
id-find id (x ∷ xs) s e = ground (arith, id-find id xs s)

-- What `get_session` gives carries the id that was asked for.
pub id-get :
    (tops : List TopFolder) (id : SessionId) (s : SessionSpec)
    → get_session tops id ≡ some s
    → s.id ≡ id
unfolding get_session absolute
id-get [] id s e = cc
id-get (t ∷ tops) id s e = elim (Option-cases (find (has_id id) t.contents.sessions)) [
  | inl missing ↦ id-get tops id s (rw (missing, get_session) at e)
  | inr (x, found) ↦
      let same = rw (found, get_session) at e in
      let id_of_x = id-find id t.contents.sessions x found in ground arith
]
