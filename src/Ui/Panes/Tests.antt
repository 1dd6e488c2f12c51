-- ===== src/Ui/Panes/Tests.antt =====
-- A tree whose tiles are the positions of a list, where each container holds every tile, and a shell that is opened,
-- split, filled and closed.
use poly_term.Prelude.{
  Bool, zero, suc, true, false, ◌≡◌, ◌≢◌, refl, sym, ap, ◌∙◌, ◌⊎◌, inl, inr, Option, none, some,
  List, [], ◌∷◌, ◌++◌, eqb, any, length, arith, Bool-cases, eqb_iff,
}
use poly_term.Prelude.Text.{Text, codes}
use poly_term.Core.Session.{SessionId, SessionSpec, prompt, local_shell}
use poly_term.Ui.PaneEvents.{LivePane}
use poly_term.Ui.Recipients.{TileId}
use poly_term.Ui.Tiles.{right, Tree, attach_pane, split_tile}
use poly_term.Ui.Tiles.Shown.{Reached, at_root, below, Keeps, differ}
use poly_term.Ui.Panes.{
  adhoc, Window, open_source, open_in_active_tile, apply_split, close_tile, restart_pane,
}
use poly_term.Ui.Panes.Sound.{Sound}
use poly_term.Ui.Panes.Closing.{Step, opens, splits, closes, restarts, changes, changes-Sound}

data Tile : Type 0 where
  vacant container : Tile
  pane : SessionId → Tile

record Slots : Type 0 where
  root : Option TileId
  tiles : List Tile

at : List Tile → TileId → Tile
at [] x = vacant
at (o ∷ t) zero = o
at (o ∷ t) (suc x) = at t x

put : TileId → Tile → List Tile → List Tile
put zero o [] = o ∷ []
put zero o (old ∷ t) = o ∷ t
put (suc x) o [] = vacant ∷ put x o []
put (suc x) o (old ∷ t) = old ∷ put x o t

pane_of : Tile → Option SessionId
pane_of vacant = none
pane_of container = none
pane_of (pane id) = some id

is_container : Tile → Bool
is_container vacant = false
is_container container = true
is_container (pane id) = false

taken : Option SessionId → List SessionId
taken none = []
taken (some id) = id ∷ []

all_panes : List Tile → List SessionId
unfolding taken pane_of
all_panes [] = []
all_panes (o ∷ t) = taken (pane_of o) ++ all_panes t

is_top : Option TileId → TileId → Bool
is_top none p = false
is_top (some root) p = eqb root p

-- With the root goes every tile.
take_out : Bool → TileId → Slots → List SessionId × Slots
unfolding all_panes taken put
take_out true p t = (all_panes t.tiles, record t { tiles = [] })
take_out false p t = (taken (pane_of (at t.tiles p)), record t { tiles = put p vacant t.tiles })

abbrev positions : Tree Slots
positions = record {
  root = λ t. t.root;
  set_root = λ o t. record t { root = o };
  get_pane = λ t x. pane_of (at t.tiles x);
  panes = λ t. [];
  active_tiles = λ t. [];
  is_tabs = λ t x. is_container (at t.tiles x);
  parent_of = λ t x. none;
  insert_pane = λ s t. (length t.tiles, record t { tiles = t.tiles ++ pane s ∷ [] });
  insert_tab_tile = λ xs t. (length t.tiles, record t { tiles = t.tiles ++ container ∷ [] });
  add_child = λ p c t. t;
  set_active = λ p c t. t;
  insert_tabs = λ p xs a t. record t { tiles = put p container t.tiles };
  insert_linear = λ p dir xs t. record t { tiles = put p container t.tiles };
  remove_recursively = λ p t. take_out (is_top t.root p) p t;
}

-- Every container holds every tile.
abbrev Holds : Slots → TileId → TileId → Type 0
Holds t p c = is_container (at t.tiles p) ≡ true

abbrev Appended : Tile → List Tile → TileId → Type 0
Appended o t x =
    ((x ≡ length t) × (at (t ++ o ∷ []) x ≡ o) × (at t x ≡ vacant)) ⊎ (at (t ++ o ∷ []) x ≡ at t x)

at-append : (o : Tile) (t : List Tile) (x : TileId) → Appended o t x
unfolding at
at-append o [] zero = inl (refl, refl, refl)
at-append o [] (suc x) = inr refl
at-append o (y ∷ t) zero = inr refl
at-append o (y ∷ t) (suc x) = elim (at-append o t x) [
  | inl h ↦ inl (ap suc h.0, h.1, h.2)
  | inr h ↦ inr h
]

at-append_new : (o : Tile) (t : List Tile) → at (t ++ o ∷ []) (length t) ≡ o
unfolding at
at-append_new o [] = refl
at-append_new o (y ∷ t) = at-append_new o t

at-length : (t : List Tile) → at t (length t) ≡ vacant
unfolding at
at-length [] = refl
at-length (o ∷ t) = at-length t

at-put : (p : TileId) (o : Tile) (t : List Tile) → at (put p o t) p ≡ o
unfolding at put
at-put zero o [] = refl
at-put zero o (y ∷ t) = refl
at-put (suc p) o [] = at-put p o []
at-put (suc p) o (y ∷ t) = at-put p o t

at-put_ne : (p : TileId) (o : Tile) (t : List Tile) (x : TileId) → x ≢ p → at (put p o t) x ≡ at t x
unfolding at put
at-put_ne zero o [] zero ne = absurd (ne refl)
at-put_ne zero o [] (suc x) ne = refl
at-put_ne zero o (y ∷ t) zero ne = absurd (ne refl)
at-put_ne zero o (y ∷ t) (suc x) ne = refl
at-put_ne (suc p) o [] zero ne = refl
at-put_ne (suc p) o [] (suc x) ne = at-put_ne p o [] x (λ e. ne (ap suc e))
at-put_ne (suc p) o (y ∷ t) zero ne = refl
at-put_ne (suc p) o (y ∷ t) (suc x) ne = at-put_ne p o t x (λ e. ne (ap suc e))

pane_kept :
    (o : Tile) (t : List Tile) (x : TileId) (id : SessionId)
    → pane_of (at t x) ≡ some id
    → pane_of (at (t ++ o ∷ []) x) ≡ some id
unfolding pane_of
pane_kept o t x id h = elim (at-append o t x) [
  | inl e ↦ let bad : none ≡ some id = sym (ap pane_of e.2) ∙ h in cc
  | inr e ↦ ap pane_of e ∙ h
]

container_kept :
    (o : Tile) (t : List Tile) (x : TileId)
    → is_container (at t x) ≡ true
    → is_container (at (t ++ o ∷ []) x) ≡ true
unfolding is_container
container_kept o t x h = elim (at-append o t x) [
  | inl e ↦ let bad : false ≡ true = sym (ap is_container e.2) ∙ h in cc
  | inr e ↦ ap is_container e ∙ h
]

pane_new_or_old :
    (s : SessionId) (t : List Tile) (x : TileId) (id : SessionId)
    → pane_of (at (t ++ pane s ∷ []) x) ≡ some id
    → (x ≡ length t) ⊎ (pane_of (at t x) ≡ some id)
pane_new_or_old s t x id h = elim (at-append (pane s) t x) [
  | inl e ↦ inl e.0
  | inr e ↦ inr (sym (ap pane_of e) ∙ h)
]

no_new_pane :
    (t : List Tile) (x : TileId) (id : SessionId)
    → pane_of (at (t ++ container ∷ []) x) ≡ some id
    → pane_of (at t x) ≡ some id
unfolding pane_of
no_new_pane t x id h = elim (at-append container t x) [
  | inl e ↦ let bad : none ≡ some id = sym (ap pane_of e.1) ∙ h in cc
  | inr e ↦ sym (ap pane_of e) ∙ h
]

pane_is_leaf : (o : Tile) (id : SessionId) → pane_of o ≡ some id → ¬ (is_container o ≡ true)
unfolding pane_of is_container
pane_is_leaf vacant id h = λ c. cc
pane_is_leaf container id h = λ c. cc
pane_is_leaf (pane i) id h = λ c. cc

listed :
    (t : List Tile) (x : TileId) (id : SessionId)
    → pane_of (at t x) ≡ some id
    → any (eqb id) (all_panes t) ≡ true
unfolding all_panes at pane_of taken
listed [] x id h = cc
listed (vacant ∷ t) zero id h = cc
listed (container ∷ t) zero id h = cc
listed (pane i ∷ t) zero id h = let same : i ≡ id = cc in rw (same, (eqb_iff id id).1 refl) refl
listed (vacant ∷ t) (suc x) id h = listed t x id h
listed (container ∷ t) (suc x) id h = listed t x id h
listed (pane i ∷ t) (suc x) id h = ground (arith, listed t x id h)

taken_or_kept :
    (b : Bool) (p : TileId) (t : Slots) (x : TileId) (id : SessionId)
    → pane_of (at t.tiles x) ≡ some id
    → (any (eqb id) (take_out b p t).0 ≡ true) ⊎ (pane_of (at (take_out b p t).1.tiles x) ≡ some id)
unfolding take_out taken
taken_or_kept true p t x id h = inl (listed t.tiles x id h)
taken_or_kept false p t x id h = elim (Bool-cases (eqb x p)) [
  | inl same ↦
      let here : pane_of (at t.tiles p) ≡ some id =
        (ap (λ y. pane_of (at t.tiles y)) (sym ((eqb_iff x p).0 same))) ∙ h in
      inl (rw here (ground arith))
  | inr other ↦ inr (ap pane_of (at-put_ne p vacant t.tiles x (differ x p other)) ∙ h)
]

kept_only :
    (b : Bool) (p : TileId) (t : Slots) (x : TileId) (id : SessionId)
    → pane_of (at (take_out b p t).1.tiles x) ≡ some id
    → pane_of (at t.tiles x) ≡ some id
unfolding take_out pane_of at
kept_only true p t x id h = cc
kept_only false p t x id h = elim (Bool-cases (eqb x p)) [
  | inl same ↦
      let gone : pane_of (at (put p vacant t.tiles) x) ≡ none =
        ap (λ y. pane_of (at (put p vacant t.tiles) y)) ((eqb_iff x p).0 same)
        ∙ ap pane_of (at-put p vacant t.tiles) in
      cc
  | inr other ↦ sym (ap pane_of (at-put_ne p vacant t.tiles x (differ x p other))) ∙ h
]

-- The root, or below a root that is a container.
TopOrBelow : Slots → TileId → Type 0
TopOrBelow t x =
    (t.root ≡ some x) ⊎ ((r : TileId) × (t.root ≡ some r) × (is_container (at t.tiles r) ≡ true))

placed : (t : Slots) (x : TileId) → Reached positions Holds t x → TopOrBelow t x
unfolding TopOrBelow
placed t x (at_root _ e) = inl e
placed t x (below p _ r c) = elim (placed t p r) [ inl e ↦ inr (p, e, c) | inr h ↦ inr h ]

root_after : (b : Bool) (p : TileId) (t : Slots) → (take_out b p t).1.root ≡ t.root
unfolding take_out
root_after true p t = refl
root_after false p t = refl

still_reached :
    (b : Bool) (p : TileId) (t : Slots) (x : TileId) (id : SessionId)
    → is_top t.root p ≡ b
    → pane_of (at (take_out b p t).1.tiles x) ≡ some id
    → TopOrBelow t x
    → Reached positions Holds (take_out b p t).1 x
unfolding take_out TopOrBelow pane_of at is_top
still_reached true p t x id e h r = cc
still_reached false p t x id e h (inl top) = at_root x top
still_reached false p t x id e h (inr (r, top, c)) =
    let other : eqb r p ≡ false = rw top at e in
    below r x (at_root r top)
      (ap is_container (at-put_ne p vacant t.tiles r (differ r p other)) ∙ c)

root_takes_all :
    (b : Bool) (p : TileId) (t : Slots) (x : TileId)
    → is_top t.root p ≡ b
    → t.root ≡ some p
    → pane_of (at (take_out b p t).1.tiles x) ≡ none
unfolding take_out pane_of at is_top
root_takes_all true p t x e h = refl
root_takes_all false p t x e h =
    let bad : eqb p p ≡ false = rw h at e in let good = (eqb_iff p p).1 refl in cc

put_elsewhere :
    (p : TileId) (t : Slots) (q : TileId)
    → q ≢ p
    → is_container (at t.tiles q) ≡ true
    → is_container (at (put p container t.tiles) q) ≡ true
put_elsewhere p t q ne h = ap is_container (at-put_ne p container t.tiles q ne) ∙ h

put_container : (p : TileId) (t : Slots) → is_container (at (put p container t.tiles) p) ≡ true
unfolding is_container
put_container p t = ap is_container (at-put p container t.tiles)

put_no_pane : (p : TileId) (t : Slots) → pane_of (at (put p container t.tiles) p) ≡ none
unfolding pane_of
put_no_pane p t = ap pane_of (at-put p container t.tiles)

parentless :
    (t : Slots) (p x : TileId)
    → none ≡ some p
    → Reached positions Holds t x
    → Reached positions Holds t p
parentless t p x e r = cc

inserted_there :
    (s : SessionId) (t : Slots) → pane_of (at (t.tiles ++ pane s ∷ []) (length t.tiles)) ≡ some s
unfolding pane_of
inserted_there s t = ap pane_of (at-append_new (pane s) t.tiles)

nothing_there : (t : Slots) → pane_of (at t.tiles (length t.tiles)) ≡ none
unfolding pane_of
nothing_there t = ap pane_of (at-length t.tiles)

tabs_there : (t : Slots) → is_container (at (t.tiles ++ container ∷ []) (length t.tiles)) ≡ true
unfolding is_container
tabs_there t = ap is_container (at-append_new container t.tiles)

abbrev positions_keeps : Keeps positions
positions_keeps = record {
  inserted = λ s t. inserted_there s t;
  fresh = λ s t. nothing_there t;
  insert_pane_keeps = λ s t x id h. pane_kept (pane s) t.tiles x id h;
  insert_tab_tile_keeps = λ xs t x id h. pane_kept container t.tiles x id h;
  set_root_keeps = λ o t x. refl;
  add_child_keeps = λ p c t x. refl;
  set_active_keeps = λ p c t x. refl;
  insert_tabs_keeps = λ p xs a t x ne. ap pane_of (at-put_ne p container t.tiles x ne);
  insert_linear_keeps = λ p dir xs t x ne. ap pane_of (at-put_ne p container t.tiles x ne);
  removed = λ p t x id h. taken_or_kept (is_top t.root p) p t x id h;
  Child = Holds;
  leaf = λ t p c id h. pane_is_leaf (at t.tiles p) id h;
  parent_reached = parentless;
  insert_pane_root = λ s t. refl;
  insert_pane_child = λ s t p c h. container_kept (pane s) t.tiles p h;
  insert_pane_only = λ s t x id h. pane_new_or_old s t.tiles x id h;
  insert_tab_tile_root = λ xs t. refl;
  insert_tab_tile_child = λ xs t p c h. container_kept container t.tiles p h;
  insert_tab_tile_new = λ xs t c h. tabs_there t;
  insert_tab_tile_only = λ xs t x id h. no_new_pane t.tiles x id h;
  set_root_root = λ o t. refl;
  set_root_child = λ o t p c h. h;
  add_child_root = λ p c t. refl;
  add_child_child = λ p c t q d h. h;
  add_child_new = λ p c t h. h;
  set_active_root = λ p c t. refl;
  set_active_child = λ p c t q d h. h;
  insert_tabs_root = λ p xs a t. refl;
  insert_tabs_child = λ p xs a t q c ne h. put_elsewhere p t q ne h;
  insert_tabs_new = λ p xs a t c h. put_container p t;
  insert_tabs_over = λ p xs a t. put_no_pane p t;
  insert_linear_root = λ p dir xs t. refl;
  insert_linear_child = λ p dir xs t q c ne h. put_elsewhere p t q ne h;
  insert_linear_new = λ p dir xs t c h. put_container p t;
  insert_linear_over = λ p dir xs t. put_no_pane p t;
  removed_only = λ p t x id h. kept_only (is_top t.root p) p t x id h;
  removed_reached = λ p t x id h r. still_reached (is_top t.root p) p t x id refl h (placed t x r);
  removed_root = λ p t x e r. root_takes_all (is_top t.root p) p t x refl e;
}

abbrev shell : SessionSpec
shell = record {
  id = 1;
  name = codes "shell";
  folder = [];
  kind = local_shell (record { shell = none; working_directory = none; env = [] });
  on_exit = prompt;
}

abbrev new_pane : LivePane
new_pane = record {
  forwards = [];
  disconnected_now = false;
  finished = false;
  modem = none;
  prompts = [];
  control = [];
}

abbrev empty : Window Slots
empty = record {
  tree = record { root = none; tiles = [] };
  live = [];
  sources = [];
  library = none;
  focused = none;
  confirm_close = none;
  last_error = none;
}

abbrev spawn : SessionSpec → Option Text
spawn spec = none

-- The spawner fails for the second pane.
abbrev busy : SessionSpec → Option Text
busy spec = some (codes "busy")

abbrev session : List Step
session =
    (spawn, opens 10 (adhoc shell))
    ∷ (spawn, splits 11 0 right)
    ∷ (busy, opens 12 (adhoc shell))
    ∷ (spawn, opens 13 (adhoc shell))
    ∷ (spawn, restarts 10)
    ∷ (spawn, closes 2)
    ∷ []

left_open :
    (changes positions new_pane session empty).tree.tiles ≡ container ∷ pane 10 ∷ vacant ∷ []
unfolding changes open_in_active_tile close_tile restart_pane apply_split open_source attach_pane
    split_tile at put pane_of take_out is_top is_container
left_open = refl

nothing_reached :
    (x : TileId) (id : SessionId)
    → pane_of (at [] x) ≡ some id
    → Reached positions Holds empty.tree x
unfolding at pane_of
nothing_reached x id h = cc

changes-Sound_example : Sound positions positions_keeps (changes positions new_pane session empty)
changes-Sound_example =
    changes-Sound positions positions_keeps new_pane session empty
      (λ id. refl, λ id h. cc, nothing_reached)
