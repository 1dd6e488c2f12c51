-- ===== src/Ui/Recipients/Walk.antt =====
-- crates/polyterm-ui/src/app.rs: the two walks down the tree of tiles.
use poly_term.Prelude.{
  ℕ, zero, suc, ◌<◌, ◌≡◌, refl, subst, ◌⊎◌, inl, inr, Bool, true, ◌||◌, Option, none, some, List,
  [], ◌∷◌, ◌++◌, arith, eqb, eqb_iff, any, Bool-cases,
}
use poly_term.Core.Session.{SessionId}
use poly_term.Ui.Recipients.{
  TileId, Tile, pane, container, collect_all, collect_tile, collect_session_ids, contains_below,
  subtree_contains,
}

pub data In {ℓ} {A : Type ℓ} : A → List A → Type ℓ where
  head : (a : A) (xs : List A) → In a (a ∷ xs)
  tail : {a : A} (x : A) {xs : List A} → In a xs → In a (x ∷ xs)

In-append-left {ℓ} : {A : Type ℓ} {a : A} {xs : List A} (ys : List A) → In a xs → In a (xs ++ ys)
In-append-left ys (head a xs) = head a (xs ++ ys)
In-append-left ys (tail x h) = tail x (In-append-left ys h)

In-append-right {ℓ} : {A : Type ℓ} {a : A} (xs : List A) {ys : List A} → In a ys → In a (xs ++ ys)
In-append-right [] h = h
In-append-right (x ∷ xs) h = tail x (In-append-right xs h)

In-append {ℓ} : {A : Type ℓ} (a : A) (xs ys : List A) → In a (xs ++ ys) → In a xs ⊎ In a ys
In-append a [] ys h = inr h
In-append a (_ ∷ xs) ys (head _ _) = inl (head a xs)
In-append a (x ∷ xs) ys (tail _ h) = elim (In-append a xs ys h) [
  | inl l ↦ inl (tail x l)
  | inr r ↦ inr r
]

or-true : (a b : Bool) → b ≡ true → (a || b) ≡ true
or-true a b e = ground arith

module _ (tiles : TileId → Option Tile) where
  -- A tile at or below another.
  pub data Below : TileId → TileId → Type 0 where
    here : (t : TileId) → Below t t
    down :
        (p : TileId) (children : List TileId) {c t : TileId}
        → tiles p ≡ some (container children)
        → In c children
        → Below c t
        → Below p t

  -- The session of a pane at or below a tile.
  abbrev pub Shows : TileId → SessionId → Type 0
  Shows root session = (t : TileId) × Below root t × (tiles t ≡ some (pane session))

  collect_all_sound :
      (f : TileId → List SessionId) (session : SessionId)
      → ((c : TileId) → In session (f c) → Shows c session)
      → (children : List TileId) → In session (collect_all tiles f children)
      → (c : TileId) × In c children × Shows c session
  collect_all_sound f session ih [] h = elim h [ ]
  collect_all_sound f session ih (c ∷ cs) h = elim (In-append session (f c) _ h) [
    | inl l ↦ (c, head c cs, ih c l)
    | inr r ↦ let (c', i, s) = collect_all_sound f session ih cs r in (c', tail c i, s)
  ]

  collect_tile_sound :
      (f : TileId → List SessionId) (session : SessionId)
      → ((c : TileId) → In session (f c) → Shows c session)
      → (root : TileId) (o : Option Tile) → tiles root ≡ o
      → In session (collect_tile tiles f o)
      → Shows root session
  collect_tile_sound f session ih root none e h = elim h [ ]
  collect_tile_sound f _ ih root (some (pane s)) e (head _ _) = (root, here root, e)
  collect_tile_sound f session ih root (some (pane s)) e (tail _ none_left) = elim none_left [ ]
  collect_tile_sound f session ih root (some (container cs)) e h =
      let (c, i, (t, below, shown)) = collect_all_sound f session ih cs h in
      (t, down root cs e i below, shown)

  pub collect_sound :
      (fuel : ℕ) (root : TileId) (session : SessionId)
      → In session (collect_session_ids tiles fuel root)
      → Shows root session
  unfolding collect_session_ids
  collect_sound zero root session h = elim h [ ]
  collect_sound (suc fuel) root session h =
      collect_tile_sound (λ c. collect_session_ids tiles fuel c) session
        (λ c i. collect_sound fuel c session i) root (tiles root) refl h

  collect_all_complete :
      (f : TileId → List SessionId) (session : SessionId) (c : TileId) (children : List TileId)
      → In c children
      → In session (f c)
      → In session (collect_all tiles f children)
  collect_all_complete f session _ _ (head c cs) h = In-append-left _ h
  collect_all_complete f session c _ (tail x {xs = cs} i) h =
      In-append-right (f x) (collect_all_complete f session c cs i h)

  any_sound :
      (f : TileId → Bool) (children : List TileId)
      → any f children ≡ true
      → (c : TileId) × In c children × (f c ≡ true)
  any_sound f [] e = cc
  any_sound f (c ∷ cs) e = elim (Bool-cases (f c)) [
    | inl t ↦ (c, head c cs, t)
    | inr n ↦ let (c', i, t) = any_sound f cs (ground arith) in (c', tail c i, t)
  ]

  any_complete :
      (f : TileId → Bool) (c : TileId) (children : List TileId)
      → In c children
      → f c ≡ true
      → any f children ≡ true
  any_complete f _ _ (head c cs) e = rw e refl
  any_complete f c _ (tail x {xs = cs} i) e = let rest = any_complete f c cs i e in ground arith

  contains_below_sound :
      (f : TileId → Bool) (target : TileId)
      → ((c : TileId) → f c ≡ true → Below c target)
      → (root : TileId) (o : Option Tile) → tiles root ≡ o
      → contains_below tiles f o ≡ true
      → Below root target
  contains_below_sound f target ih root none e h = cc
  contains_below_sound f target ih root (some (pane s)) e h = cc
  contains_below_sound f target ih root (some (container cs)) e h =
      let (c, i, t) = any_sound f cs h in down root cs e i (ih c t)

  at_root : (root target : TileId) → eqb root target ≡ true → Below root target
  at_root root target e = subst (λ t. Below root t) ((eqb_iff root target).0 e) (here root)

  pub contains_sound :
      (fuel : ℕ) (root target : TileId)
      → subtree_contains tiles fuel root target ≡ true
      → Below root target
  unfolding subtree_contains
  contains_sound zero root target e = at_root root target e
  contains_sound (suc fuel) root target e = elim (Bool-cases (eqb root target)) [
    | inl same ↦ at_root root target same
    | inr other ↦
        contains_below_sound (λ c. subtree_contains tiles fuel c target) target
          (λ c h. contains_sound fuel c target h) root (tiles root) refl (rw (← e, other) refl)
  ]

  -- The tree is finite: every tile has a height above those of its children.
  abbrev pub Heights : (TileId → ℕ) → Type 0
  Heights rank =
      (p : TileId) (children : List TileId)
      → tiles p ≡ some (container children)
      → (c : TileId) → In c children
      → rank c < rank p

  module _ (rank : TileId → ℕ) (finite : Heights rank) where
    pub collect_complete :
        (fuel : ℕ) (root t : TileId) (session : SessionId)
        → rank root < fuel
        → Below root t
        → tiles t ≡ some (pane session)
        → In session (collect_session_ids tiles fuel root)
    unfolding collect_session_ids
    collect_complete zero root t session r b e = absurd (omega arith)
    collect_complete (suc fuel) _ _ session r (here t) e = rw e (head session [])
    collect_complete (suc fuel) _ t session r (down p cs {c = c} at i b) e = rw at (
        collect_all_complete (λ c. collect_session_ids tiles fuel c) session c cs i
          (collect_complete fuel c t session (omega (arith, finite p cs at c i)) b e))

    pub contains_complete :
        (fuel : ℕ) (root t : TileId)
        → rank root < fuel
        → Below root t
        → subtree_contains tiles fuel root t ≡ true
    unfolding subtree_contains
    contains_complete zero root t r b = absurd (omega arith)
    contains_complete (suc fuel) _ _ r (here t) = rw ((eqb_iff t t).1 refl) refl
    contains_complete (suc fuel) _ t r (down p cs {c = c} at i b) =
        let inside =
          any_complete (λ c. subtree_contains tiles fuel c t) c cs i
            (contains_complete fuel c t (omega (arith, finite p cs at c i)) b) in
        or-true (eqb p t) _ (rw at inside)
