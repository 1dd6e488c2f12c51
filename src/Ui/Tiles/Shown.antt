-- ===== src/Ui/Tiles/Shown.antt =====
-- The panes that a tree shows, before and after the layout changes.
use poly_term.Prelude.{
  ℕ, true, false, ◌≡◌, ◌≢◌, refl, sym, ◌∙◌, ◌⊎◌, inl, inr, Option, none, some, List, [], ◌∷◌, any,
  eqb, Bool-cases, eqb_iff,
}
use poly_term.Core.Session.{SessionId}
use poly_term.Ui.Recipients.{TileId}
use poly_term.Ui.Tiles.{
  SplitDir, Tree, add_active, new_root, attach_leaf, attach_pane, wrap, beside, add_tab_beside,
  split_tile,
}

-- A tile that the layout reaches: the root, or a child of a tile that it reaches.
pub data Reached {T : Type 0} (tree : Tree T) (Child : T → TileId → TileId → Type 0) (t : T)
    : TileId → Type 0 where
  at_root : (x : TileId) → tree.root t ≡ some x → Reached tree Child t x
  below : (p x : TileId) → Reached tree Child t p → Child t p x → Reached tree Child t x

-- What `egui_tiles` does with its map of tiles: a new tile gets a fresh id, a tile that is
-- overwritten is the only one to change, a container has the children it is made with, and what is removed is
-- reported.
pub record Keeps {T : Type 0} (tree : Tree T) : Type 1 where
  pub inserted :
      (s : SessionId) (t : T)
      → tree.get_pane (tree.insert_pane s t).1 (tree.insert_pane s t).0 ≡ some s
  pub fresh : (s : SessionId) (t : T) → tree.get_pane t (tree.insert_pane s t).0 ≡ none
  pub insert_pane_keeps :
      (s : SessionId) (t : T) (x : TileId) (id : SessionId)
      → tree.get_pane t x ≡ some id
      → tree.get_pane (tree.insert_pane s t).1 x ≡ some id
  pub insert_tab_tile_keeps :
      (xs : List TileId) (t : T) (x : TileId) (id : SessionId)
      → tree.get_pane t x ≡ some id
      → tree.get_pane (tree.insert_tab_tile xs t).1 x ≡ some id
  pub set_root_keeps :
      (o : Option TileId) (t : T) (x : TileId)
      → tree.get_pane (tree.set_root o t) x ≡ tree.get_pane t x
  pub add_child_keeps :
      (p c : TileId) (t : T) (x : TileId)
      → tree.get_pane (tree.add_child p c t) x ≡ tree.get_pane t x
  pub set_active_keeps :
      (p c : TileId) (t : T) (x : TileId)
      → tree.get_pane (tree.set_active p c t) x ≡ tree.get_pane t x
  pub insert_tabs_keeps :
      (p : TileId) (xs : List TileId) (a : TileId) (t : T) (x : TileId)
      → x ≢ p
      → tree.get_pane (tree.insert_tabs p xs a t) x ≡ tree.get_pane t x
  pub insert_linear_keeps :
      (p : TileId) (dir : SplitDir) (xs : List TileId) (t : T) (x : TileId)
      → x ≢ p
      → tree.get_pane (tree.insert_linear p dir xs t) x ≡ tree.get_pane t x
  -- A tile is a child of a container.
  pub Child : T → TileId → TileId → Type 0
  -- A pane has no children.
  pub leaf : (t : T) (p c : TileId) (id : SessionId) → tree.get_pane t p ≡ some id → ¬ Child t p c
  pub parent_reached :
      (t : T) (p x : TileId)
      → tree.parent_of t x ≡ some p
      → Reached tree Child t x
      → Reached tree Child t p
  pub insert_pane_root : (s : SessionId) (t : T) → tree.root (tree.insert_pane s t).1 ≡ tree.root t
  pub insert_pane_child :
      (s : SessionId) (t : T) (p c : TileId) → Child t p c → Child (tree.insert_pane s t).1 p c
  pub insert_pane_only :
      (s : SessionId) (t : T) (x : TileId) (id : SessionId)
      → tree.get_pane (tree.insert_pane s t).1 x ≡ some id
      → (x ≡ (tree.insert_pane s t).0) ⊎ (tree.get_pane t x ≡ some id)
  pub insert_tab_tile_root :
      (xs : List TileId) (t : T) → tree.root (tree.insert_tab_tile xs t).1 ≡ tree.root t
  pub insert_tab_tile_child :
      (xs : List TileId) (t : T) (p c : TileId)
      → Child t p c
      → Child (tree.insert_tab_tile xs t).1 p c
  pub insert_tab_tile_new :
      (xs : List TileId) (t : T) (c : TileId)
      → any (eqb c) xs ≡ true
      → Child (tree.insert_tab_tile xs t).1 (tree.insert_tab_tile xs t).0 c
  pub insert_tab_tile_only :
      (xs : List TileId) (t : T) (x : TileId) (id : SessionId)
      → tree.get_pane (tree.insert_tab_tile xs t).1 x ≡ some id
      → tree.get_pane t x ≡ some id
  pub set_root_root : (o : Option TileId) (t : T) → tree.root (tree.set_root o t) ≡ o
  pub set_root_child :
      (o : Option TileId) (t : T) (p c : TileId) → Child t p c → Child (tree.set_root o t) p c
  pub add_child_root : (p c : TileId) (t : T) → tree.root (tree.add_child p c t) ≡ tree.root t
  pub add_child_child :
      (p c : TileId) (t : T) (q d : TileId) → Child t q d → Child (tree.add_child p c t) q d
  pub add_child_new :
      (p c : TileId) (t : T) → tree.is_tabs t p ≡ true → Child (tree.add_child p c t) p c
  pub set_active_root : (p c : TileId) (t : T) → tree.root (tree.set_active p c t) ≡ tree.root t
  pub set_active_child :
      (p c : TileId) (t : T) (q d : TileId) → Child t q d → Child (tree.set_active p c t) q d
  pub insert_tabs_root :
      (p : TileId) (xs : List TileId) (a : TileId) (t : T)
      → tree.root (tree.insert_tabs p xs a t) ≡ tree.root t
  pub insert_tabs_child :
      (p : TileId) (xs : List TileId) (a : TileId) (t : T) (q c : TileId)
      → q ≢ p
      → Child t q c
      → Child (tree.insert_tabs p xs a t) q c
  pub insert_tabs_new :
      (p : TileId) (xs : List TileId) (a : TileId) (t : T) (c : TileId)
      → any (eqb c) xs ≡ true
      → Child (tree.insert_tabs p xs a t) p c
  pub insert_tabs_over :
      (p : TileId) (xs : List TileId) (a : TileId) (t : T)
      → tree.get_pane (tree.insert_tabs p xs a t) p ≡ none
  pub insert_linear_root :
      (p : TileId) (dir : SplitDir) (xs : List TileId) (t : T)
      → tree.root (tree.insert_linear p dir xs t) ≡ tree.root t
  pub insert_linear_child :
      (p : TileId) (dir : SplitDir) (xs : List TileId) (t : T) (q c : TileId)
      → q ≢ p
      → Child t q c
      → Child (tree.insert_linear p dir xs t) q c
  pub insert_linear_new :
      (p : TileId) (dir : SplitDir) (xs : List TileId) (t : T) (c : TileId)
      → any (eqb c) xs ≡ true
      → Child (tree.insert_linear p dir xs t) p c
  pub insert_linear_over :
      (p : TileId) (dir : SplitDir) (xs : List TileId) (t : T)
      → tree.get_pane (tree.insert_linear p dir xs t) p ≡ none
  pub removed_only :
      (p : TileId) (t : T) (x : TileId) (id : SessionId)
      → tree.get_pane (tree.remove_recursively p t).1 x ≡ some id
      → tree.get_pane t x ≡ some id
  -- What is left and was reached still is.
  pub removed_reached :
      (p : TileId) (t : T) (x : TileId) (id : SessionId)
      → tree.get_pane (tree.remove_recursively p t).1 x ≡ some id
      → Reached tree Child t x
      → Reached tree Child (tree.remove_recursively p t).1 x
  -- With the root goes all that was reached.
  pub removed_root :
      (p : TileId) (t : T) (x : TileId)
      → tree.root t ≡ some p
      → Reached tree Child t x
      → tree.get_pane (tree.remove_recursively p t).1 x ≡ none
  pub removed :
      (p : TileId) (t : T) (x : TileId) (id : SessionId)
      → tree.get_pane t x ≡ some id
      → (any (eqb id) (tree.remove_recursively p t).0 ≡ true)
        ⊎ (tree.get_pane (tree.remove_recursively p t).1 x ≡ some id)

pub differ : (x p : ℕ) → eqb x p ≡ false → x ≢ p
differ x p h same = let bad : true ≡ false = sym ((eqb_iff x p).1 same) ∙ h in cc

module _ {T : Type 0} (tree : Tree T) (keeps : Keeps tree) where
  -- A pane shows the session.
  abbrev pub Shows : T → SessionId → Type 0
  Shows t id = (x : TileId) × (tree.get_pane t x ≡ some id)

  abbrev pub ShowsAll : T → T → Type 0
  ShowsAll t t' = (id : SessionId) → Shows t id → Shows t' id

  insert_pane-ShowsAll : (s : SessionId) (t : T) → ShowsAll t (tree.insert_pane s t).1
  insert_pane-ShowsAll s t id (x, h) = (x, keeps.insert_pane_keeps s t x id h)

  add_active-ShowsAll : (p c : TileId) (t : T) → ShowsAll t (add_active tree p c t)
  unfolding add_active
  add_active-ShowsAll p c t id (x, h) =
      (x, keeps.set_active_keeps p c (tree.add_child p c t) x ∙ keeps.add_child_keeps p c t x ∙ h)

  new_root-ShowsAll : (p c : TileId) (t : T) → ShowsAll t (new_root tree p c t)
  unfolding new_root
  new_root-ShowsAll p c t id (x, h) =
      let made = tree.insert_tab_tile (p ∷ c ∷ []) t in
      (
        x,
        keeps.set_root_keeps (some made.0) (tree.set_active made.0 c made.1) x
            ∙ keeps.set_active_keeps made.0 c made.1 x
            ∙ keeps.insert_tab_tile_keeps (p ∷ c ∷ []) t x id h,
      )

  attach_leaf-ShowsAll :
      (o : Option TileId) (leaf : TileId) (t : T) → ShowsAll t (attach_leaf tree o leaf t)
  unfolding attach_leaf
  attach_leaf-ShowsAll none leaf t id (x, h) = (x, keeps.set_root_keeps (some leaf) t x ∙ h)
  attach_leaf-ShowsAll (some root) leaf t id h = elim (Bool-cases (tree.is_tabs t root)) [
    | inl e ↦ rw e (add_active-ShowsAll root leaf t id h)
    | inr e ↦ rw e (new_root-ShowsAll root leaf t id h)
  ]

  -- Attaching a pane shows it, beside what was shown.
  pub attach_pane-Shows :
      (s : SessionId) (t : T)
      → Shows (attach_pane tree s t).1 s × ShowsAll t (attach_pane tree s t).1
  unfolding attach_pane
  attach_pane-Shows s t =
      let made = tree.insert_pane s t in
      let kept = attach_leaf-ShowsAll (tree.root made.1) made.0 made.1 in
      (kept s (made.0, keeps.inserted s t), λ id h. kept id (insert_pane-ShowsAll s t id h))

  -- A pane whose tile is overwritten is shown by the tile it moved to.
  moved_shows :
      (t : T) (p : TileId) (existing : SessionId) (t' : T)
      → tree.get_pane t p ≡ some existing
      → ((x : TileId) (id : SessionId)
          → x ≢ p
          → tree.get_pane (tree.insert_pane existing t).1 x ≡ some id
          → tree.get_pane t' x ≡ some id)
      → ShowsAll t t'
  moved_shows t p existing t' e rest id (x, h) = elim (Bool-cases (eqb x p)) [
    | inl same ↦
        let at_p : x ≡ p = (eqb_iff x p).0 same in
        let shown : some id ≡ some existing = sym h ∙ (rw at_p e) in
        (
          (tree.insert_pane existing t).0,
          rest (tree.insert_pane existing t).0 id (λ at_x. cc (keeps.fresh existing t))
              (keeps.inserted existing t ∙ sym shown),
        )
    | inr other ↦ (x, rest x id (differ x p other) (keeps.insert_pane_keeps existing t x id h))
  ]

  wrap-ShowsAll :
      (focused new_leaf : TileId) (o : Option SessionId) (t : T)
      → tree.get_pane t focused ≡ o
      → ShowsAll t (wrap tree focused new_leaf o t)
  unfolding wrap
  wrap-ShowsAll focused new_leaf none t e = λ id h. h
  wrap-ShowsAll focused new_leaf (some i) t e =
      let made = tree.insert_pane i t in
      moved_shows t focused i _ e (λ x id ne h.
        keeps.insert_tabs_keeps focused (made.0 ∷ new_leaf ∷ []) new_leaf made.1 x ne ∙ h)

  beside-ShowsAll :
      (o : Option TileId) (focused new_leaf : TileId) (t : T)
      → ShowsAll t (beside tree o focused new_leaf t)
  unfolding beside
  beside-ShowsAll none focused new_leaf t id h =
      wrap-ShowsAll focused new_leaf (tree.get_pane t focused) t refl id h
  beside-ShowsAll (some parent) focused new_leaf t id h =
      elim (Bool-cases (tree.is_tabs t parent)) [
        | inl e ↦ rw e (add_active-ShowsAll parent new_leaf t id h)
        | inr e ↦ rw e (wrap-ShowsAll focused new_leaf (tree.get_pane t focused) t refl id h)
      ]

  -- A tab added beside a pane is shown, beside what was shown.
  pub add_tab_beside-Shows :
      (focused : TileId) (s : SessionId) (t : T)
      → Shows (add_tab_beside tree focused s t).1 s × ShowsAll t (add_tab_beside tree focused s t).1
  unfolding add_tab_beside
  add_tab_beside-Shows focused s t =
      let made = tree.insert_pane s t in
      let kept = beside-ShowsAll (tree.parent_of made.1 focused) focused made.0 made.1 in
      (kept s (made.0, keeps.inserted s t), λ id h. kept id (insert_pane-ShowsAll s t id h))

  -- Splitting a pane shows both halves, beside what was shown.
  pub split_tile-Shows :
      (existing new : SessionId) (p : TileId) (dir : SplitDir) (t : T)
      → tree.get_pane t p ≡ some existing
      → Shows (split_tile tree existing new p dir t).1 new
        × ShowsAll t (split_tile tree existing new p dir t).1
  unfolding split_tile
  split_tile-Shows existing new p dir t e =
      let moved = tree.insert_pane existing t in
      let made = tree.insert_pane new moved.1 in
      let still = keeps.insert_pane_keeps existing t p existing e in
      (
        (
          made.0,
          keeps.insert_linear_keeps p dir (moved.0 ∷ made.0 ∷ []) made.1 made.0
                (λ at_p. cc (keeps.fresh new moved.1, still))
              ∙ keeps.inserted new moved.1,
        ),
        moved_shows t p existing _ e (λ x id ne h.
            keeps.insert_linear_keeps p dir (moved.0 ∷ made.0 ∷ []) made.1 x ne
            ∙ keeps.insert_pane_keeps new moved.1 x id h),
      )
