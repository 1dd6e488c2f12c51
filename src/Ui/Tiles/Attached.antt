-- ===== src/Ui/Tiles/Attached.antt =====
-- Every pane of the map of tiles is reached by the layout.
use poly_term.Prelude.{
  ◌≡◌, ◌≢◌, refl, sym, ap, ◌∙◌, ◌⊎◌, inl, inr, Bool, true, false, ◌||◌, Option, none, some, List,
  [], ◌∷◌, any, eqb, eqb_iff, Bool-cases,
}
use poly_term.Core.Session.{SessionId}
use poly_term.Ui.Recipients.{TileId}
use poly_term.Ui.Tiles.{
  SplitDir, Tree, add_active, new_root, attach_leaf, attach_pane, wrap, beside, add_tab_beside,
  split_tile,
}
use poly_term.Ui.Tiles.Shown.{Reached, at_root, below, Keeps, differ}

eqb_refl : (x : TileId) → eqb x x ≡ true
eqb_refl x = (eqb_iff x x).1 refl

behind : (a b : Bool) → b ≡ true → (a || b) ≡ true
behind true b h = refl
behind false b h = h

swapped : (a b : Bool) → (a || (b || false)) ≡ true → (b || (a || false)) ≡ true
swapped true true h = refl
swapped true false h = refl
swapped false true h = refl
swapped false false h = h

only_one : (x leaf : TileId) → any (eqb x) (leaf ∷ []) ≡ true → x ≡ leaf
only_one x leaf h = elim (Bool-cases (eqb x leaf)) [
  | inl e ↦ (eqb_iff x leaf).0 e
  | inr e ↦ let bad : false ≡ true = rw e at h in cc
]

second_of : (a b : TileId) → any (eqb b) (a ∷ b ∷ []) ≡ true
second_of a b = behind (eqb b a) (any (eqb b) (b ∷ [])) (rw (eqb_refl b) refl)

module _ {T : Type 0} (tree : Tree T) (keeps : Keeps tree) where
  abbrev pub InLayout : T → TileId → Type 0
  InLayout t x = Reached tree keeps.Child t x

  -- The panes that the layout does not reach are among the given ones.
  abbrev pub Loose : T → List TileId → Type 0
  Loose t xs =
      (x : TileId) (id : SessionId)
      → tree.get_pane t x ≡ some id
      → (any (eqb x) xs ≡ true) ⊎ InLayout t x

  -- The layout has every pane.
  abbrev pub Attached : T → Type 0
  Attached t = (x : TileId) (id : SessionId) → tree.get_pane t x ≡ some id → InLayout t x

  abbrev Grows : T → T → Type 0
  Grows t t' = (p c : TileId) → keeps.Child t p c → keeps.Child t' p c

  reached-Grows :
      (t t' : T)
      → tree.root t' ≡ tree.root t
      → Grows t t'
      → (x : TileId) → InLayout t x
      → InLayout t' x
  reached-Grows t t' root grows x (at_root _ e) = at_root x (root ∙ e)
  reached-Grows t t' root grows x (below p _ r c) =
      below p x (reached-Grows t t' root grows p r) (grows p x c)

  inserted_reached :
      (s : SessionId) (t : T) (x : TileId) → InLayout t x → InLayout (tree.insert_pane s t).1 x
  inserted_reached s t x r =
      reached-Grows t (tree.insert_pane s t).1 (keeps.insert_pane_root s t)
        (keeps.insert_pane_child s t) x r

  inserted-Loose :
      (s : SessionId) (t : T) (xs : List TileId)
      → Loose t xs
      → Loose (tree.insert_pane s t).1 ((tree.insert_pane s t).0 ∷ xs)
  inserted-Loose s t xs loose x id h = elim (keeps.insert_pane_only s t x id h) [
    | inl same ↦ inl (rw (same, eqb_refl (tree.insert_pane s t).0) refl)
    | inr old ↦ elim (loose x id old) [
      | inl hit ↦ inl (behind (eqb x (tree.insert_pane s t).0) (any (eqb x) xs) hit)
      | inr r ↦ inr (inserted_reached s t x r)
    ]
  ]

  Attached-Loose : (t : T) → Attached t → Loose t []
  Attached-Loose t h x id e = inr (h x id e)

  -- Once the one loose pane is reached, every pane is.
  tied :
      (t t' : T) (leaf : TileId)
      → Loose t (leaf ∷ [])
      → ((x : TileId) → InLayout t x → InLayout t' x)
      → InLayout t' leaf
      → ((x : TileId) (id : SessionId) → tree.get_pane t' x ≡ some id → tree.get_pane t x ≡ some id)
      → Attached t'
  tied t t' leaf loose keep there only x id h = elim (loose x id (only x id h)) [
    | inl hit ↦ rw (only_one x leaf hit) there
    | inr r ↦ keep x r
  ]

  -- A pane that is reached is overwritten by a container of all the loose ones.
  overwritten :
      (t t' : T) (p : TileId) (i : SessionId) (xs : List TileId)
      → Loose t xs
      → tree.get_pane t p ≡ some i
      → InLayout t p
      → tree.root t' ≡ tree.root t
      → ((q c : TileId) → q ≢ p → keeps.Child t q c → keeps.Child t' q c)
      → ((c : TileId) → any (eqb c) xs ≡ true → keeps.Child t' p c)
      → tree.get_pane t' p ≡ none
      → ((x : TileId) → x ≢ p → tree.get_pane t' x ≡ tree.get_pane t x)
      → Attached t'
  overwritten t t' p i xs loose here r root others new over same x id h =
      elim (Bool-cases (eqb x p)) [
        | inl e ↦
            let at_p : x ≡ p = (eqb_iff x p).0 e in
            let bad : none ≡ some id = sym over ∙ (ap (tree.get_pane t') (sym at_p) ∙ h) in cc
        | inr e ↦ elim (loose x id (sym (same x (differ x p e)) ∙ h)) [
          | inl hit ↦ below p x (kept_reached p r) (new x hit)
          | inr still ↦ kept_reached x still
        ]
      ]
    where
      kept_reached : (y : TileId) → InLayout t y → InLayout t' y
      kept_reached y r' =
          reached-Grows t t' root
            (λ q c child. others q c (λ at_p. keeps.leaf t q c i (rw at_p here) child) child) y r'

  -- Without a root nothing is reached.
  rootless : (t : T) (x : TileId) {A : Type 0} → tree.root t ≡ none → InLayout t x → A
  rootless t x e (at_root _ h) = let bad : none ≡ some x = sym e ∙ h in cc
  rootless t x e (below p _ r c) = rootless t p e r

  -- What was reached from a root that now is reached itself.
  under_new_root :
      (t t' : T) (root : TileId)
      → tree.root t ≡ some root
      → InLayout t' root
      → Grows t t'
      → (x : TileId) → InLayout t x
      → InLayout t' x
  under_new_root t t' root is_root here grows x (at_root _ e) =
      let same : some root ≡ some x = sym is_root ∙ e in
      let at_x : root ≡ x = cc in rw (← at_x) here
  under_new_root t t' root is_root here grows x (below p _ r c) =
      below p x (under_new_root t t' root is_root here grows p r) (grows p x c)

  add_active-Attached :
      (p leaf : TileId) (t : T)
      → tree.is_tabs t p ≡ true
      → InLayout t p
      → Loose t (leaf ∷ [])
      → Attached (add_active tree p leaf t)
  unfolding add_active
  add_active-Attached p leaf t tabs r loose =
      let t1 = tree.add_child p leaf t in
      let t2 = tree.set_active p leaf t1 in
      let keep : (x : TileId) → InLayout t x → InLayout t2 x =
        reached-Grows t t2 (keeps.set_active_root p leaf t1 ∙ keeps.add_child_root p leaf t)
          (λ q c child.
            keeps.set_active_child p leaf t1 q c (keeps.add_child_child p leaf t q c child)) in
      tied t t2 leaf loose keep
        (below p leaf (keep p r)
          (keeps.set_active_child p leaf t1 p leaf (keeps.add_child_new p leaf t tabs)))
        (λ x id h.
          sym (keeps.add_child_keeps p leaf t x) ∙ sym (keeps.set_active_keeps p leaf t1 x) ∙ h)

  new_root-Attached :
      (root leaf : TileId) (t : T)
      → tree.root t ≡ some root
      → Loose t (leaf ∷ [])
      → Attached (new_root tree root leaf t)
  unfolding new_root
  new_root-Attached root leaf t is_root loose =
      let xs = root ∷ leaf ∷ [] in
      let tabs = (tree.insert_tab_tile xs t).0 in
      let t1 = (tree.insert_tab_tile xs t).1 in
      let t2 = tree.set_active tabs leaf t1 in
      let t3 = tree.set_root (some tabs) t2 in
      let child : (q c : TileId) → keeps.Child t1 q c → keeps.Child t3 q c = λ q c child.
        keeps.set_root_child (some tabs) t2 q c (keeps.set_active_child tabs leaf t1 q c child) in
      let top : InLayout t3 tabs = at_root tabs (keeps.set_root_root (some tabs) t2) in
      let here : (c : TileId) → any (eqb c) xs ≡ true → InLayout t3 c =
        λ c hit. below tabs c top (child tabs c (keeps.insert_tab_tile_new xs t c hit)) in
      tied t t3 leaf loose
        (under_new_root t t3 root is_root (here root (rw (eqb_refl root) refl))
          (λ q c old. child q c (keeps.insert_tab_tile_child xs t q c old)))
        (here leaf (second_of root leaf))
        (λ x id h. keeps.insert_tab_tile_only xs t x id (
          sym (keeps.set_active_keeps tabs leaf t1 x)
          ∙ sym (keeps.set_root_keeps (some tabs) t2 x)
          ∙ h))

  attach_leaf-Attached :
      (o : Option TileId) (leaf : TileId) (t : T)
      → tree.root t ≡ o
      → Loose t (leaf ∷ [])
      → Attached (attach_leaf tree o leaf t)
  unfolding attach_leaf
  attach_leaf-Attached none leaf t e loose =
      tied t (tree.set_root (some leaf) t) leaf loose (λ x r. rootless t x e r)
        (at_root leaf (keeps.set_root_root (some leaf) t))
        (λ x id h. sym (keeps.set_root_keeps (some leaf) t x) ∙ h)
  attach_leaf-Attached (some root) leaf t e loose = elim (Bool-cases (tree.is_tabs t root)) [
    | inl tabs ↦ rw tabs (add_active-Attached root leaf t tabs (at_root root e) loose)
    | inr no_tabs ↦ rw no_tabs (new_root-Attached root leaf t e loose)
  ]

  pub attach_pane-Attached :
      (s : SessionId) (t : T) → Attached t → Attached (attach_pane tree s t).1
  unfolding attach_pane
  attach_pane-Attached s t h =
      attach_leaf-Attached (tree.root (tree.insert_pane s t).1) (tree.insert_pane s t).0
        (tree.insert_pane s t).1 refl (inserted-Loose s t [] (Attached-Loose t h))

  wrap-Attached :
      (focused new_leaf : TileId) (i : SessionId) (t : T)
      → tree.get_pane t focused ≡ some i
      → InLayout t focused
      → Loose t (new_leaf ∷ [])
      → Attached (wrap tree focused new_leaf (tree.get_pane t focused) t)
  unfolding wrap
  wrap-Attached focused new_leaf i t e r loose =
      let moved = (tree.insert_pane i t).0 in
      let t1 = (tree.insert_pane i t).1 in
      let xs = moved ∷ new_leaf ∷ [] in
      rw e (
        overwritten t1 (tree.insert_tabs focused xs new_leaf t1) focused i xs
          (inserted-Loose i t (new_leaf ∷ []) loose) (keeps.insert_pane_keeps i t focused i e)
          (inserted_reached i t focused r) (keeps.insert_tabs_root focused xs new_leaf t1)
          (keeps.insert_tabs_child focused xs new_leaf t1)
          (keeps.insert_tabs_new focused xs new_leaf t1)
          (keeps.insert_tabs_over focused xs new_leaf t1)
          (keeps.insert_tabs_keeps focused xs new_leaf t1))

  beside-Attached :
      (o : Option TileId) (focused new_leaf : TileId) (i : SessionId) (t : T)
      → tree.parent_of t focused ≡ o
      → tree.get_pane t focused ≡ some i
      → InLayout t focused
      → Loose t (new_leaf ∷ [])
      → Attached (beside tree o focused new_leaf t)
  unfolding beside
  beside-Attached none focused new_leaf i t is_parent e r loose =
      wrap-Attached focused new_leaf i t e r loose
  beside-Attached (some parent) focused new_leaf i t is_parent e r loose =
      elim (Bool-cases (tree.is_tabs t parent)) [
        | inl tabs ↦ rw tabs (
            add_active-Attached parent new_leaf t tabs
              (keeps.parent_reached t parent focused is_parent r) loose)
        | inr no_tabs ↦ rw no_tabs (wrap-Attached focused new_leaf i t e r loose)
      ]

  pub add_tab_beside-Attached :
      (focused : TileId) (s i : SessionId) (t : T)
      → tree.get_pane t focused ≡ some i
      → Attached t
      → Attached (add_tab_beside tree focused s t).1
  unfolding add_tab_beside
  add_tab_beside-Attached focused s i t e h =
      let t1 = (tree.insert_pane s t).1 in
      beside-Attached (tree.parent_of t1 focused) focused (tree.insert_pane s t).0 i t1 refl
        (keeps.insert_pane_keeps s t focused i e) (inserted_reached s t focused (h focused i e))
        (inserted-Loose s t [] (Attached-Loose t h))

  pub split_tile-Attached :
      (existing new : SessionId) (p : TileId) (dir : SplitDir) (t : T)
      → tree.get_pane t p ≡ some existing
      → Attached t
      → Attached (split_tile tree existing new p dir t).1
  unfolding split_tile
  split_tile-Attached existing new p dir t e h =
      let moved = (tree.insert_pane existing t).0 in
      let t1 = (tree.insert_pane existing t).1 in
      let leaf = (tree.insert_pane new t1).0 in
      let t2 = (tree.insert_pane new t1).1 in
      let xs = moved ∷ leaf ∷ [] in
      overwritten t2 (tree.insert_linear p dir xs t2) p existing (leaf ∷ moved ∷ [])
        (inserted-Loose new t1 (moved ∷ []) (inserted-Loose existing t [] (Attached-Loose t h)))
        (keeps.insert_pane_keeps new t1 p existing
          (keeps.insert_pane_keeps existing t p existing e))
        (inserted_reached new t1 p (inserted_reached existing t p (h p existing e)))
        (keeps.insert_linear_root p dir xs t2) (keeps.insert_linear_child p dir xs t2)
        (λ c hit. keeps.insert_linear_new p dir xs t2 c (swapped (eqb c leaf) (eqb c moved) hit))
        (keeps.insert_linear_over p dir xs t2) (keeps.insert_linear_keeps p dir xs t2)
