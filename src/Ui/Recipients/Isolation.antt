-- ===== src/Ui/Recipients/Isolation.antt =====
-- crates/polyterm-ui/src/app.rs: input never leaves the tightest broadcast group around the pane it was typed
-- into.
use poly_term.Prelude.{
  ℕ, ◌≤◌, ◌<◌, ◌≡◌, refl, ◌∙◌, ap, ◌↔◌, ◌⊎◌, inl, inr, Bool, true, false, Option, none, some, List,
  [], ◌∷◌, arith, ltb, length, if◌then◌else◌, Bool-cases, Option-cases,
}
use poly_term.Core.Session.{SessionId}
use poly_term.Ui.Recipients.{
  TileId, Tile, collect_session_ids, subtree_contains, better, unwrap_or, best_group,
  resolve_recipients,
}
use poly_term.Ui.Recipients.Walk.{
  In, head, tail, Below, Shows, Heights, collect_sound, collect_complete, contains_sound,
  contains_complete,
}

module _ (tiles : TileId → Option Tile) where
  abbrev step : Bool → List SessionId → Option (List SessionId) → Option (List SessionId)
  step inside out best = if inside then better tiles out best else best

  step-origin :
      (inside : Bool) (out : List SessionId) (best : Option (List SessionId)) (g : List SessionId)
      → step inside out best ≡ some g
      → (best ≡ some g) ⊎ (inside ≡ true) × (out ≡ g)
  step-origin false out best g e = inl e
  step-origin true out none g e = inr (refl, cc)
  step-origin true out (some b) g e = elim (Bool-cases (ltb (length out) (length b))) [
    | inl less ↦ inr (refl, cc)
    | inr more ↦ inl cc
  ]

  -- The best so far only gets shorter.
  step-best :
      (inside : Bool) (out b : List SessionId)
      → (g : List SessionId) × (step inside out (some b) ≡ some g) × (length g ≤ length b)
  step-best false out b = (b, refl, omega arith)
  step-best true out b = elim (Bool-cases (ltb (length out) (length b))) [
    | inl less ↦ (out, rw less refl, ground arith)
    | inr more ↦ (b, rw more refl, omega arith)
  ]

  step-out :
      (out : List SessionId) (best : Option (List SessionId))
      → (g : List SessionId) × (step true out best ≡ some g) × (length g ≤ length out)
  step-out out none = (out, refl, omega arith)
  step-out out (some b) = elim (Bool-cases (ltb (length out) (length b))) [
    | inl less ↦ (out, rw less refl, omega arith)
    | inr more ↦ (b, rw more refl, ground arith)
  ]

  module _ (fuel : ℕ) (focused : TileId) where
    Group : List TileId → List SessionId → Type 0
    Group tiles_on g =
        (tile : TileId) × In tile tiles_on
        × (subtree_contains tiles fuel tile focused ≡ true)
        × (collect_session_ids tiles fuel tile ≡ g)

    best_group-origin :
        (on : List TileId) (best : Option (List SessionId)) (g : List SessionId)
        → best_group tiles fuel focused on best ≡ some g
        → (best ≡ some g) ⊎ Group on g
    unfolding best_group Group
    best_group-origin [] best g e = inl e
    best_group-origin (t ∷ on) best g e = elim (best_group-origin on _ g e) [
      | inr (tile, i, inside, same) ↦ inr (tile, tail t i, inside, same)
      | inl before ↦
          elim (step-origin (subtree_contains tiles fuel t focused)
            (collect_session_ids tiles fuel t) best g before) [
              | inl was ↦ inl was
              | inr (inside, same) ↦ inr (t, head t on, inside, same)
            ]
    ]

    best_group-best :
        (on : List TileId) (b : List SessionId)
        → (g : List SessionId) × (best_group tiles fuel focused on (some b) ≡ some g)
          × (length g ≤ length b)
    unfolding best_group
    best_group-best [] b = (b, refl, omega arith)
    best_group-best (t ∷ on) b =
        let (b', e, le) =
          step-best (subtree_contains tiles fuel t focused) (collect_session_ids tiles fuel t) b in
        let (g, e', le') = best_group-best on b' in
        (g, ap (λ o. best_group tiles fuel focused on o) e ∙ e', omega (arith, le, le'))

    best_group-least :
        (on : List TileId) (best : Option (List SessionId)) (tile : TileId)
        → In tile on
        → subtree_contains tiles fuel tile focused ≡ true
        → (g : List SessionId) × (best_group tiles fuel focused on best ≡ some g)
          × (length g ≤ length (collect_session_ids tiles fuel tile))
    unfolding best_group
    best_group-least _ best _ (head t on) inside =
        let (b, e, le) = step-out (collect_session_ids tiles fuel t) best in
        let (g, e', le') = best_group-best on b in
        (g, rw inside (ap (λ o. best_group tiles fuel focused on o) e ∙ e'), omega (arith, le, le'))
    best_group-least _ best tile (tail t {xs = on} i) inside = best_group-least on _ tile i inside

  resolve-none :
      (fuel : ℕ) (on : List TileId) (focused : TileId)
      → best_group tiles fuel focused on none ≡ none
      → resolve_recipients tiles fuel on focused ≡ collect_session_ids tiles fuel focused
  unfolding resolve_recipients
  resolve-none fuel on focused e =
      ap (λ o. unwrap_or tiles (collect_session_ids tiles fuel focused) o) e

  resolve-some :
      (fuel : ℕ) (on : List TileId) (focused : TileId) (g : List SessionId)
      → best_group tiles fuel focused on none ≡ some g
      → resolve_recipients tiles fuel on focused ≡ g
  unfolding resolve_recipients
  resolve-some fuel on focused g e =
      ap (λ o. unwrap_or tiles (collect_session_ids tiles fuel focused) o) e

  -- Whose panes get the input: all those of one tile.
  abbrev pub Reaches : List SessionId → TileId → Type 0
  Reaches recipients tile = (session : SessionId) → In session recipients ↔ Shows tiles tile session

  module _ (rank : TileId → ℕ) (finite : Heights tiles rank) (fuel : ℕ)
      (enough : (t : TileId) → rank t < fuel) where
    collect-Reaches : (tile : TileId) → Reaches (collect_session_ids tiles fuel tile) tile
    collect-Reaches tile session = (
      collect_sound tiles fuel tile session,
      λ (t, below, shown).
          collect_complete tiles rank finite fuel tile t session (enough tile) below shown,
    )

    -- Input typed into a tile goes to every pane of exactly one tile and to no other. Where broadcast tiles
    -- enclose the focused one it is one of these, with as few panes as any of them; where none does it is the
    -- focused tile itself.
    pub resolve_recipients-isolation :
        (on : List TileId) (focused : TileId)
        → ((tile : TileId) × In tile on
            × Below tiles tile focused
            × Reaches (resolve_recipients tiles fuel on focused) tile
            × ((other : TileId)
                → In other on
                → Below tiles other focused
                → length (resolve_recipients tiles fuel on focused)
                  ≤ length (collect_session_ids tiles fuel other)))
          ⊎ (((tile : TileId) → In tile on → ¬ Below tiles tile focused)
              × Reaches (resolve_recipients tiles fuel on focused) focused)
    unfolding Group
    resolve_recipients-isolation on focused =
        elim (Option-cases (best_group tiles fuel focused on none)) [
          | inl e ↦ inr (
            λ tile i b.
                let (g, e', _) =
                  best_group-least fuel focused on none tile i
                    (contains_complete tiles rank finite fuel tile focused (enough tile) b) in
                cc,
            rw (resolve-none fuel on focused e) (collect-Reaches focused),
          )
          | inr (g, e) ↦ elim (best_group-origin fuel focused on none g e) [
            | inl never ↦ cc
            | inr (tile, i, inside, same) ↦ inl (
              tile,
              i,
              contains_sound tiles fuel tile focused inside,
              rw (resolve-some fuel on focused g e) (rw (← same) (collect-Reaches tile)),
              λ other i' b.
                  let (g', e', le) =
                    best_group-least fuel focused on none other i'
                      (contains_complete tiles rank finite fuel other focused (enough other) b) in
                  let agree : length g ≡ length g' = cc in
                  rw (resolve-some fuel on focused g e) (omega (arith, agree, le)),
            )
          ]
        ]
