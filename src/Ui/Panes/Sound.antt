-- ===== src/Ui/Panes/Sound.antt =====
-- The terminals, their sources and the tree stay in step.
use poly_term.Prelude.{
  Bool, true, false, ◌||◌, ◌≡◌, refl, sym, subst, ◌∙◌, ◌⊎◌, inl, inr, Option, none, some, eqb,
  arith, Bool-cases,
}
use poly_term.Prelude.Text.{Text}
use poly_term.Core.Session.{SessionId, SessionSpec}
use poly_term.Ui.PaneEvents.{LivePane}
use poly_term.Ui.Recipients.{TileId}
use poly_term.Ui.Tiles.{SplitDir, Tree, attach_pane, add_tab_beside}
use poly_term.Ui.Tiles.Shown.{
  Keeps, Shows, ShowsAll, attach_pane-Shows, add_tab_beside-Shows, split_tile-Shows,
}
use poly_term.Ui.Tiles.Attached.{
  Attached, attach_pane-Attached, add_tab_beside-Attached, split_tile-Attached,
}
use poly_term.Ui.Panes.Keyed.{contains_key-insert, get-contains_key}
use poly_term.Ui.Panes.{
  PaneSource, Live, contains_key, get, Window, spec_of, spawned, opened, open_source, restarted,
  pane_at, place, open_in_new_tab, open_beside, fill, open_at, split_pane,
}

module _ {T : Type 0} (tree : Tree T) (keeps : Keeps tree) where
  -- Every terminal has its source and every source its terminal.
  abbrev pub Paired : Window T → Type 0
  Paired w = (id : SessionId) → contains_key id w.live ≡ contains_key id w.sources

  -- Every terminal is shown by a pane of the tree.
  abbrev pub Visible : Window T → Type 0
  Visible w = (id : SessionId) → contains_key id w.live ≡ true → Shows tree keeps w.tree id

  -- Terminals and sources are in step, every terminal has its pane, and the layout reaches every pane.
  abbrev pub Sound : Window T → Type 0
  Sound w = Paired w × Visible w × Attached tree keeps w.tree

  -- Sound but for one terminal, which no pane shows yet.
  abbrev SoundBut : SessionId → Window T → Type 0
  SoundBut i w =
      Paired w
      × ((id : SessionId) → contains_key id w.live ≡ true → (id ≡ i) ⊎ Shows tree keeps w.tree id)
      × Attached tree keeps w.tree

  abbrev Opened : SessionId → Window T → Bool × Window T → Type 0
  Opened i w (true, w') = (w'.tree ≡ w.tree) × SoundBut i w'
  Opened i w (false, w') = (w'.tree ≡ w.tree) × Sound w'

  but_new :
      (b c : Bool) (i id : SessionId) (P : Type 0)
      → c ≡ (eqb i id || b)
      → (b ≡ true → P)
      → c ≡ true
      → (id ≡ i) ⊎ P
  but_new true c i id P e h hc = inr (h refl)
  but_new false c i id P e h hc = inl (ground arith)

  settled :
      (i : SessionId) (w : Window T) (r : Bool × Window T)
      → Opened i w r
      → Shows tree keeps w.tree i
      → Sound r.1
  settled i w (false, w') h shown = h.1
  settled i w (true, w') h shown = (
    h.1.0,
    λ id alive. elim (h.1.1 id alive) [
      | inl same ↦ rw same (subst (λ t. Shows tree keeps t i) (sym h.0) shown)
      | inr still ↦ still
    ],
    h.1.2,
  )

  module _ (spawn : SessionSpec → Option Text) (new_pane : LivePane) where
    spawned-Opened :
        (i : SessionId) (source : PaneSource) (spec : SessionSpec) (o : Option Text) (w : Window T)
        → Sound w
        → Opened i w (spawned new_pane i source spec o w)
    unfolding spawned
    spawned-Opened i source spec (some e) w h = (refl, h)
    spawned-Opened i source spec none w h =
        let new : Live = record { pane = new_pane; on_exit = spec.on_exit } in
        (
          refl,
          (
            λ id.
                contains_key-insert id i new w.live
                ∙ rw (h.0 id) (sym (contains_key-insert id i source w.sources)),
            λ id alive.
                but_new (contains_key id w.live) _ i id _ (contains_key-insert id i new w.live)
                  (h.1 id) alive,
            h.2,
          ),
        )

    opened-Opened :
        (i : SessionId) (source : PaneSource) (o : Option SessionSpec) (w : Window T)
        → Sound w
        → Opened i w (opened spawn new_pane i source o w)
    unfolding opened
    opened-Opened i source none w h = (refl, h)
    opened-Opened i source (some spec) w h = spawned-Opened i source spec (spawn spec) w h

    open_source-Opened :
        (i : SessionId) (source : PaneSource) (w : Window T)
        → Sound w
        → Opened i w (open_source spawn new_pane i source w)
    unfolding open_source
    open_source-Opened i source w h = opened-Opened i source (spec_of source w.library) w h

    pub restarted-Sound :
        (i : SessionId) (o : Option PaneSource) (w : Window T)
        → get i w.sources ≡ o
        → Sound w
        → Sound (restarted spawn new_pane i o w)
    unfolding restarted
    restarted-Sound i none w e h = h
    restarted-Sound i (some source) w e h =
        let alive : contains_key i w.live ≡ true = h.0 i ∙ get-contains_key i w.sources source e in
        settled i w (open_source spawn new_pane i source w) (open_source-Opened i source w h)
          (h.1 i alive)

    place-Sound :
        (i : SessionId) (attach : T → TileId × T) (w : Window T) (r : Bool × Window T)
        → Opened i w r
        → ((t : T) → Shows tree keeps (attach t).1 i × ShowsAll tree keeps t (attach t).1)
        → ((t : T) → t ≡ w.tree → Attached tree keeps t → Attached tree keeps (attach t).1)
        → Sound (place spawn new_pane tree r.0 attach r.1)
    unfolding place
    place-Sound i attach w (false, w') h shows ties = h.1
    place-Sound i attach w (true, w') h shows ties = (
      h.1.0,
      λ id alive. elim (h.1.1 id alive) [
        | inl same ↦ rw same ((shows w'.tree).0)
        | inr shown ↦ (shows w'.tree).1 id shown
      ],
      ties w'.tree h.0 h.1.2,
    )

    pub open_in_new_tab-Sound :
        (fresh : SessionId) (source : PaneSource) (w : Window T)
        → Sound w
        → Sound (open_in_new_tab spawn new_pane tree fresh source w)
    unfolding open_in_new_tab
    open_in_new_tab-Sound fresh source w h =
        place-Sound fresh (attach_pane tree fresh) w (open_source spawn new_pane fresh source w)
          (open_source-Opened fresh source w h) (attach_pane-Shows tree keeps fresh)
          (λ t _ attached. attach_pane-Attached tree keeps fresh t attached)

    open_beside_none-Sound :
        (fresh : SessionId) (source : PaneSource) (w : Window T)
        → Sound w
        → Sound (open_beside spawn new_pane tree fresh source none w)
    unfolding open_beside open_in_new_tab
    open_beside_none-Sound fresh source w h = open_in_new_tab-Sound fresh source w h

    open_beside-Sound :
        (fresh : SessionId) (source : PaneSource) (o : Option TileId) (i : SessionId) (w : Window T)
        → pane_at spawn new_pane tree w.tree o ≡ some i
        → Sound w
        → Sound (open_beside spawn new_pane tree fresh source o w)
    unfolding open_beside pane_at
    open_beside-Sound fresh source none i w e h = cc
    open_beside-Sound fresh source (some focused) i w e h =
        place-Sound fresh (add_tab_beside tree focused fresh) w
          (open_source spawn new_pane fresh source w) (open_source-Opened fresh source w h)
          (add_tab_beside-Shows tree keeps focused fresh)
          (λ t same attached.
            add_tab_beside-Attached tree keeps focused fresh i t (rw same e) attached)

    fill-Sound :
        (leaf : Option TileId) (i : SessionId) (w : Window T) (r : Bool × Window T)
        → Opened i w r
        → Shows tree keeps w.tree i
        → Sound (fill spawn new_pane tree leaf r)
    unfolding fill
    fill-Sound leaf i w (true, w') h shown = settled i w (true, w') h shown
    fill-Sound leaf i w (false, w') h shown = h.1

    pane_at-Shows :
        (t : T) (o : Option TileId) (i : SessionId)
        → pane_at spawn new_pane tree t o ≡ some i
        → Shows tree keeps t i
    unfolding pane_at
    pane_at-Shows t none i h = cc
    pane_at-Shows t (some tile) i h = (tile, h)

    pub open_at-Sound :
        (fresh : SessionId) (source : PaneSource) (o : Option SessionId) (w : Window T)
        → pane_at spawn new_pane tree w.tree w.focused ≡ o
        → Sound w
        → Sound (open_at spawn new_pane tree fresh source o w)
    unfolding open_at
    open_at-Sound fresh source none w e h = open_beside_none-Sound fresh source w h
    open_at-Sound fresh source (some i) w e h = elim (Bool-cases (contains_key i w.live)) [
      | inl alive ↦ rw alive (open_beside-Sound fresh source w.focused i w e h)
      | inr dead ↦ rw dead (
          fill-Sound w.focused i w (open_source spawn new_pane i source w)
            (open_source-Opened i source w h) (pane_at-Shows w.tree w.focused i e))
    ]

    pub split_pane-Sound :
        (fresh : SessionId) (tile : TileId) (dir : SplitDir) (o : Option SessionId) (w : Window T)
        → tree.get_pane w.tree tile ≡ o
        → Sound w
        → Sound (split_pane spawn new_pane tree fresh tile dir o w)
    unfolding split_pane
    split_pane-Sound fresh tile dir none w e h = h
    split_pane-Sound fresh tile dir (some existing) w e h = (
      h.0,
      λ id alive.
          (split_tile-Shows tree keeps existing fresh tile dir w.tree e).1 id (h.1 id alive),
      split_tile-Attached tree keeps existing fresh tile dir w.tree e h.2,
    )
