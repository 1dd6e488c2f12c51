-- ===== src/Ui/Panes/Closing.antt =====
-- Closing panes, and every other change of the layout, keeps the terminals, their sources and the tree in step.
use poly_term.Prelude.{
  Bool, true, false, not, ◌||◌, ◌&&◌, ◌≡◌, refl, sym, ◌∙◌, ◌⊎◌, inl, inr, Option, none, some, List,
  [], ◌∷◌, ap, eqb, eqb_iff, ltb, any, retain, if◌then◌else◌, arith, Bool-cases,
}
use poly_term.Prelude.Text.{Text}
use poly_term.Core.Session.{SessionId, SessionSpec}
use poly_term.Ui.PaneEvents.{LivePane}
use poly_term.Ui.Recipients.{TileId}
use poly_term.Ui.Tiles.{SplitDir, Tree}
use poly_term.Ui.Tiles.Shown.{Keeps, Shows}
use poly_term.Ui.Tiles.Attached.{Attached}
use poly_term.Ui.Panes.Keyed.{contains_key-remove}
use poly_term.Ui.Panes.Sound.{
  Paired, Sound, restarted-Sound, open_in_new_tab-Sound, open_at-Sound, split_pane-Sound,
}
use poly_term.Ui.Panes.{
  PaneSource, contains_key, get, remove, Window, restart_pane, open_in_new_tab, open_in_active_tile,
  apply_split, forget, is_root, clear_root, close_tile, forwards_of, request_close_tile, confirmed,
  ask_close, show_confirm_close_dialog, ends_itself, close_all, close_finished_panes,
  validate_focus, focus_or_first, pane_at,
}

-- What the user and the sessions do to the panes. Fresh instance ids are part of it.
pub data Change : Type 0 where
  opens_tab : SessionId → PaneSource → Change
  opens : SessionId → PaneSource → Change
  splits : SessionId → TileId → SplitDir → Change
  restarts : SessionId → Change
  asks_to_close : TileId → Change
  closes : TileId → Change
  confirms : Bool → Bool → Bool → Change
  finishes : Change
  refocuses : Change

-- A change, with what the spawner answers at the time.
abbrev pub Step : Type 0
Step = (SessionSpec → Option Text) × Change

module _ {T : Type 0} (tree : Tree T) (spawn : SessionSpec → Option Text)
    (new_pane : LivePane) where
  unfoldable pub change : Change → Window T → Window T
  change (opens_tab fresh source) w = open_in_new_tab spawn new_pane tree fresh source w
  change (opens fresh source) w = open_in_active_tile spawn new_pane tree fresh source w
  change (splits fresh tile dir) w = apply_split spawn new_pane tree fresh tile dir w
  change (restarts instance) w = restart_pane spawn new_pane instance w
  change (asks_to_close tile) w = request_close_tile spawn new_pane tree tile w
  change (closes tile) w = close_tile spawn new_pane tree tile w
  change (confirms confirm cancel window_open) w =
      show_confirm_close_dialog spawn new_pane tree confirm cancel window_open w
  change finishes w = close_finished_panes spawn new_pane tree w
  change refocuses w = validate_focus spawn new_pane tree w

unfoldable pub changes : {T : Type 0} → Tree T → LivePane → List Step → Window T → Window T
unfolding change
changes tree new_pane [] w = w
changes tree new_pane ((spawn, c) ∷ steps) w =
    changes tree new_pane steps (change tree spawn new_pane c w)

-- Where a removed terminal was.
Gone : {T : Type 0} (tree : Tree T) → Keeps tree → List SessionId → Window T → Type 0
Gone tree keeps gone w =
    (id : SessionId)
    → contains_key id w.live ≡ true
    → (any (eqb id) gone ≡ true) ⊎ Shows tree keeps w.tree id

left : (a b c : Bool) → a ≡ (not b && c) → a ≡ true → (b ≡ false) × (c ≡ true)
left a b c e h = ground arith

later :
    (id g : SessionId) (gone : List SessionId)
    → eqb g id ≡ false
    → any (eqb id) (g ∷ gone) ≡ true
    → any (eqb id) gone ≡ true
later id g gone h hit = ground arith

module _ {T : Type 0} (tree : Tree T) (keeps : Keeps tree) where
  module _ (spawn : SessionSpec → Option Text) (new_pane : LivePane) where
    forget-Sound :
        (gone : List SessionId) (w : Window T)
        → Paired tree keeps w
        → Gone tree keeps gone w
        → Attached tree keeps w.tree
        → Sound tree keeps (forget spawn new_pane tree gone w)
    unfolding forget Gone
    forget-Sound [] w paired shown attached =
        (paired, λ id alive. elim (shown id alive) [ inl h ↦ cc | inr h ↦ h ], attached)
    forget-Sound (g ∷ gone) w paired shown attached =
        forget-Sound gone (record w { live = remove g w.live; sources = remove g w.sources })
          (λ id.
            contains_key-remove id g w.live
            ∙ rw (paired id) (sym (contains_key-remove id g w.sources)))
          (λ id alive.
            let was =
              left _ (eqb g id) (contains_key id w.live) (contains_key-remove id g w.live) alive in
            elim (shown id was.1) [ inl h ↦ inl (later id g gone was.0 h) | inr h ↦ inr h ])
          attached

    removed_or_shown :
        (b : Bool) (tile : TileId) (id : SessionId) (w : Window T)
        → Shows tree keeps w.tree id
        → (any (eqb id) (tree.remove_recursively tile w.tree).0 ≡ true)
          ⊎ Shows tree keeps
              (clear_root spawn new_pane tree b (tree.remove_recursively tile w.tree).1)
              id
    unfolding clear_root
    removed_or_shown false tile id w (x, h) = elim (keeps.removed tile w.tree x id h) [
      | inl gone ↦ inl gone
      | inr still ↦ inr (x, still)
    ]
    removed_or_shown true tile id w (x, h) = elim (keeps.removed tile w.tree x id h) [
      | inl gone ↦ inl gone
      | inr still ↦
          inr (x, keeps.set_root_keeps none (tree.remove_recursively tile w.tree).1 x ∙ still)
    ]

    -- What is left of the layout reaches what is left of the panes, the root's removal included.
    left-Attached :
        (o : Option TileId) (tile : TileId) (t : T)
        → tree.root t ≡ o
        → Attached tree keeps t
        → Attached tree keeps (
            clear_root spawn new_pane tree
              (is_root spawn new_pane tree tile o)
              (tree.remove_recursively tile t).1)
    unfolding clear_root is_root
    left-Attached none tile t e h = λ x id shown.
        keeps.removed_reached tile t x id shown (h x id (keeps.removed_only tile t x id shown))
    left-Attached (some root) tile t e h = elim (Bool-cases (eqb root tile)) [
      | inl same ↦ rw same (λ x id shown.
          let here = sym (keeps.set_root_keeps none (tree.remove_recursively tile t).1 x) ∙ shown in
          let at_tile : tree.root t ≡ some tile = e ∙ ap some ((eqb_iff root tile).0 same) in
          let bad =
            keeps.removed_root tile t x at_tile (h x id (keeps.removed_only tile t x id here)) in
          cc (here, bad))
      | inr other ↦ rw other (λ x id shown.
          keeps.removed_reached tile t x id shown (h x id (keeps.removed_only tile t x id shown)))
    ]

    close_tile-Sound :
        (tile : TileId) (w : Window T)
        → Sound tree keeps w
        → Sound tree keeps (close_tile spawn new_pane tree tile w)
    unfolding close_tile Gone
    close_tile-Sound tile w h =
        let gone = tree.remove_recursively tile w.tree in
        let b = is_root spawn new_pane tree tile (tree.root w.tree) in
        forget-Sound gone.0 (record w { tree = clear_root spawn new_pane tree b gone.1 }) h.0
          (λ id alive. removed_or_shown b tile id w (h.1 id alive))
          (left-Attached (tree.root w.tree) tile w.tree refl h.2)

    close_all-Sound :
        (panes : List (TileId × SessionId)) (w : Window T)
        → Sound tree keeps w
        → Sound tree keeps (close_all spawn new_pane tree panes w)
    unfolding close_all
    close_all-Sound [] w h = h
    close_all-Sound ((tile, i) ∷ panes) w h =
        close_all-Sound panes (close_tile spawn new_pane tree tile w) (close_tile-Sound tile w h)

    request_close_tile-Sound :
        (tile : TileId) (w : Window T)
        → Sound tree keeps w
        → Sound tree keeps (request_close_tile spawn new_pane tree tile w)
    unfolding request_close_tile
    request_close_tile-Sound tile w h =
        elim (Bool-cases
          (ltb 0 (forwards_of spawn new_pane tree w.live (tree.get_pane w.tree tile)))) [
            | inl e ↦ rw e h
            | inr e ↦ rw e (close_tile-Sound tile w h)
          ]

    confirmed-Sound :
        (confirm stop : Bool) (tile : TileId) (w : Window T)
        → Sound tree keeps w
        → Sound tree keeps (
            if stop
            then record w { confirm_close = none }
            else if confirm
            then close_tile spawn new_pane tree tile (record w { confirm_close = none })
            else w)
    confirmed-Sound confirm true tile w h = h
    confirmed-Sound true false tile w h =
        close_tile-Sound tile (record w { confirm_close = none }) h
    confirmed-Sound false false tile w h = h

    ask_close-Sound :
        (confirm cancel window_open : Bool) (o : Option TileId) (w : Window T)
        → Sound tree keeps w
        → Sound tree keeps (ask_close spawn new_pane tree confirm cancel window_open o w)
    unfolding ask_close confirmed
    ask_close-Sound confirm cancel window_open none w h = h
    ask_close-Sound confirm cancel window_open (some tile) w h =
        elim (Bool-cases
          (eqb (forwards_of spawn new_pane tree w.live (tree.get_pane w.tree tile)) 0)) [
            | inl e ↦ rw e (close_tile-Sound tile (record w { confirm_close = none }) h)
            | inr e ↦ rw e (confirmed-Sound confirm (cancel || not window_open) tile w h)
          ]

    refocused-Sound :
        (o : Option SessionId) (w : Window T)
        → Sound tree keeps w
        → Sound tree keeps (focus_or_first spawn new_pane tree o w)
    unfolding focus_or_first
    refocused-Sound (some id) w h = h
    refocused-Sound none w h = h

    change-Sound :
        (c : Change) (w : Window T)
        → Sound tree keeps w
        → Sound tree keeps (change tree spawn new_pane c w)
    unfolding change open_in_active_tile apply_split restart_pane show_confirm_close_dialog
        close_finished_panes validate_focus
    change-Sound (opens_tab fresh source) w h =
        open_in_new_tab-Sound tree keeps spawn new_pane fresh source w h
    change-Sound (opens fresh source) w h =
        open_at-Sound tree keeps spawn new_pane fresh source
          (pane_at spawn new_pane tree w.tree w.focused) w refl h
    change-Sound (splits fresh tile dir) w h =
        split_pane-Sound tree keeps spawn new_pane fresh tile dir (tree.get_pane w.tree tile) w refl
          h
    change-Sound (restarts i) w h =
        restarted-Sound tree keeps spawn new_pane i (get i w.sources) w refl h
    change-Sound (asks_to_close tile) w h = request_close_tile-Sound tile w h
    change-Sound (closes tile) w h = close_tile-Sound tile w h
    change-Sound (confirms confirm cancel window_open) w h =
        ask_close-Sound confirm cancel window_open w.confirm_close w h
    change-Sound finishes w h =
        close_all-Sound (retain (ends_itself spawn new_pane tree w.live) (tree.panes w.tree)) w h
    change-Sound refocuses w h = refocused-Sound (pane_at spawn new_pane tree w.tree w.focused) w h

  -- Where the tree keeps its panes and containers as `egui_tiles` does, every run of opening, splitting, restarting and
  -- closing panes, whatever the spawner answers at each step, keeps the window in step: each live terminal has the
  -- source it can be reopened from, each source belongs to a live terminal, each live terminal has a pane, and
  -- every pane is reached from the root of the layout. So no session runs on unseen.
  pub changes-Sound :
      (new_pane : LivePane) (steps : List Step) (w : Window T)
      → Sound tree keeps w
      → Sound tree keeps (changes tree new_pane steps w)
  unfolding changes
  changes-Sound new_pane [] w h = h
  changes-Sound new_pane ((spawn, c) ∷ steps) w h =
      changes-Sound new_pane steps (change tree spawn new_pane c w)
        (change-Sound spawn new_pane c w h)
