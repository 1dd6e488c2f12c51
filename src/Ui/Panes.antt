-- ===== src/Ui/Panes.antt =====
-- crates/polyterm-ui/src/app.rs: opening, splitting, restarting and closing panes. `live` and `sources` are maps by instance
-- id, as lists; a fresh instance id is an argument; the spawner is an argument that gives the text of its error, or none.
pub mod Keyed
pub mod Sound
pub mod Closing
mod Tests
use poly_term.Prelude.{
  ℕ, Bool, true, false, not, ◌&&◌, ◌||◌, Option, none, some, List, [], ◌∷◌, ◌++◌, eqb, ltb, any,
  find, retain, if◌then◌else◌, map,
}
use poly_term.Prelude.Text.{Text, codes}
use poly_term.Core.Session.{
  SessionId, SessionSpec, ExitAction, prompt, close, SessionKind, ssh, serial, local_shell, rdp,
}
use poly_term.Store.Library.{TopFolder, get_session}
use poly_term.Ui.PaneEvents.{LivePane, active_forward_count}
use poly_term.Ui.Recipients.{TileId}
use poly_term.Ui.Tiles.{SplitDir, Tree, attach_pane, add_tab_beside, split_tile}

pub data PaneSource : Type 0 where
  saved : SessionId → PaneSource
  adhoc : SessionSpec → PaneSource

-- A live pane and what to do when its session ends.
pub record Live : Type 0 where
  pub pane : LivePane
  pub on_exit : ExitAction

abbrev pub Map : Type 0 → Type 0
Map A = List (SessionId × A)

module _ {A : Type 0} where
  abbrev pub has_key : SessionId → SessionId × A → Bool
  has_key id e = eqb e.0 id

  abbrev pub contains_key : SessionId → Map A → Bool
  contains_key id m = any (has_key id) m

  abbrev pub get : SessionId → Map A → Option A
  get id [] = none
  get id (e ∷ m) = if has_key id e then some e.1 else get id m

  abbrev pub other_key : SessionId → SessionId × A → Bool
  other_key id e = not (has_key id e)

  abbrev pub remove : SessionId → Map A → Map A
  remove id m = retain (other_key id) m

  abbrev pub insert : SessionId → A → Map A → Map A
  insert id a m = (id, a) ∷ remove id m

-- The fields of `TerminalApp` that panes use. `library` is the tops of the session library, where there is one.
pub record Window (T : Type 0) : Type 0 where
  pub tree : T
  pub live : Map Live
  pub sources : Map PaneSource
  pub library : Option (List TopFolder)
  pub focused : Option TileId
  pub confirm_close : Option TileId
  pub last_error : Option Text

spec_of : PaneSource → Option (List TopFolder) → Option SessionSpec
spec_of (adhoc spec) library = some spec
spec_of (saved id) (some tops) = get_session tops id
spec_of (saved id) none = none

module _ {T : Type 0} where
  -- `LivePane::new`, with what it starts from.
  spawned :
      LivePane → SessionId → PaneSource → SessionSpec → Option Text → Window T → Bool × Window T
  spawned new_pane instance source spec none w = (
    true,
    record w {
      live = insert instance (record { pane = new_pane; on_exit = spec.on_exit }) w.live;
      sources = insert instance source w.sources;
      last_error = none;
    },
  )
  spawned new_pane instance source spec (some e) w = (
    false,
    record w { last_error = some (codes "Could not open " ++ spec.name ++ codes ": " ++ e) },
  )

  module _ (spawn : SessionSpec → Option Text) (new_pane : LivePane) where
    opened : SessionId → PaneSource → Option SessionSpec → Window T → Bool × Window T
    unfolding spawned
    opened instance source none w =
        (false, record w { last_error = some (codes "A saved session no longer exists.") })
    opened instance source (some spec) w = spawned new_pane instance source spec (spawn spec) w

    unfoldable pub open_source : SessionId → PaneSource → Window T → Bool × Window T
    unfolding opened spec_of
    open_source instance source w = opened instance source (spec_of source w.library) w

    pub restarted : SessionId → Option PaneSource → Window T → Window T
    restarted instance none w = w
    restarted instance (some source) w = (open_source instance source w).1

    unfoldable pub restart_pane : SessionId → Window T → Window T
    unfolding restarted
    restart_pane instance w = restarted instance (get instance w.sources) w

    module _ (tree : Tree T) where
      -- `some` if the tile is a pane.
      pub pane_at : T → Option TileId → Option SessionId
      pane_at t none = none
      pane_at t (some tile) = tree.get_pane t tile

      -- What `attach_pane` or `add_tab_beside` gives, for a session that was opened.
      place : Bool → (T → TileId × T) → Window T → Window T
      place false attach w = w
      place true attach w =
          let (leaf, t) = attach w.tree in record w { tree = t; focused = some leaf }

      unfoldable pub open_in_new_tab : SessionId → PaneSource → Window T → Window T
      unfolding place
      open_in_new_tab fresh source w =
          let (ok, w') = open_source fresh source w in place ok (attach_pane tree fresh) w'

      -- The focused tile is a pane or nothing; `filled` says that its pane is live.
      open_beside : SessionId → PaneSource → Option TileId → Window T → Window T
      unfolding place
      open_beside fresh source none w =
          let (ok, w') = open_source fresh source w in place ok (attach_pane tree fresh) w'
      open_beside fresh source (some focused) w =
          let (ok, w') = open_source fresh source w in
          place ok (add_tab_beside tree focused fresh) w'

      fill : Option TileId → Bool × Window T → Window T
      fill leaf (true, w) = record w { focused = leaf }
      fill leaf (false, w) = w

      pub open_at : SessionId → PaneSource → Option SessionId → Window T → Window T
      unfolding open_beside fill
      open_at fresh source none w = open_beside fresh source none w
      open_at fresh source (some instance) w =
          if contains_key instance w.live
          then open_beside fresh source w.focused w
          else fill w.focused (open_source instance source w)

      unfoldable pub open_in_active_tile : SessionId → PaneSource → Window T → Window T
      unfolding open_at pane_at
      open_in_active_tile fresh source w = open_at fresh source (pane_at w.tree w.focused) w

      pub split_pane : SessionId → TileId → SplitDir → Option SessionId → Window T → Window T
      split_pane fresh tile dir none w = w
      split_pane fresh tile dir (some existing) w =
          let (leaf, t) = split_tile tree existing fresh tile dir w.tree in
          record w { tree = t; focused = some leaf }

      unfoldable pub apply_split : SessionId → TileId → SplitDir → Window T → Window T
      unfolding split_pane
      apply_split fresh tile dir w = split_pane fresh tile dir (tree.get_pane w.tree tile) w

      forget : List SessionId → Window T → Window T
      forget [] w = w
      forget (id ∷ ids) w =
          forget ids (record w { live = remove id w.live; sources = remove id w.sources })

      is_root : TileId → Option TileId → Bool
      is_root tile none = false
      is_root tile (some root) = eqb root tile

      clear_root : Bool → T → T
      clear_root true t = tree.set_root none t
      clear_root false t = t

      unfoldable pub close_tile : TileId → Window T → Window T
      unfolding forget is_root clear_root
      close_tile tile w =
          let was_root = is_root tile (tree.root w.tree) in
          let (gone, t) = tree.remove_recursively tile w.tree in
          forget gone (record w { tree = clear_root was_root t })

      forwards_of : Map Live → Option SessionId → ℕ
      forwards_of live none = 0
      forwards_of live (some instance) = elim (get instance live) [
        | some l ↦ active_forward_count l.pane
        | none ↦ 0
      ]

      unfoldable pub request_close_tile : TileId → Window T → Window T
      unfolding forwards_of
      request_close_tile tile w =
          if ltb 0 (forwards_of w.live (tree.get_pane w.tree tile))
          then record w { confirm_close = some tile }
          else close_tile tile w

      confirmed : Bool → Bool → Bool → TileId → Window T → Window T
      confirmed confirm cancel window_open tile w =
          if cancel || not window_open
          then record w { confirm_close = none }
          else if confirm
          then close_tile tile (record w { confirm_close = none })
          else w

      ask_close : Bool → Bool → Bool → Option TileId → Window T → Window T
      unfolding confirmed forwards_of
      ask_close confirm cancel window_open none w = w
      ask_close confirm cancel window_open (some tile) w =
          if eqb (forwards_of w.live (tree.get_pane w.tree tile)) 0
          then close_tile tile (record w { confirm_close = none })
          else confirmed confirm cancel window_open tile w

      -- A frame of the dialog: the two buttons, and whether its window is still open.
      unfoldable pub show_confirm_close_dialog : Bool → Bool → Bool → Window T → Window T
      unfolding ask_close
      show_confirm_close_dialog confirm cancel window_open w =
          ask_close confirm cancel window_open w.confirm_close w

      ends_itself : Map Live → TileId × SessionId → Bool
      ends_itself live (tile, instance) = elim (get instance live) [
        | some l ↦ l.pane.finished && elim l.on_exit [ close ↦ true | prompt ↦ false ]
        | none ↦ false
      ]

      close_all : List (TileId × SessionId) → Window T → Window T
      close_all [] w = w
      close_all ((tile, instance) ∷ panes) w = close_all panes (close_tile tile w)

      unfoldable pub close_finished_panes : Window T → Window T
      unfolding close_all ends_itself
      close_finished_panes w = close_all (retain (ends_itself w.live) (tree.panes w.tree)) w

      first_pane : T → List TileId → Option TileId
      first_pane t [] = none
      first_pane t (x ∷ xs) = elim (tree.get_pane t x) [ some id ↦ some x | none ↦ first_pane t xs ]

      focus_or_first : Option SessionId → Window T → Window T
      unfolding first_pane
      focus_or_first (some id) w = w
      focus_or_first none w = record w { focused = first_pane w.tree (tree.active_tiles w.tree) }

      unfoldable pub validate_focus : Window T → Window T
      unfolding focus_or_first pane_at
      validate_focus w = focus_or_first (pane_at w.tree w.focused) w

      reopened : TileId → Bool × Window T → Bool × Window T
      reopened tile (true, w) = (true, w)
      reopened tile (false, w) = (false, close_tile tile w)

      reopen : SessionId → Option PaneSource → Window T → Bool × Window T
      reopen instance none w = (false, w)
      reopen instance (some source) w = open_source instance source w

      restore_leaves :
          Map PaneSource → List (TileId × SessionId) → Bool → Window T → Bool × Window T
      unfolding reopened reopen
      restore_leaves layout [] opened_any w = (opened_any, w)
      restore_leaves layout ((tile, instance) ∷ leaves) opened_any w =
          let (ok, w') = reopened tile (reopen instance (get instance layout) w) in
          restore_leaves layout leaves (if ok then true else opened_any) w'

      -- The persisted tree, sources and focus.
      unfoldable pub restore : T → Map PaneSource → Option TileId → Window T → Bool × Window T
      unfolding restore_leaves
      restore t layout focused w =
          let (any_back, w') = restore_leaves layout (tree.panes t) false (record w { tree = t }) in
          (any_back, validate_focus (record w' { focused = focused }))

is_ssh : Option SessionSpec → Bool
is_ssh none = false
is_ssh (some spec) = elim spec.kind [
  | ssh c ↦ true
  | serial c ↦ false
  | local_shell c ↦ false
  | rdp c ↦ false
]

pub pane_is_ssh : {T : Type 0} → SessionId → Window T → Bool
unfolding is_ssh spec_of
pane_is_ssh instance w = elim (get instance w.sources) [
  | some source ↦ is_ssh (spec_of source w.library)
  | none ↦ false
]
