-- ===== src/Store/Library/Ops/Tests.antt =====
-- The session library over a disk in memory, where every write succeeds.
use poly_term.Prelude.{
  ap, ℕ, ◌≡◌, refl, ◌≢◌, Bool, true, Option, none, some, List, [], ◌∷◌, arith, if◌then◌else◌, ◌==◌,
  list_eq, nat_eq,
}
use poly_term.Prelude.Text.{Text, codes}
use poly_term.Prelude.Path.{PathBuf, join}
use poly_term.Core.Session.{SessionId, FolderPath, SessionSpec, local_shell, ExitAction}
use poly_term.Store.Op.{ok}
use poly_term.Store.Files.{Files, Json, contents}
use poly_term.Store.Memory.{MemoryDisk, put, temp_of, read_memory, memory_of}
use poly_term.Store.Library.{
  SessionFileData, empty_file, TopFolder, IndexEntry, locate, get_session, absolute,
  ensure_writable, dedup, sort_unstable, take_out_changed, take_out_tops, modify,
}
use poly_term.Store.Library.Ops.{
  World, save_top, save_tops, upsert_session, delete_session, move_session,
}
use poly_term.Store.Library.Ops.Include.{open_in}
use poly_term.Store.Library.Ops.Crud.{get-upsert, get-upsert_ne, get-delete, get-move}
use poly_term.Store.Library.Ops.Stored.{paths, Stored, AllApart, upsert-Stored}
use poly_term.Store.Library.Ops.History.{Action, upserts, deletes, adds_file, run, read-run_open}

data Document : Type 0 where
  file : SessionFileData → Document
  index : List IndexEntry → Document
  junk : Document

abbrev memory : Files
memory = memory_of Document

abbrev file_of : Document → Option SessionFileData
file_of (file d) = some d
file_of (index es) = none
file_of junk = none

abbrev index_of : Document → Option (List IndexEntry)
index_of (file d) = none
index_of (index es) = some es
index_of junk = none

parse_written_file :
    (d : SessionFileData) (b : Document) → some (file d) ≡ some b → file_of b ≡ some d
parse_written_file d b h = ground arith

parse_written_index :
    (es : List IndexEntry) (b : Document) → some (index es) ≡ some b → index_of b ≡ some es
parse_written_index es b h = ground arith

abbrev json : Json Document
json = record {
  write_file = λ d. some (file d);
  parse_file = file_of;
  write_index = λ es. some (index es);
  parse_index = index_of;
  parse-write_file = parse_written_file;
  parse-write_index = parse_written_index;
}

abbrev shell : SessionId → Text → FolderPath → SessionSpec
shell id name folder = record {
  id = id;
  name = name;
  folder = folder;
  kind = local_shell (record { shell = none; working_directory = none; env = [] });
  on_exit = ExitAction.prompt;
}

abbrev work : TopFolder
work = record {
  name = codes "Work";
  path = codes "/" ∷ codes "w.json" ∷ [];
  contents = record { folders = []; sessions = shell 1 (codes "build") (codes "ci" ∷ []) ∷ [] };
  writable = true;
  error = none;
}

abbrev home : TopFolder
home = record {
  name = codes "Home";
  path = codes "/" ∷ codes "h.json" ∷ [];
  contents = empty_file;
  writable = true;
  error = none;
}

abbrev world : World memory
world = record {
  lib = record {
    index_path = codes "/" ∷ codes "library.json" ∷ [];
    dir = codes "/" ∷ [];
    tops = work ∷ home ∷ [];
  };
  disk = λ p. none;
}

abbrev moved : SessionSpec
moved = shell 1 (codes "build") (codes "Home" ∷ codes "old" ∷ [])

-- What the operations below run through.
pub runs : Bool
unfolding upsert_session save_tops save_top locate ensure_writable dedup sort_unstable
    take_out_changed modify take_out_tops
runs = true

-- Moving a session to another file rewrites both files.
upsert_saves :
    ((upsert_session memory json moved world).0 ≡ ok tt)
    × ((upsert_session memory json moved world).1.disk work.path
        ≡ some (file (record { folders = []; sessions = [] })))
unfolding runs
upsert_saves = (refl, refl)

get-upsert_example : get_session (upsert_session memory json moved world).1.lib.tops 1 ≡ some moved
get-upsert_example = get-upsert memory json moved world upsert_saves.0

-- The same library, with its files on the disk.
abbrev on_disk : World memory
on_disk = record world {
  disk =
      put Document (put Document (λ p. none) work.path (file work.contents)) home.path
        (file home.contents);
}

abbrev initial : PathBuf → ℕ
initial (c ∷ (d ∷ name) ∷ path) = d
initial (c ∷ [] ∷ path) = 0
initial (c ∷ []) = 0
initial [] = 0

files_apart : AllApart memory json (paths on_disk.lib.tops)
files_apart = (
  (((λ e. omega (arith, ap initial e), λ e. cc), (λ e. omega (arith, ap initial e), λ e. cc)), tt),
  (tt, tt),
)

all_on_disk : Stored memory json on_disk
all_on_disk = ((file work.contents, refl, refl), ((file home.contents, refl, refl), tt))

upsert_succeeds : (upsert_session memory json moved on_disk).0 ≡ ok tt
unfolding runs
upsert_succeeds = refl

upsert-Stored_example :
    Stored memory json (upsert_session memory json moved on_disk).1
    × (get_session (upsert_session memory json moved on_disk).1.lib.tops 1 ≡ some moved)
upsert-Stored_example =
    upsert-Stored memory json moved on_disk files_apart all_on_disk upsert_succeeds

get-upsert_ne_example :
    get_session (upsert_session memory json moved world).1.lib.tops 2 ≡ get_session world.lib.tops 2
get-upsert_ne_example = get-upsert_ne memory json moved world 2 (omega arith)

get-delete_example :
    (get_session (delete_session memory json 1 world).1.lib.tops 1 ≡ none)
    × ((id' : SessionId)
        → 1 ≢ id'
        → get_session (delete_session memory json 1 world).1.lib.tops id'
          ≡ get_session world.lib.tops id')
get-delete_example = get-delete memory json 1 world

abbrev found : SessionSpec
found = shell 1 (codes "build") (codes "Work" ∷ codes "ci" ∷ [])

found_it : get_session world.lib.tops 1 ≡ some found
unfolding get_session absolute
found_it = refl

move_saves : (move_session memory json 1 moved.folder world).0 ≡ ok tt
unfolding runs move_session get_session absolute
move_saves = refl

get-move_example :
    (get_session (move_session memory json 1 moved.folder world).1.lib.tops 1 ≡ some moved)
    × ((id' : SessionId)
        → 1 ≢ id'
        → get_session (move_session memory json 1 moved.folder world).1.lib.tops id'
          ≡ get_session world.lib.tops id')
get-move_example = get-move memory json 1 moved.folder found world found_it move_saves

-- A disk with one file, which does not parse.
abbrev bad : PathBuf
bad = codes "/" ∷ codes "p" ∷ codes "sessions.json" ∷ []

abbrev bad_disk : MemoryDisk Document
bad_disk p = if p == bad then some junk else none

abbrev actions : List Action
actions = adds_file (codes "Bad") bad ∷ upserts moved ∷ deletes 1 ∷ []

not_temp : (p : PathBuf) → bad ≢ temp_of Document p
not_temp p e = cc

read-run_open_example :
    read_memory Document (
      (run memory json actions (open_in memory json bad_disk (codes "/" ∷ codes "p" ∷ [])).1).disk
        bad)
    ≡ contents junk
unfolding join
read-run_open_example =
    read-run_open memory json bad junk not_temp refl bad_disk (codes "/" ∷ codes "p" ∷ []) actions
      refl (λ e. ground arith)
