-- ===== src/Store/Files.antt =====
-- What the library asks of the disk and of the JSON library. `Store/AtomicWrite/Laws` gives such a disk,
-- from the calls of `std::fs` and the `atomic_write` that the crate makes of them.
use poly_term.Prelude.{◌≡◌, ◌≢◌, Bool, true, false, Option, some, List}
use poly_term.Prelude.Text.{Text}
use poly_term.Core.Session.{PathBuf}
use poly_term.Store.Library.{SessionFileData, IndexEntry}

-- What `std::fs::read` gives.
pub data ReadResult (B : Type 0) : Type 0 where
  contents : B → ReadResult B
  not_found : ReadResult B
  failed : Text → ReadResult B

-- A write gives the new disk and whether it succeeded.
pub record Files : Type 1 where
  pub Disk : Type 0
  pub Bytes : Type 0
  pub read : Disk → PathBuf → ReadResult Bytes
  pub exists : Disk → PathBuf → Bool
  pub is_dir : Disk → PathBuf → Bool
  pub create_dir_all : Disk → PathBuf → Disk × Bool
  pub atomic_write : Disk → PathBuf → Bytes → Disk × Bool
  -- The sibling file that a write goes through.
  pub temp : PathBuf → PathBuf
  -- What can be read is there.
  pub exists_read : (d : Disk) (p : PathBuf) (b : Bytes) → read d p ≡ contents b → exists d p ≡ true
  -- A file that is there is left as it is.
  pub read-create_dir_all :
      (d : Disk) (p q : PathBuf) (c : Bytes)
      → read d q ≡ contents c
      → read (create_dir_all d p).0 q ≡ contents c
  pub write_done :
      (d : Disk) (p : PathBuf) (b : Bytes)
      → (atomic_write d p b).1 ≡ true
      → read (atomic_write d p b).0 p ≡ contents b
  pub write_failed :
      (d : Disk) (p : PathBuf) (b : Bytes)
      → (atomic_write d p b).1 ≡ false
      → read (atomic_write d p b).0 p ≡ read d p
  pub write_frame :
      (d : Disk) (p : PathBuf) (b : Bytes) (q : PathBuf) (c : Bytes)
      → q ≢ p
      → q ≢ temp p
      → read d q ≡ contents c
      → read (atomic_write d p b).0 q ≡ contents c

-- `serde_json`: writing may fail, and what was written is read back.
pub record Json (B : Type 0) : Type 0 where
  pub write_file : SessionFileData → Option B
  pub parse_file : B → Option SessionFileData
  pub write_index : List IndexEntry → Option B
  pub parse_index : B → Option (List IndexEntry)
  pub parse-write_file :
      (d : SessionFileData) (b : B) → write_file d ≡ some b → parse_file b ≡ some d
  pub parse-write_index :
      (es : List IndexEntry) (b : B) → write_index es ≡ some b → parse_index b ≡ some es
