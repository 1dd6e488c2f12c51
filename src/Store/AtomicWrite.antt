-- ===== src/Store/AtomicWrite.antt =====
-- crates/polyterm-store/src/lib.rs: `atomic_write`, over the calls of `std::fs` that it makes. The process id
-- and how it is printed are part of the suffix of the temporary file's name.
pub mod Laws
mod Tests
use poly_term.Prelude.{
  ℕ, suc, ◌+◌, ◌≡◌, ◌≢◌, refl, sym, ap, ◌∙◌, inl, inr, Bool, true, false, Option, none, some, List,
  [], ◌∷◌, ◌++◌, arith, length, length-append, Bool-cases,
}
use poly_term.Prelude.Text.{Text, codes}
use poly_term.Prelude.Path.{PathBuf, parent, file_name}
use poly_term.Store.Files.{ReadResult, contents, Files}

-- Each call that changes the disk gives the new one and whether it succeeded. The laws are about files: that a path
-- reads otherwise once a directory is made there, or a directory above it is renamed, and links, are left out.
pub record Fs : Type 1 where
  pub Disk : Type 0
  pub Bytes : Type 0
  pub read : Disk → PathBuf → ReadResult Bytes
  pub exists : Disk → PathBuf → Bool
  pub is_dir : Disk → PathBuf → Bool
  pub create_dir_all : Disk → PathBuf → Disk × Bool
  pub remove_file : Disk → PathBuf → Disk × Bool
  pub write : Disk → PathBuf → Bytes → Disk × Bool
  pub rename : Disk → PathBuf → PathBuf → Disk × Bool
  pub exists_read : (d : Disk) (p : PathBuf) (b : Bytes) → read d p ≡ contents b → exists d p ≡ true
  pub read-create_dir_all : (d : Disk) (p q : PathBuf) → read (create_dir_all d p).0 q ≡ read d q
  pub read-remove_file : (d : Disk) (p q : PathBuf) → q ≢ p → read (remove_file d p).0 q ≡ read d q
  pub read-write_ne :
      (d : Disk) (p : PathBuf) (b : Bytes) (q : PathBuf) → q ≢ p → read (write d p b).0 q ≡ read d q
  pub read-write :
      (d : Disk) (p : PathBuf) (b : Bytes)
      → (write d p b).1 ≡ true
      → read (write d p b).0 p ≡ contents b
  pub read-rename :
      (d : Disk) (p q : PathBuf) → (rename d p q).1 ≡ true → read (rename d p q).0 q ≡ read d p
  pub read-rename_ne :
      (d : Disk) (p q r : PathBuf) → r ≢ p → r ≢ q → read (rename d p q).0 r ≡ read d r
  -- A rename that fails changes nothing.
  pub read-rename_failed :
      (d : Disk) (p q r : PathBuf) → (rename d p q).1 ≡ false → read (rename d p q).0 r ≡ read d r

-- `Path::with_file_name`
replace_last : PathBuf → Text → PathBuf
replace_last [] name = name ∷ []
replace_last (c ∷ []) name = name ∷ []
replace_last (c ∷ d ∷ path) name = c ∷ replace_last (d ∷ path) name

abbrev with_name : PathBuf → Text → Option Text → PathBuf
with_name path name none = path ++ name ∷ []
with_name path name (some old) = replace_last path name

pub with_file_name : PathBuf → Text → PathBuf
unfolding replace_last
with_file_name path name = with_name path name (file_name path)

abbrev name_or_default : Option Text → Text
name_or_default none = codes "polyterm"
name_or_default (some name) = name

module _ (fs : Fs) (pid : Text) where
  -- `.{file_name}.{pid}.tmp` beside the path.
  pub temp : PathBuf → PathBuf
  temp path =
      with_file_name path (46 ∷ (name_or_default (file_name path) ++ 46 ∷ (pid ++ codes ".tmp")))

  create_parent : Option PathBuf → fs.Disk → fs.Disk × Bool
  create_parent none d = (d, true)
  create_parent (some dir) d = fs.create_dir_all d dir

  abbrev finish_rename : PathBuf → fs.Disk × Bool → fs.Disk × Bool
  finish_rename tmp (d, true) = (d, true)
  finish_rename tmp (d, false) = ((fs.remove_file d tmp).0, false)

  abbrev rename_written : PathBuf → PathBuf → fs.Disk × Bool → fs.Disk × Bool
  rename_written tmp path (d, true) = finish_rename tmp (fs.rename d tmp path)
  rename_written tmp path (d, false) = (d, false)

  abbrev write_temp : PathBuf → PathBuf → fs.Bytes → fs.Disk × Bool → fs.Disk × Bool
  write_temp tmp path bytes (d, true) =
      rename_written tmp path (fs.write (fs.remove_file d tmp).0 tmp bytes)
  write_temp tmp path bytes (d, false) = (d, false)

  pub atomic_write : fs.Disk → PathBuf → fs.Bytes → fs.Disk × Bool
  atomic_write d path bytes = write_temp (temp path) path bytes (create_parent (parent path) d)
