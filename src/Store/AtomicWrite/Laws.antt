-- ===== src/Store/AtomicWrite/Laws.antt =====
-- crates/polyterm-store/src/lib.rs: what `atomic_write` promises the library.
use poly_term.Prelude.{
  suc, ◌≡◌, ◌≢◌, refl, sym, ap, ◌∙◌, inl, inr, Bool, true, false, ◌||◌, Option, none, some, [], ◌∷◌,
  ◌++◌, arith, length, length-append, Bool-cases, ◌==◌, list_eq, nat_eq,
}
use poly_term.Prelude.Text.{Text, codes}
use poly_term.Prelude.Path.{PathBuf, parent, file_name, is_slash}
use poly_term.Store.Files.{contents, Files}
use poly_term.Store.AtomicWrite.{
  Fs, replace_last, with_name, with_file_name, name_or_default, temp, create_parent, finish_rename,
  rename_written, write_temp, atomic_write,
}

file_name-last :
    (path : PathBuf) (name old : Text)
    → file_name path ≡ some old
    → replace_last path name ≡ path
    → name ≡ old
unfolding file_name replace_last
file_name-last [] name old is_old same = cc
file_name-last (c ∷ []) name old is_old same =
    elim (Bool-cases (is_slash c || c == codes "." || c == codes "..")) [
      | inl e ↦ let nothing : none ≡ some old = rw (← is_old, e) refl in cc
      | inr e ↦ let here : some c ≡ some old = rw (← is_old, e) refl in cc
    ]
file_name-last (c ∷ d ∷ path) name old is_old same = file_name-last (d ∷ path) name old is_old cc

longer : (name suffix : Text) → 46 ∷ (name ++ suffix) ≢ name
longer name suffix e =
    let by_length : suc (length (name ++ suffix)) ≡ length name = ap length e in
    omega (arith, by_length, length-append name suffix)

module _ (fs : Fs) (pid : Text) where
  with_name-ne :
      (path : PathBuf) (suffix : Text) (o : Option Text)
      → file_name path ≡ o
      → with_name path (46 ∷ (name_or_default o ++ suffix)) o ≢ path
  with_name-ne path suffix none e same =
      let by_length : length (path ++ (46 ∷ (name_or_default none ++ suffix)) ∷ []) ≡ length path =
        ap length same in
      omega (arith, by_length, length-append path ((46 ∷ (name_or_default none ++ suffix)) ∷ []))
  with_name-ne path suffix (some old) e same =
      longer old suffix (file_name-last path (46 ∷ (old ++ suffix)) old e same)

  -- The temporary file is never the file itself.
  pub temp-ne : (path : PathBuf) → temp fs pid path ≢ path
  unfolding temp with_file_name
  temp-ne path = with_name-ne path (46 ∷ (pid ++ codes ".tmp")) (file_name path) refl

  -- A write from `d` to the path, through the temporary file.
  pub Outcome : PathBuf → PathBuf → fs.Bytes → fs.Disk → fs.Disk × Bool → Type 0
  Outcome tmp path bytes d (d', true) =
      (fs.read d' path ≡ contents bytes)
      × ((q : PathBuf) → q ≢ path → q ≢ tmp → fs.read d' q ≡ fs.read d q)
  Outcome tmp path bytes d (d', false) = (q : PathBuf) → q ≢ tmp → fs.read d' q ≡ fs.read d q

  -- The disks agree but for the temporary file.
  abbrev Agree : PathBuf → fs.Disk → fs.Disk → Type 0
  Agree tmp d' d = (q : PathBuf) → q ≢ tmp → fs.read d' q ≡ fs.read d q

  finish_rename-Outcome :
      (tmp path : PathBuf) (bytes : fs.Bytes) (d d1 : fs.Disk) (r : fs.Disk × Bool)
      → Agree tmp d1 d
      → (r.1 ≡ true → fs.read r.0 path ≡ contents bytes)
      → ((q : PathBuf) → q ≢ tmp → q ≢ path → fs.read r.0 q ≡ fs.read d1 q)
      → (r.1 ≡ false → (q : PathBuf) → fs.read r.0 q ≡ fs.read d1 q)
      → Outcome tmp path bytes d (finish_rename fs pid tmp r)
  unfolding Outcome
  finish_rename-Outcome tmp path bytes d d1 (d2, true) agree written frame unchanged =
      (written refl, λ q not_path not_tmp. frame q not_tmp not_path ∙ agree q not_tmp)
  finish_rename-Outcome tmp path bytes d d1 (d2, false) agree written frame unchanged =
      λ q not_tmp. fs.read-remove_file d2 tmp q not_tmp ∙ unchanged refl q ∙ agree q not_tmp

  rename_written-Outcome :
      (tmp path : PathBuf) (bytes : fs.Bytes) (d : fs.Disk) (r : fs.Disk × Bool)
      → Agree tmp r.0 d
      → (r.1 ≡ true → fs.read r.0 tmp ≡ contents bytes)
      → Outcome tmp path bytes d (rename_written fs pid tmp path r)
  unfolding Outcome
  rename_written-Outcome tmp path bytes d (d1, true) agree written =
      finish_rename-Outcome tmp path bytes d d1 (fs.rename d1 tmp path) agree
        (λ e. fs.read-rename d1 tmp path e ∙ written refl)
        (λ q not_tmp not_path. fs.read-rename_ne d1 tmp path q not_tmp not_path)
        (λ e q. fs.read-rename_failed d1 tmp path q e)
  rename_written-Outcome tmp path bytes d (d1, false) agree written = agree

  write_temp-Outcome :
      (tmp path : PathBuf) (bytes : fs.Bytes) (d : fs.Disk) (r : fs.Disk × Bool)
      → Agree tmp r.0 d
      → Outcome tmp path bytes d (write_temp fs pid tmp path bytes r)
  unfolding Outcome
  write_temp-Outcome tmp path bytes d (d1, true) agree =
      let d2 = (fs.remove_file d1 tmp).0 in
      rename_written-Outcome tmp path bytes d (fs.write d2 tmp bytes)
        (λ q not_tmp.
          fs.read-write_ne d2 tmp bytes q not_tmp
          ∙ fs.read-remove_file d1 tmp q not_tmp
          ∙ agree q not_tmp)
        (fs.read-write d2 tmp bytes)
  write_temp-Outcome tmp path bytes d (d1, false) agree = agree

  create_parent-read :
      (o : Option PathBuf) (d : fs.Disk) (q : PathBuf)
      → fs.read (create_parent fs pid o d).0 q ≡ fs.read d q
  unfolding create_parent
  create_parent-read none d q = refl
  create_parent-read (some dir) d q = fs.read-create_dir_all d dir q

  -- A write that reports success leaves exactly the new bytes in the file, and one that reports an error leaves
  -- the old file whole; no other file is touched but the temporary one, which is never the file itself.
  pub atomic_write-Outcome :
      (d : fs.Disk) (path : PathBuf) (bytes : fs.Bytes)
      → Outcome (temp fs pid path) path bytes d (atomic_write fs pid d path bytes)
        × (temp fs pid path ≢ path)
  unfolding atomic_write
  atomic_write-Outcome d path bytes = (
    write_temp-Outcome (temp fs pid path) path bytes d (create_parent fs pid (parent path) d)
        (λ q not_tmp. create_parent-read (parent path) d q),
    temp-ne path,
  )

  abbrev Done : PathBuf → fs.Bytes → fs.Disk × Bool → Type 0
  Done path bytes r = r.1 ≡ true → fs.read r.0 path ≡ contents bytes

  pub write_done :
      (tmp path : PathBuf) (bytes : fs.Bytes) (d : fs.Disk) (r : fs.Disk × Bool)
      → Outcome tmp path bytes d r
      → r.1 ≡ true
      → fs.read r.0 path ≡ contents bytes
  unfolding Outcome
  write_done tmp path bytes d (d', true) o e = o.0
  write_done tmp path bytes d (d', false) o e = cc

  pub write_failed :
      (tmp path : PathBuf) (bytes : fs.Bytes) (d : fs.Disk) (r : fs.Disk × Bool)
      → tmp ≢ path
      → Outcome tmp path bytes d r
      → r.1 ≡ false
      → fs.read r.0 path ≡ fs.read d path
  unfolding Outcome
  write_failed tmp path bytes d (d', true) ne o e = cc
  write_failed tmp path bytes d (d', false) ne o e = o path (λ same. ne (sym same))

  pub write_frame :
      (tmp path : PathBuf) (bytes : fs.Bytes) (d : fs.Disk) (r : fs.Disk × Bool) (q : PathBuf)
      → Outcome tmp path bytes d r
      → q ≢ path
      → q ≢ tmp
      → fs.read r.0 q ≡ fs.read d q
  unfolding Outcome
  write_frame tmp path bytes d (d', true) q o not_path not_tmp = o.1 q not_path not_tmp
  write_frame tmp path bytes d (d', false) q o not_path not_tmp = o q not_tmp

  -- The disk as the library uses it.
  abbrev pub files : Files
  files = record {
    Disk = fs.Disk;
    Bytes = fs.Bytes;
    read = fs.read;
    exists = fs.exists;
    is_dir = fs.is_dir;
    create_dir_all = fs.create_dir_all;
    atomic_write = atomic_write fs pid;
    temp = temp fs pid;
    exists_read = fs.exists_read;
    read-create_dir_all = λ d p q c h. fs.read-create_dir_all d p q ∙ h;
    write_done = λ d p b e.
        write_done (temp fs pid p) p b d (atomic_write fs pid d p b) (atomic_write-Outcome d p b).0
          e;
    write_failed = λ d p b e.
        write_failed (temp fs pid p) p b d (atomic_write fs pid d p b) (temp-ne p)
          (atomic_write-Outcome d p b).0 e;
    write_frame = λ d p b q c not_path not_tmp h.
        write_frame (temp fs pid p) p b d (atomic_write fs pid d p b) q
          (atomic_write-Outcome d p b).0 not_path not_tmp
        ∙ h;
  }
