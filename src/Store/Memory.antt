-- ===== src/Store/Memory.antt =====
-- A disk in memory where every write succeeds, for the tests of what the crate stores.
use poly_term.Prelude.{
  ◌≡◌, refl, sym, ap, ◌≢◌, ◌∙◌, inl, inr, Bool, true, false, Option, none, some, ◌∷◌, if◌then◌else◌,
  ◌==◌, ==_refl, ==_sound, list_eq, nat_eq, Bool-cases,
}
use poly_term.Prelude.Text.{codes}
use poly_term.Prelude.Path.{PathBuf}
use poly_term.Store.Files.{Files, ReadResult, contents, not_found}

module _ (Document : Type 0) where
  abbrev pub MemoryDisk : Type 0
  MemoryDisk = PathBuf → Option Document

  abbrev pub read_memory : Option Document → ReadResult Document
  read_memory none = not_found
  read_memory (some d) = contents d

  abbrev pub is_there : Option Document → Bool
  is_there none = false
  is_there (some d) = true

  abbrev pub put : MemoryDisk → PathBuf → Document → MemoryDisk
  put d p b q = if p == q then some b else d q

  abbrev pub temp_of : PathBuf → PathBuf
  temp_of p = codes "temp" ∷ p

  pub is_there_read :
      (o : Option Document) (b : Document) → read_memory o ≡ contents b → is_there o ≡ true
  is_there_read none b e = cc
  is_there_read (some d) b e = refl

  pub put_frame :
      (d : MemoryDisk) (p : PathBuf) (b : Document) (q : PathBuf) → q ≢ p → put d p b q ≡ d q
  put_frame d p b q ne = elim (Bool-cases (p == q)) [
    | inl e ↦ absurd (ne (sym (==_sound p q e)))
    | inr e ↦ rw e
  ]

  pub put_self : (d : MemoryDisk) (p : PathBuf) (b : Document) → put d p b p ≡ some b
  put_self d p b = rw (==_refl p)

  pub never_failed :
      (d : MemoryDisk) (p : PathBuf) (b : Document)
      → true ≡ false
      → read_memory (put d p b p) ≡ read_memory (d p)
  never_failed d p b h = cc

  abbrev pub memory_of : Files
  memory_of = record {
    Disk = MemoryDisk;
    Bytes = Document;
    read = λ d p. read_memory (d p);
    exists = λ d p. is_there (d p);
    is_dir = λ d p. false;
    create_dir_all = λ d p. (d, true);
    atomic_write = λ d p b. (put d p b, true);
    temp = temp_of;
    exists_read = λ d p. is_there_read (d p);
    read-create_dir_all = λ d p q c h. h;
    write_done = λ d p b h. ap read_memory (put_self d p b);
    write_failed = never_failed;
    write_frame = λ d p b q c ne _ h. ap read_memory (put_frame d p b q ne) ∙ h;
  }
