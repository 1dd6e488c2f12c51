-- ===== src/Store/AtomicWrite/Tests.antt =====
-- A disk in memory, where a file's bytes are one number.
use poly_term.Prelude.{
  ℕ, ◌≡◌, ◌≢◌, refl, sym, ap, inl, inr, Bool, true, false, Option, none, some, [], ◌∷◌,
  if◌then◌else◌, ◌==◌, ==_refl, ==_sound, list_eq, nat_eq, Bool-cases,
}
use poly_term.Prelude.Text.{codes}
use poly_term.Prelude.Path.{PathBuf}
use poly_term.Store.Files.{ReadResult, contents, not_found}
use poly_term.Store.AtomicWrite.{Fs, temp, atomic_write}
use poly_term.Store.AtomicWrite.Laws.{Outcome, atomic_write-Outcome}

abbrev Memory : Type 0
Memory = PathBuf → Option ℕ

abbrev read_slot : Option ℕ → ReadResult ℕ
read_slot none = not_found
read_slot (some b) = contents b

abbrev is_there : Option ℕ → Bool
is_there none = false
is_there (some b) = true

abbrev set_slot : Memory → PathBuf → Option ℕ → Memory
set_slot d p o q = if p == q then o else d q

set_slot_self : (d : Memory) (p : PathBuf) (o : Option ℕ) → set_slot d p o p ≡ o
set_slot_self d p o = rw (==_refl p) refl

set_slot_ne :
    (d : Memory) (p : PathBuf) (o : Option ℕ) (q : PathBuf) → q ≢ p → set_slot d p o q ≡ d q
set_slot_ne d p o q ne = elim (Bool-cases (p == q)) [
  | inl e ↦ absurd (ne (sym (==_sound p q e)))
  | inr e ↦ rw e refl
]

abbrev moved : Memory → PathBuf → PathBuf → Option ℕ → Memory × Bool
moved d p q none = (d, false)
moved d p q (some b) = (set_slot (set_slot d p none) q (some b), true)

read-moved :
    (d : Memory) (p q : PathBuf) (o : Option ℕ)
    → (moved d p q o).1 ≡ true
    → read_slot ((moved d p q o).0 q) ≡ read_slot o
read-moved d p q none e = cc
read-moved d p q (some b) e = ap read_slot (set_slot_self (set_slot d p none) q (some b))

read-moved_ne :
    (d : Memory) (p q r : PathBuf) (o : Option ℕ)
    → r ≢ p
    → r ≢ q
    → read_slot ((moved d p q o).0 r) ≡ read_slot (d r)
read-moved_ne d p q r none np nq = refl
read-moved_ne d p q r (some b) np nq =
    rw (set_slot_ne (set_slot d p none) q (some b) r nq, set_slot_ne d p none r np) refl

read-moved_failed :
    (d : Memory) (p q r : PathBuf) (o : Option ℕ)
    → (moved d p q o).1 ≡ false
    → read_slot ((moved d p q o).0 r) ≡ read_slot (d r)
read-moved_failed d p q r none e = refl
read-moved_failed d p q r (some b) e = cc

is_there_read : (o : Option ℕ) (b : ℕ) → read_slot o ≡ contents b → is_there o ≡ true
is_there_read none b e = cc
is_there_read (some b') b e = refl

abbrev memory : Fs
memory = record {
  Disk = Memory;
  Bytes = ℕ;
  read = λ d p. read_slot (d p);
  exists = λ d p. is_there (d p);
  is_dir = λ d p. false;
  create_dir_all = λ d p. (d, true);
  remove_file = λ d p. (set_slot d p none, is_there (d p));
  write = λ d p b. (set_slot d p (some b), true);
  rename = λ d p q. moved d p q (d p);
  exists_read = λ d p b e. is_there_read (d p) b e;
  read-create_dir_all = λ d p q. refl;
  read-remove_file = λ d p q ne. ap read_slot (set_slot_ne d p none q ne);
  read-write_ne = λ d p b q ne. ap read_slot (set_slot_ne d p (some b) q ne);
  read-write = λ d p b e. ap read_slot (set_slot_self d p (some b));
  read-rename = λ d p q e. read-moved d p q (d p) e;
  read-rename_ne = λ d p q r np nq. read-moved_ne d p q r (d p) np nq;
  read-rename_failed = λ d p q r e. read-moved_failed d p q r (d p) e;
}

abbrev empty : Memory
empty p = none

abbrev path : PathBuf
path = codes "home" ∷ codes "sessions.json" ∷ []

atomic_write-Outcome_example :
    Outcome memory
      (codes "7")
      (temp memory (codes "7") path)
      path
      5
      empty
      (atomic_write memory (codes "7") empty path 5)
    × (temp memory (codes "7") path ≢ path)
atomic_write-Outcome_example = atomic_write-Outcome memory (codes "7") empty path 5
