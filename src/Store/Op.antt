-- ===== src/Store/Op.antt =====
-- `Result<_, StoreError>` of crates/polyterm-store/src/lib.rs, and methods on `&mut self` that may
-- fail: what was changed before an error stays changed. A message is kept as what it is made of.
use poly_term.Prelude.Text.{Text}
use poly_term.Core.Session.{PathBuf}

-- Why a top-level folder cannot be added.
pub data Duplicate : Type 0 where
  no_name : Duplicate
  name_taken : Text → Duplicate
  path_taken : PathBuf → Duplicate

pub data StoreError : Type 0 where
  serde : StoreError
  no_home_dir : StoreError
  unknown_top_folder : Text → StoreError
  duplicate_top_folder : Duplicate → StoreError
  not_writable : PathBuf → StoreError
  io : StoreError
  keyring : StoreError
  keyring_init : Text → StoreError

pub data Result {ℓ} (A : Type ℓ) : Type ℓ where
  ok : A → Result A
  err : StoreError → Result A

abbrev pub Op {ℓ} : Type ℓ → Type ℓ → Type ℓ
Op S A = S → Result A × S

module _ {ℓ} {S A : Type ℓ} where
  abbrev pub pure : A → Op S A
  pure a s = (ok a, s)

  abbrev pub fail : StoreError → Op S A
  fail e s = (err e, s)

  abbrev pub lift : Result A → Op S A
  lift r s = (r, s)

  abbrev pub gets : (S → A) → Op S A
  gets f s = (ok (f s), s)

module _ {ℓ} {S A B : Type ℓ} where
  abbrev pub continue : (A → Op S B) → Result A → Op S B
  continue f (ok a) s = f a s
  continue f (err e) s = (err e, s)

  infixl 10 ◌>>=◌ ◌>>◌
  abbrev pub ◌>>=◌ : Op S A → (A → Op S B) → Op S B
  ◌>>=◌ m f s = continue f (m s).0 (m s).1

  abbrev pub ◌>>◌ : Op S A → Op S B → Op S B
  m >> n = m >>= λ _. n
