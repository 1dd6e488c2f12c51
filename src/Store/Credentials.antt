-- ===== src/Store/Credentials.antt =====
-- crates/polyterm-store/src/credentials.rs: secrets in the platform's keyring. The keyring is another crate's: what
-- it does with an entry is the argument `platform`, over a state `K` of its own.
use poly_term.Prelude.{◌⊎◌, inl, inr, Option, none, some}
use poly_term.Prelude.Text.{Text}
use poly_term.Core.Session.{CredentialRef}
use poly_term.Store.Op.{keyring, keyring_init, Result, ok, err}

-- `keyring_core::Error`, as far as the code tells its values apart.
pub data KeyringError : Type 0 where
  no_entry platform_failure : KeyringError

-- `Entry::new`, and what the methods of an entry do to the keyring.
pub record Platform (K : Type 0) : Type 0 where
  pub entry : CredentialRef → Option KeyringError
  pub get_password : K → CredentialRef → KeyringError ⊎ Text
  pub set_password : K → CredentialRef → Text → Option KeyringError × K
  pub delete_credential : K → CredentialRef → Option KeyringError × K

-- The argument is the error of `keyring::Entry::store_status`, if it has one.
pub init : Option Text → Result {0} Unit
init none = ok tt
init (some message) = err (keyring_init message)

written : {K : Type 0} → Option KeyringError × K → Result {0} Unit × K
written (none, k) = (ok tt, k)
written (some e, k) = (err keyring, k)

found : KeyringError ⊎ Text → Result (Option Text)
found (inr password) = ok (some password)
found (inl no_entry) = ok none
found (inl platform_failure) = err keyring

deleted : {K : Type 0} → Option KeyringError × K → Result {0} Unit × K
deleted (none, k) = (ok tt, k)
deleted (some no_entry, k) = (ok tt, k)
deleted (some platform_failure, k) = (err keyring, k)

module _ {K : Type 0} (platform : Platform K) where
  unfoldable pub store : CredentialRef → Text → K → Result {0} Unit × K
  unfolding written
  store credential secret k = elim (platform.entry credential) [
    | some e ↦ (err keyring, k)
    | none ↦ written (platform.set_password k credential secret)
  ]

  unfoldable pub load : CredentialRef → K → Result (Option Text)
  unfolding found
  load credential k = elim (platform.entry credential) [
    | some e ↦ err keyring
    | none ↦ found (platform.get_password k credential)
  ]

  unfoldable pub delete : CredentialRef → K → Result {0} Unit × K
  unfolding deleted
  delete credential k = elim (platform.entry credential) [
    | some e ↦ (err keyring, k)
    | none ↦ deleted (platform.delete_credential k credential)
  ]
