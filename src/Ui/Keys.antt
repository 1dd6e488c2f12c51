-- ===== src/Ui/Keys.antt =====
-- crates/polyterm-ui/src/keys.rs: the check of a key's passphrase. The crate that reads and decrypts a key is the
-- argument `read_openssh_file`.
use poly_term.Prelude.{Bool, Option, none, some, if◌then◌else◌}
use poly_term.Prelude.Text.{Text}
use poly_term.Prelude.Path.{PathBuf}

pub data PassphraseCheck : Type 0 where
  correct incorrect unverifiable : PassphraseCheck

-- What `ssh_key::PrivateKey` tells of a key.
pub record PrivateKey : Type 0 where
  pub is_encrypted : Bool
  pub decrypt : Text → Bool

unfoldable pub verify_passphrase : (PathBuf → Option PrivateKey) → PathBuf → Text → PassphraseCheck
verify_passphrase read_openssh_file path passphrase = elim (read_openssh_file path) [
  | some key ↦
      if key.is_encrypted then (if key.decrypt passphrase then correct else incorrect) else correct
  | none ↦ unverifiable
]
