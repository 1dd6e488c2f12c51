-- ===== src/Store/KnownHosts/File.antt =====
-- crates/polyterm-store/src/known_hosts.rs: the trust store with its file (`open`, `save` and the whole
-- `remember_host_key`). The JSON library's codec of the table is an argument, with its round trip a law.
mod Tests
use poly_term.Prelude.{
  ℕ, ◌≡◌, ◌≢◌, refl, ap, ◌∙◌, Bool, true, false, Option, none, some, List, [], ◌∷◌, ==_refl,
  list_eq, nat_eq, if◌then◌else◌,
}
use poly_term.Prelude.Text.{Text}
use poly_term.Core.Session.{PathBuf}
use poly_term.Core.Prompt.{KnownHostStatus, matching, changed}
use poly_term.Store.Op.{StoreError, serde, io, Result, ok, err}
use poly_term.Store.Files.{Files, ReadResult, contents, not_found, failed}
use poly_term.Store.KnownHosts.{HostKey, known_host_status, remember_host_key}
use poly_term.Store.KnownHosts.Trust.{SameHost, status-remember}

-- `serde_json` on the table.
pub record HostsJson (B : Type 0) : Type 0 where
  pub write_hosts : List HostKey → Option B
  pub parse_hosts : B → Option (List HostKey)
  pub parse-write_hosts :
      (hosts : List HostKey) (b : B) → write_hosts hosts ≡ some b → parse_hosts b ≡ some hosts

pub record KnownHosts : Type 0 where
  pub path : PathBuf
  pub hosts : List HostKey

in_memory : KnownHosts
in_memory = record { path = []; hosts = [] }

-- `unwrap_or_default`
pub or_empty : Option (List HostKey) → List HostKey
or_empty none = []
or_empty (some hosts) = hosts

module _ (F : Files) (J : HostsJson F.Bytes) where
  pub loaded : PathBuf → ReadResult F.Bytes → Result KnownHosts
  unfolding or_empty
  loaded path (contents b) = ok (record { path = path; hosts = or_empty (J.parse_hosts b) })
  loaded path not_found = ok (record { path = path; hosts = [] })
  loaded path (failed e) = err io

  pub open_hosts : F.Disk → PathBuf → Result KnownHosts
  unfolding loaded
  open_hosts disk path = loaded path (F.read disk path)

  written : F.Disk × Bool → Result (Unit {0}) × F.Disk
  written (disk, true) = (ok tt, disk)
  written (disk, false) = (err io, disk)

  write_table : F.Disk → PathBuf → Option F.Bytes → Result (Unit {0}) × F.Disk
  unfolding written
  write_table disk path none = (err serde, disk)
  write_table disk path (some b) = written (F.atomic_write disk path b)

  -- An empty path has nowhere to save.
  save_at : F.Disk → PathBuf → List HostKey → Result (Unit {0}) × F.Disk
  unfolding write_table
  save_at disk [] hosts = (ok tt, disk)
  save_at disk (c ∷ path) hosts = write_table disk (c ∷ path) (J.write_hosts hosts)

  pub save : F.Disk → KnownHosts → Result (Unit {0}) × F.Disk
  unfolding save_at
  save disk store = save_at disk store.path store.hosts

  pub remember :
      F.Disk → KnownHosts → Text → ℕ → Text → List ℕ → KnownHosts × (Result (Unit {0}) × F.Disk)
  unfolding save
  remember disk store host port key_type key =
      let next = record store { hosts = remember_host_key store.hosts host port key_type key } in
      (next, save disk next)

  remembered-matching :
      (hosts : List HostKey) (host : Text) (port : ℕ) (key_type : Text) (key : List ℕ)
      → known_host_status (remember_host_key hosts host port key_type key) host port key_type key
        ≡ matching
  remembered-matching hosts host port key_type key =
      (status-remember host port key_type key hosts host port key_type key).0 (refl, refl, refl)
      ∙ rw (==_refl key) refl

  written-ok :
      (disk : F.Disk) (path : PathBuf) (b : F.Bytes) (r : F.Disk × Bool)
      → (r.1 ≡ true → F.read r.0 path ≡ contents b)
      → (written r).0 ≡ ok tt
      → F.read (written r).1 path ≡ contents b
  unfolding written
  written-ok disk path b (d, true) law h = law refl
  written-ok disk path b (d, false) law h = cc

  write_table-ok :
      (disk : F.Disk) (path : PathBuf) (hosts : List HostKey) (out : Option F.Bytes)
      → J.write_hosts hosts ≡ out
      → (write_table disk path out).0 ≡ ok tt
      → open_hosts (write_table disk path out).1 path ≡ ok (record { path = path; hosts = hosts })
  unfolding write_table open_hosts loaded or_empty
  write_table-ok disk path hosts none e h = cc
  write_table-ok disk path hosts (some b) e h =
      ap (loaded path)
        (written-ok disk path b (F.atomic_write disk path b) (F.write_done disk path b) h)
      ∙ ap (λ o. ok (record { path = path; hosts = or_empty o })) (J.parse-write_hosts hosts b e)

  save_at-ok :
      (disk : F.Disk) (path : PathBuf) (hosts : List HostKey)
      → path ≢ []
      → (save_at disk path hosts).0 ≡ ok tt
      → open_hosts (save_at disk path hosts).1 path ≡ ok (record { path = path; hosts = hosts })
  unfolding save_at
  save_at-ok disk [] hosts ne h = absurd (ne refl)
  save_at-ok disk (c ∷ path) hosts ne h =
      write_table-ok disk (c ∷ path) hosts (J.write_hosts hosts) refl h

  pub open-remember :
      (disk : F.Disk) (store : KnownHosts) (host : Text) (port : ℕ) (key_type : Text) (key : List ℕ)
      → store.path ≢ []
      → (remember disk store host port key_type key).1.0 ≡ ok tt
      → open_hosts (remember disk store host port key_type key).1.1 store.path
        ≡ ok (remember disk store host port key_type key).0
  unfolding remember save
  open-remember disk store host port key_type key ne h =
      save_at-ok disk store.path (remember_host_key store.hosts host port key_type key) ne h

  -- When the store has a path and the key was saved, the store that is opened from the file afterwards trusts that
  -- key for its host, port and key type, and answers as before for any other host, port or key type.
  pub trusted_after_reopening :
      (disk : F.Disk) (store : KnownHosts) (host : Text) (port : ℕ) (key_type : Text) (key : List ℕ)
      (host' : Text) (port' : ℕ) (key_type' : Text) (key' : List ℕ)
      → store.path ≢ []
      → (remember disk store host port key_type key).1.0 ≡ ok tt
      → ¬ SameHost host port key_type host' port' key_type'
      → (again : KnownHosts) × (open_hosts
            (remember disk store host port key_type key).1.1
            store.path
          ≡ ok again)
        × (known_host_status again.hosts host port key_type key ≡ matching)
        × (known_host_status again.hosts host' port' key_type' key'
            ≡ known_host_status store.hosts host' port' key_type' key')
  unfolding remember
  trusted_after_reopening disk store host port key_type key host' port' key_type' key' ne h other =
      (
        (remember disk store host port key_type key).0,
        open-remember disk store host port key_type key ne h,
        remembered-matching store.hosts host port key_type key,
        (status-remember host port key_type key store.hosts host' port' key_type' key').1 other,
      )
