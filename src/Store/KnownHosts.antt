-- ===== src/Store/KnownHosts.antt =====
-- crates/polyterm-store/src/known_hosts.rs: the trust store's table in memory, which every answer
-- is read from. Its file is in `File`.
pub mod Trust
pub mod File
mod Tests
use poly_term.Prelude.{
  ℕ, Bool, ◌&&◌, Option, none, some, List, [], ◌∷◌, ◌==◌, list_eq, nat_eq, find, if◌then◌else◌,
}
use poly_term.Prelude.Text.{Text}
use poly_term.Core.Prompt.{KnownHostStatus, unknown, matching, changed}

pub record HostKey : Type 0 where
  pub host : Text
  pub port : ℕ
  pub key_type : Text
  pub key : List ℕ

-- `|h| h.host == host && h.port == port && h.key_type == key_type`
pub is_entry : Text → ℕ → Text → HostKey → Bool
is_entry host port key_type h = h.host == host && (h.port == port && h.key_type == key_type)

compare_key : List ℕ → Option HostKey → KnownHostStatus
compare_key key (some h) = if h.key == key then matching else changed
compare_key key none = unknown

pub known_host_status : List HostKey → Text → ℕ → Text → List ℕ → KnownHostStatus
unfolding compare_key is_entry
known_host_status hosts host port key_type key =
    compare_key key (find (is_entry host port key_type) hosts)

-- The first entry for the host is overwritten, or a new one is pushed.
pub remember_host_key : List HostKey → Text → ℕ → Text → List ℕ → List HostKey
unfolding is_entry
remember_host_key [] host port key_type key =
    record { host = host; port = port; key_type = key_type; key = key } ∷ []
remember_host_key (h ∷ hosts) host port key_type key =
    if is_entry host port key_type h
    then record h { key = key } ∷ hosts
    else h ∷ remember_host_key hosts host port key_type key
