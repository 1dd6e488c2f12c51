-- ===== src/Store/KnownHosts/File/Tests.antt =====
-- A store at a path, a host remembered in it, and the file read again.
use poly_term.Prelude.{◌≡◌, ◌≢◌, refl, Option, none, some, arith, List, [], ◌∷◌, list_eq, nat_eq}
use poly_term.Prelude.Text.{codes}
use poly_term.Core.Prompt.{matching}
use poly_term.Store.Op.{ok}
use poly_term.Store.Memory.{MemoryDisk, memory_of}
use poly_term.Store.KnownHosts.{HostKey, known_host_status}
use poly_term.Store.KnownHosts.File.{
  HostsJson, KnownHosts, open_hosts, remember, trusted_after_reopening, save, save_at, write_table,
  written, loaded, or_empty,
}

-- What a file holds: a table, or what is no JSON.
abbrev Content : Type 0
Content = Option (List HostKey)

parse_written : (hosts : List HostKey) (b : Content) → some (some hosts) ≡ some b → b ≡ some hosts
parse_written hosts b e = ground arith

abbrev codec : HostsJson Content
codec = record {
  write_hosts = λ hosts. some (some hosts);
  parse_hosts = λ b. b;
  parse-write_hosts = λ hosts b e. parse_written hosts b e;
}

abbrev empty_disk : MemoryDisk Content
empty_disk p = none

abbrev store : KnownHosts
store = record { path = codes "known_hosts.json" ∷ []; hosts = [] }

a_path : store.path ≢ []
a_path e = cc

-- A file that does not parse is an empty store.
corrupt_is_empty : open_hosts (memory_of Content) codec (λ p. some none) store.path ≡ ok store
unfolding open_hosts loaded or_empty
corrupt_is_empty = refl

trusted_after_reopening_example :
    (again : KnownHosts) × (open_hosts
        (memory_of Content)
        codec
        (remember
          (memory_of Content)
          codec
          empty_disk
          store
          (codes "h")
          22
          (codes "rsa")
          (7 ∷ [])).1.1
        store.path
      ≡ ok again)
    × (known_host_status again.hosts (codes "h") 22 (codes "rsa") (7 ∷ []) ≡ matching)
    × (known_host_status again.hosts (codes "h") 2222 (codes "rsa") (7 ∷ [])
        ≡ known_host_status [] (codes "h") 2222 (codes "rsa") (7 ∷ []))
unfolding remember save save_at write_table written
trusted_after_reopening_example =
    trusted_after_reopening (memory_of Content) codec empty_disk store (codes "h") 22 (codes "rsa")
      (7 ∷ []) (codes "h") 2222 (codes "rsa") (7 ∷ []) a_path refl (λ same. omega (arith, same.1))
