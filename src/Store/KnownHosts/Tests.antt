-- ===== src/Store/KnownHosts/Tests.antt =====
-- The trust store after a host was remembered, and asked about again.
use poly_term.Prelude.{◌≡◌, refl, [], ◌∷◌, list_eq, nat_eq}
use poly_term.Prelude.Text.{Text, codes}
use poly_term.Core.Prompt.{unknown, changed}
use poly_term.Store.KnownHosts.{HostKey, known_host_status}
use poly_term.Store.KnownHosts.Trust.{remember_all, last_remembered, answer, status-remember_all}

abbrev ed25519 : Text
ed25519 = codes "ssh-ed25519"

abbrev remembered : HostKey
remembered = record { host = codes "h"; port = 22; key_type = ed25519; key = 1 ∷ 2 ∷ [] }

port_is_part_of_the_identity :
    known_host_status (remembered ∷ []) (codes "h") 2222 ed25519 (1 ∷ 2 ∷ []) ≡ unknown
unfolding known_host_status
port_is_part_of_the_identity = refl

a_substitute_is_changed :
    known_host_status (remembered ∷ []) (codes "h") 22 ed25519 (1 ∷ 3 ∷ []) ≡ changed
unfolding known_host_status
a_substitute_is_changed = refl

status-remember_all_example :
    known_host_status (remember_all [] (remembered ∷ [])) (codes "h") 22 ed25519 (1 ∷ 2 ∷ [])
    ≡ answer
        (1 ∷ 2 ∷ [])
        (known_host_status [] (codes "h") 22 ed25519 (1 ∷ 2 ∷ []))
        (last_remembered (codes "h") 22 ed25519 (remembered ∷ []))
status-remember_all_example =
    status-remember_all [] (remembered ∷ []) (codes "h") 22 ed25519 (1 ∷ 2 ∷ [])
