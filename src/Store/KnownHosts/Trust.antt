-- ===== src/Store/KnownHosts/Trust.antt =====
-- What the trust store answers after a key was remembered.
use poly_term.Prelude.{
  Bool, arith, ℕ, ◌≡◌, refl, sym, ◌∙◌, ◌↔◌, inl, inr, true, false, ◌&&◌, Option, none, some, List,
  [], ◌∷◌, ◌==◌, ==_refl, ==_sound, list_eq, nat_eq, find, Bool-cases, Option-cases, if◌then◌else◌,
  &&_iff,
}
use poly_term.Prelude.Text.{Text}
use poly_term.Core.Prompt.{KnownHostStatus, matching, changed}
use poly_term.Store.KnownHosts.{
  HostKey, is_entry, compare_key, known_host_status, remember_host_key,
}

-- The key under which an entry is found.
abbrev pub SameHost : Text → ℕ → Text → Text → ℕ → Text → Type 0
SameHost host port key_type host' port' key_type' =
    (host ≡ host') × (port ≡ port') × (key_type ≡ key_type')

is_entry_iff :
    (host : Text) (port : ℕ) (key_type : Text) (h : HostKey)
    → (is_entry host port key_type h ≡ true) ↔ SameHost h.host h.port h.key_type host port key_type
unfolding is_entry
is_entry_iff host port key_type h = (
  λ e.
      let parts = (&&_iff (h.host == host) (h.port == port && h.key_type == key_type)).0 e in
      let rest = (&&_iff (h.port == port) (h.key_type == key_type)).0 parts.1 in
      (
        ==_sound h.host host parts.0,
        ==_sound h.port port rest.0,
        ==_sound h.key_type key_type rest.1,
      ),
  λ e.
      rw (e.0, e.1, e.2)
        ((&&_iff (host == host) (port == port && key_type == key_type)).1 (
          ==_refl host,
          (&&_iff (port == port) (key_type == key_type)).1 (==_refl port, ==_refl key_type),
        )),
)

is_entry_self :
    (host : Text) (port : ℕ) (key_type : Text) (key : List ℕ)
    → is_entry host port key_type
        (record { host = host; port = port; key_type = key_type; key = key })
      ≡ true
is_entry_self host port key_type key = (is_entry_iff host port key_type _).1 (refl, refl, refl)

-- The entry of one host is not that of another.
is_entry_ne :
    (host : Text) (port : ℕ) (key_type host' : Text) (port' : ℕ) (key_type' : Text) (h : HostKey)
    → ¬ SameHost host port key_type host' port' key_type'
    → is_entry host port key_type h ≡ true
    → is_entry host' port' key_type' h ≡ false
is_entry_ne host port key_type host' port' key_type' h ne e =
    elim (Bool-cases (is_entry host' port' key_type' h)) [
      | inl e' ↦
          let a = (is_entry_iff host port key_type h).0 e in
          let b = (is_entry_iff host' port' key_type' h).0 e' in
          absurd (ne (sym a.0 ∙ b.0, sym a.1 ∙ b.1, sym a.2 ∙ b.2))
      | inr e' ↦ e'
    ]

compare-hit :
    (key key' : List ℕ) (o : Option HostKey)
    → (h : HostKey) × (o ≡ some h) × (h.key ≡ key)
    → compare_key key' o ≡ (if key == key' then matching else changed)
unfolding compare_key
compare-hit key key' o (h, found, same) = rw (found, same)

module _ (host : Text) (port : ℕ) (key_type : Text) (key : List ℕ) where
  find-remember_self :
      (hosts : List HostKey)
      → (h : HostKey) × (find
            (is_entry host port key_type)
            (remember_host_key hosts host port key_type key)
          ≡ some h)
        × (h.key ≡ key)
  unfolding remember_host_key
  find-remember_self [] = (
    record { host = host; port = port; key_type = key_type; key = key },
    rw (is_entry_self host port key_type key),
    refl,
  )
  find-remember_self (h ∷ hosts) = elim (Bool-cases (is_entry host port key_type h)) [
    | inl e ↦
        let same = (is_entry_iff host port key_type h).0 e in
        (
          record h { key = key },
          rw e (rw ((is_entry_iff host port key_type (record h { key = key })).1 same)),
          refl,
        )
    | inr e ↦ let rest = find-remember_self hosts in (rest.0, rw e (rw e rest.1), rest.2)
  ]

  find-remember_ne :
      (host' : Text) (port' : ℕ) (key_type' : Text)
      → ¬ SameHost host port key_type host' port' key_type'
      → (hosts : List HostKey)
      → find (is_entry host' port' key_type') (remember_host_key hosts host port key_type key)
        ≡ find (is_entry host' port' key_type') hosts
  unfolding remember_host_key
  find-remember_ne host' port' key_type' ne [] = rw (
      is_entry_ne host port key_type host' port' key_type'
        (record { host = host; port = port; key_type = key_type; key = key }) ne
        (is_entry_self host port key_type key))
  find-remember_ne host' port' key_type' ne (h ∷ hosts) =
      elim (Bool-cases (is_entry host port key_type h)) [
        | inl e ↦
            let same = (is_entry_iff host port key_type h).0 e in
            let new = (is_entry_iff host port key_type (record h { key = key })).1 same in
            rw e (
              rw (
                is_entry_ne host port key_type host' port' key_type' (record h { key = key }) ne
                  new))
        | inr e ↦ rw e (rw (find-remember_ne host' port' key_type' ne hosts))
      ]

  -- After a key was remembered for a host, port and key type, that key is trusted for them and any
  -- other is reported as changed; every other host, port or key type is answered as before.
  pub status-remember :
      (hosts : List HostKey) (host' : Text) (port' : ℕ) (key_type' : Text) (key' : List ℕ)
      → (SameHost host port key_type host' port' key_type'
          → known_host_status
              (remember_host_key hosts host port key_type key)
              host'
              port'
              key_type'
              key'
            ≡ (if key == key' then matching else changed))
        × (¬ SameHost host port key_type host' port' key_type'
            → known_host_status
                (remember_host_key hosts host port key_type key)
                host'
                port'
                key_type'
                key'
              ≡ known_host_status hosts host' port' key_type' key')
  unfolding known_host_status
  status-remember hosts host' port' key_type' key' = (
    λ same. rw (← same.0, ← same.1, ← same.2) (compare-hit key key' _ (find-remember_self hosts)),
    λ ne. rw (find-remember_ne host' port' key_type' ne hosts),
  )

-- The calls of `remember_host_key` over a run, oldest first.
pub remember_all : List HostKey → List HostKey → List HostKey
remember_all hosts [] = hosts
remember_all hosts (c ∷ calls) =
    remember_all (remember_host_key hosts c.host c.port c.key_type c.key) calls

-- A call for that host, port and key type.
abbrev is_for : Text → ℕ → Text → HostKey → Bool
is_for host port key_type c = c.key_type == key_type && (c.host == host && c.port == port)

is_for_iff :
    (host : Text) (port : ℕ) (key_type : Text) (c : HostKey)
    → is_for host port key_type c ≡ is_entry host port key_type c
unfolding is_entry
is_for_iff host port key_type c = ground arith

-- The abstract store: the latest call for the host decides.
pub last_remembered : Text → ℕ → Text → List HostKey → Option (List ℕ)
last_remembered host port key_type [] = none
last_remembered host port key_type (c ∷ calls) = elim (last_remembered host port key_type calls) [
  | some key ↦ some key
  | none ↦ if is_for host port key_type c then some c.key else none
]

abbrev pub answer : List ℕ → KnownHostStatus → Option (List ℕ) → KnownHostStatus
answer key before (some remembered) = if remembered == key then matching else changed
answer key before none = before

answer-remember :
    (hosts : List HostKey) (c : HostKey) (host : Text) (port : ℕ) (key_type : Text) (key : List ℕ)
    → known_host_status
        (remember_host_key hosts c.host c.port c.key_type c.key)
        host
        port
        key_type
        key
      ≡ answer key
          (known_host_status hosts host port key_type key)
          (if is_for host port key_type c then some c.key else none)
answer-remember hosts c host port key_type key =
    let law = status-remember c.host c.port c.key_type c.key hosts host port key_type key in
    elim (Bool-cases (is_entry host port key_type c)) [
      | inl e ↦
          rw (is_for_iff host port key_type c, e) (law.0 ((is_entry_iff host port key_type c).0 e))
      | inr e ↦
          rw (is_for_iff host port key_type c, e)
            (law.1 (λ same. cc ((is_entry_iff host port key_type c).1 same)))
    ]

-- After any run of remembered keys the store answers as the latest one for that host, port and key
-- type says, and as it did before the run where there was none.
pub status-remember_all :
    (hosts calls : List HostKey) (host : Text) (port : ℕ) (key_type : Text) (key : List ℕ)
    → known_host_status (remember_all hosts calls) host port key_type key
      ≡ answer key
          (known_host_status hosts host port key_type key)
          (last_remembered host port key_type calls)
unfolding remember_all last_remembered
status-remember_all hosts [] host port key_type key = refl
status-remember_all hosts (c ∷ calls) host port key_type key =
    let rest =
      status-remember_all (remember_host_key hosts c.host c.port c.key_type c.key) calls host port
        key_type key in
    elim (Option-cases (last_remembered host port key_type calls)) [
      | inl e ↦ rw (rest, e) (answer-remember hosts c host port key_type key)
      | inr (k, e) ↦ rw (rest, e)
    ]
