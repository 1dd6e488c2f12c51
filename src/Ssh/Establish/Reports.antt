-- ===== src/Ssh/Establish/Reports.antt =====
-- How establishing a connection ends: with a session for every hop, or with one report.
use poly_term.Prelude.{
  ℕ, suc, Bool, true, false, ◌≡◌, refl, sym, ◌∙◌, ap, Option, none, some, List, [], ◌∷◌, ◌++◌, ◌⊎◌,
  inl, inr, map, length, length-append, append_assoc, append-nil, subst, arith,
}
use poly_term.Prelude.Text.{Text, codes}
use poly_term.Core.Session.{SshJump, SshConfig}
use poly_term.Core.Prompt.{Reply}
use poly_term.Core.Transport.{host_key, disconnected, failed}
use poly_term.Ssh.Io.{Act, sends, Io, pure, call, ◌>>=◌, OfferedKey, ServerKey, Outside}
use poly_term.Ssh.Io.Yields.{Yields, disconnects, disconnects-append, Quiet, >>=-Quiet}
use poly_term.Ssh.Auth.{emit, authenticate_with}
use poly_term.Ssh.Auth.Silent.{authenticate_with-Quiet}
use poly_term.Ssh.Establish.{
  Hop, hop_of_jump, target_hop, hops, address, describe_key, key_prompt, heard, presented,
  check_server_key, concluded, shaken, connect, fail, give_up, or_give_up, tunnelled, reach,
  authenticated_or_fail, and_authenticate, one_hop, put, put_first, and_then, chain_of, establish,
}

-- Nothing is reported on success; a failure ends with the one report of it.
abbrev pub ReportedBy : {A : Type 0} → Option A → List Act → Type 0
ReportedBy (some a) acts = disconnects acts ≡ 0
ReportedBy none acts =
    (before : List Act) × (message : Text) × (acts
      ≡ before ++ sends (disconnected (failed message)) ∷ [])
    × (disconnects before ≡ 0)

after_quiet :
    {A : Type 0} (v : Option A) (before acts : List Act)
    → disconnects before ≡ 0
    → ReportedBy v acts
    → ReportedBy v (before ++ acts)
after_quiet (some a) before acts h r = omega (arith, disconnects-append before acts)
after_quiet none before acts h (pre, message, e, quiet) = (
  before ++ pre,
  message,
  rw e (sym (append_assoc before pre (sends (disconnected (failed message)) ∷ []))),
  omega (arith, disconnects-append before pre),
)

module _ {S : Type 0} where
  abbrev Reporting : {A : Type 0} → Io S (Option A) → Type 0
  Reporting m = Yields ReportedBy m

  and_reports :
      {A B : Type 0} (m : Io S A) (f : A → Io S (Option B))
      → Quiet m
      → ((a : A) → Reporting (f a))
      → Reporting (m >>= f)
  and_reports m f hm hf s =
      after_quiet (f (m s).value (m s).state).value (m s).acts (f (m s).value (m s).state).acts
        (hm s) (hf (m s).value (m s).state)

  stopped :
      {A B : Type 0} (f : Option A → Io S (Option B)) (v : Option A) (acts : List Act) (s : S)
      → f none ≡ pure none
      → ((a : A) → Reporting (f (some a)))
      → ReportedBy v acts
      → ReportedBy (f v s).value (acts ++ (f v s).acts)
  stopped {A = A} {B = B} f (some a) acts s stops hf h =
      after_quiet (f (some a) s).value acts (f (some a) s).acts h (hf a s)
  stopped {A = A} {B = B} f none acts s stops hf h =
      subst (λ (g : Io S (Option B)). ReportedBy (g s).value (acts ++ (g s).acts)) (sym stops)
        (subst (ReportedBy {A = A} none) (sym (append-nil acts)) h)

  option_then :
      {A B : Type 0} (m : Io S (Option A)) (f : Option A → Io S (Option B))
      → Reporting m
      → f none ≡ pure none
      → ((a : A) → Reporting (f (some a)))
      → Reporting (m >>= f)
  option_then m f hm stops hf s = stopped f (m s).value (m s).acts (m s).state stops hf (hm s)

length-map_jumps : (jumps : List SshJump) → length (map hop_of_jump jumps) ≡ length jumps
length-map_jumps [] = refl
length-map_jumps (j ∷ jumps) = ap suc (length-map_jumps jumps)

hops-length : (cfg : SshConfig) → length (hops cfg) ≡ suc (length cfg.jumps)
hops-length cfg = omega (
  arith,
  length-append (map hop_of_jump cfg.jumps) (target_hop cfg ∷ []),
  length-map_jumps cfg.jumps,
)

module _ {S H K : Type 0} (outside : Outside S H K) where
  heard-Quiet : (reply : Reply) (b : Bool) → Quiet (heard outside reply b)
  unfolding heard
  heard-Quiet reply true = λ s. refl
  heard-Quiet reply false = λ s. refl

  presented-Quiet :
      (host : Text) (port : ℕ) (key : ServerKey) (reply : Reply)
      → Quiet (presented outside host port key reply)
  unfolding presented emit
  presented-Quiet host port key reply =
      >>=-Quiet (emit outside (host_key (key_prompt host port key reply))) (heard outside reply)
        (λ s. refl) (heard-Quiet reply)

  shaken-Quiet :
      (host : Text) (port : ℕ) (r : Text ⊎ OfferedKey) → Quiet (shaken outside host port r)
  unfolding shaken check_server_key concluded
  shaken-Quiet host port (inl e) = λ s. refl
  shaken-Quiet host port (inr key) = λ s.
      let quiet =
        >>=-Quiet (check_server_key outside host port key) (concluded outside)
          (>>=-Quiet (call outside.channel) (presented outside host port (describe_key key))
            (λ s. refl) (presented-Quiet host port (describe_key key)))
          (λ verdict s. refl) s in
      omega (arith, quiet)

  connect-Quiet :
      (through : Option H) (host : Text) (port : ℕ) → Quiet (connect outside through host port)
  unfolding connect
  connect-Quiet through host port =
      >>=-Quiet (call (outside.handshake through host port)) (shaken outside host port) (λ s. refl)
        (shaken-Quiet host port)

  give_up-Reporting : (A : Type 0) (message : Text) → Reporting (give_up outside {A = A} message)
  unfolding give_up fail emit
  give_up-Reporting A message s = ([], message, refl, refl)

  or_give_up-Reporting : (message : Text) (r : Text ⊎ H) → Reporting (or_give_up outside message r)
  unfolding or_give_up
  or_give_up-Reporting message (inl e) = give_up-Reporting H _
  or_give_up-Reporting message (inr session) = λ s. refl

  tunnelled-Reporting :
      (prev : H) (hop : Hop) (r : Text ⊎ Unit {0}) → Reporting (tunnelled outside prev hop r)
  unfolding tunnelled
  tunnelled-Reporting prev hop (inl e) = give_up-Reporting H _
  tunnelled-Reporting prev hop (inr channel) =
      and_reports (connect outside (some prev) hop.host hop.port)
        (or_give_up outside
          (codes "connection to " ++ address hop ++ codes " via jump host failed: "))
        (connect-Quiet (some prev) hop.host hop.port)
        (or_give_up-Reporting
          (codes "connection to " ++ address hop ++ codes " via jump host failed: "))

  reach-Reporting : (prev : Option H) (hop : Hop) → Reporting (reach outside prev hop)
  unfolding reach
  reach-Reporting none hop =
      and_reports (connect outside none hop.host hop.port)
        (or_give_up outside (codes "connection to " ++ address hop ++ codes " failed: "))
        (connect-Quiet none hop.host hop.port)
        (or_give_up-Reporting (codes "connection to " ++ address hop ++ codes " failed: "))
  reach-Reporting (some prev) hop =
      and_reports (call (outside.open_direct_tcpip prev hop.host hop.port))
        (tunnelled outside prev hop) (λ s. refl) (tunnelled-Reporting prev hop)

  authenticated_or_fail-Reporting :
      (hop : Hop) (next : H) (r : Text ⊎ Bool)
      → Reporting (authenticated_or_fail outside hop next r)
  unfolding authenticated_or_fail
  authenticated_or_fail-Reporting hop next (inr true) = λ s. refl
  authenticated_or_fail-Reporting hop next (inr false) = give_up-Reporting H _
  authenticated_or_fail-Reporting hop next (inl e) = give_up-Reporting H _

  one_hop-Reporting : (prev : Option H) (hop : Hop) → Reporting (one_hop outside prev hop)
  unfolding one_hop and_authenticate
  one_hop-Reporting prev hop =
      option_then (reach outside prev hop) (and_authenticate outside hop) (reach-Reporting prev hop)
        refl
        (λ next.
          and_reports (authenticate_with outside next hop.user hop.host hop.auth)
            (authenticated_or_fail outside hop next)
            (authenticate_with-Quiet outside next hop.user hop.host hop.auth)
            (authenticated_or_fail-Reporting hop next))

  put_reported :
      (session : H) (v : Option (List H)) (acts : List Act)
      → ReportedBy v acts
      → ReportedBy (put outside session v) (acts ++ [])
  unfolding put
  put_reported session (some chain) acts h = rw (append-nil acts) h
  put_reported session none acts h = rw (append-nil acts) h

  chain_of-Reporting : (prev : Option H) (hs : List Hop) → Reporting (chain_of outside prev hs)
  unfolding chain_of and_then put_first
  chain_of-Reporting prev [] = λ s. refl
  chain_of-Reporting prev (hop ∷ hs) =
      option_then (one_hop outside prev hop)
        (and_then outside (λ session. chain_of outside (some session) hs))
        (one_hop-Reporting prev hop) refl
        (λ session s.
          put_reported session (chain_of outside (some session) hs s).value
            (chain_of outside (some session) hs s).acts (chain_of-Reporting (some session) hs s))

  -- A chain of the right length, if there is one.
  abbrev Long : ℕ → Option (List H) → List Act → Type 0
  Long n none acts = Unit
  Long n (some chain) acts = length chain ≡ n

  put-Long :
      (n : ℕ) (session : H) (v : Option (List H)) (acts acts' : List Act)
      → Long n v acts
      → Long (suc n) (put outside session v) acts'
  unfolding put
  put-Long n session none acts acts' h = tt
  put-Long n session (some chain) acts acts' h = ap suc h

  then-Long :
      (hs : List Hop) (v : Option H) (acts : List Act) (s : S)
      → ((session : H) → Yields (Long (length hs)) (chain_of outside (some session) hs))
      → Long
          (suc (length hs))
          (and_then outside (λ session. chain_of outside (some session) hs) v s).value
          acts
  unfolding and_then put_first
  then-Long hs none acts s h = tt
  then-Long hs (some session) acts s h =
      put-Long (length hs) session (chain_of outside (some session) hs s).value
        (chain_of outside (some session) hs s).acts acts (h session s)

  chain_of-Long :
      (prev : Option H) (hs : List Hop) → Yields (Long (length hs)) (chain_of outside prev hs)
  unfolding chain_of
  chain_of-Long prev [] = λ s. refl
  chain_of-Long prev (hop ∷ hs) = λ s.
      then-Long hs (one_hop outside prev hop s).value (chain_of outside prev (hop ∷ hs) s).acts
        (one_hop outside prev hop s).state (λ session. chain_of-Long (some session) hs)

  reported :
      (cfg : SshConfig) (v : Option (List H)) (acts : List Act)
      → ReportedBy v acts
      → Long (length (hops cfg)) v acts
      → ((chain : List H) × (v ≡ some chain)
          × (length chain ≡ suc (length cfg.jumps))
          × (disconnects acts ≡ 0))
        ⊎ ((v ≡ none)
            × (before : List Act) × (message : Text) × (acts
                ≡ before ++ sends (disconnected (failed message)) ∷ [])
            × (disconnects before ≡ 0))
  reported cfg (some chain) acts h long = inl (chain, refl, long ∙ hops-length cfg, h)
  reported cfg none acts (before, message, e, quiet) long = inr (refl, before, message, e, quiet)

  -- Whatever the servers, the agent, the key files and the user do, establishing a connection ends in one of
  -- two ways: with a session for every jump host and the target, and no end of the connection reported; or
  -- with none, and the last thing it sends is the report of the failure, the only one.
  pub establish_reports :
      (cfg : SshConfig) (s : S)
      → let r = establish outside cfg s in
        ((chain : List H) × (r.value ≡ some chain)
          × (length chain ≡ suc (length cfg.jumps))
          × (disconnects r.acts ≡ 0))
        ⊎ ((r.value ≡ none)
            × (before : List Act) × (message : Text) × (r.acts
                ≡ before ++ sends (disconnected (failed message)) ∷ [])
            × (disconnects before ≡ 0))
  unfolding establish
  establish_reports cfg s =
      reported cfg (establish outside cfg s).value (establish outside cfg s).acts
        (chain_of-Reporting none (hops cfg) s) (chain_of-Long none (hops cfg) s)
