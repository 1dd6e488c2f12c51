-- ===== src/Ssh/Establish/Verified.antt =====
-- No hop is used before its server's key was accepted.
use poly_term.Prelude.{
  ℕ, Bool, true, false, ◌≡◌, refl, ap, Option, none, some, List, [], ◌∷◌, ◌++◌, ◌⊎◌, inl, inr, All,
  All-mono,
}
use poly_term.Prelude.Text.{Text, codes}
use poly_term.Core.Session.{SshConfig}
use poly_term.Core.Prompt.{HostKeyPrompt}
use poly_term.Core.Transport.{host_key}
use poly_term.Ssh.Io.{Act, sends, meets, ◌>>=◌, OfferedKey, Outside}
use poly_term.Ssh.Io.Yields.{Yields, >>=-Yields}
use poly_term.Ssh.Auth.{emit}
use poly_term.Ssh.Establish.Accepted.{
  AcceptedIn, AskedIn, AsksOf, prompt-ShownBy, AcceptedIn-left, AcceptedIn-right, IfSome, IfTrue,
  IfInr, if_accepted,
}
use poly_term.Ssh.Establish.{
  Hop, hops, is_accepted, address, describe_key, key_prompt, heard, presented, check_server_key,
  concluded, shaken, connect, give_up, or_give_up, tunnelled, reach, and_authenticate, one_hop, put,
  put_first, and_then, chain_of, establish,
}

module _ {S H K : Type 0} (outside : Outside S H K) where
  if_heard :
      (host : Text) (port : ℕ) (key : OfferedKey) (p : HostKeyPrompt) (b : Bool) (s : S)
      → AsksOf host port key p
      → IfTrue
          (AskedIn host port key)
          (heard outside p.reply b s).value
          (sends (host_key p) ∷ (heard outside p.reply b s).acts)
  unfolding heard
  if_heard host port key p false s asks = tt
  if_heard host port key p true s asks =
      if_accepted host port key p (outside.trust_answer p.reply s).0
        (is_accepted (outside.trust_answer p.reply s).0) refl asks

  check_server_key-AskedIn :
      (host : Text) (port : ℕ) (key : OfferedKey)
      → Yields (IfTrue (AskedIn host port key)) (check_server_key outside host port key)
  unfolding check_server_key presented emit
  check_server_key-AskedIn host port key s =
      let reply = (outside.channel s).0 in
      let p = key_prompt host port (describe_key key) reply in
      let sent = outside.send (host_key p) (outside.channel s).1 in
      if_heard host port key p sent.0 sent.1 (refl, refl, prompt-ShownBy host port key reply)

  -- A prompt behind the key that the server presented.
  asked_behind :
      (host : Text) (port : ℕ) (key : OfferedKey) (acts : List Act)
      → AskedIn host port key acts
      → AcceptedIn host port (meets key ∷ acts)
  asked_behind host port key acts (p, d, e, agreed, rest) =
      ([], [], key, p, d, ap (◌∷◌ (meets key)) e, agreed, rest)

  -- Whatever else happens, what was accepted stays accepted.
  kept :
      {A : Type 0} (host : Text) (port : ℕ) (v : Option A) (acts after : List Act)
      → AcceptedIn host port acts
      → IfSome (AcceptedIn host port) v (acts ++ after)
  kept host port none acts after h = tt
  kept host port (some a) acts after h = AcceptedIn-right host port acts after h

  kept_inr :
      {A : Type 0} (host : Text) (port : ℕ) (r : Text ⊎ A) (acts after : List Act)
      → AcceptedIn host port acts
      → IfInr (AcceptedIn host port) r (acts ++ after)
  kept_inr host port (inl e) acts after h = tt
  kept_inr host port (inr a) acts after h = AcceptedIn-right host port acts after h

  module _ (refuses : (s : S) → (e : Text) × ((outside.finish false s).0 ≡ inl e)) where
    if_concluded :
        (host : Text) (port : ℕ) (key : OfferedKey) (b : Bool) (acts : List Act) (s : S)
        → IfTrue (AskedIn host port key) b acts
        → IfInr
            (AcceptedIn host port)
            (concluded outside b s).value
            (meets key ∷ (acts ++ (concluded outside b s).acts))
    unfolding concluded
    if_concluded host port key true acts s h =
        kept_inr host port (outside.finish true s).0 (meets key ∷ acts) []
          (asked_behind host port key acts h)
    if_concluded host port key false acts s h = rw ((refuses s).1) tt

    shaken-AcceptedIn :
        (host : Text) (port : ℕ) (r : Text ⊎ OfferedKey)
        → Yields (IfInr (AcceptedIn host port)) (shaken outside host port r)
    unfolding shaken
    shaken-AcceptedIn host port (inl e) = λ s. tt
    shaken-AcceptedIn host port (inr key) = λ s.
        >>=-Yields (IfTrue (AskedIn host port key))
          (λ r acts. IfInr (AcceptedIn host port) r (meets key ∷ acts))
          (check_server_key outside host port key) (concluded outside)
          (check_server_key-AskedIn host port key)
          (λ b acts h s. if_concluded host port key b acts s h) s

    connect-AcceptedIn :
        (through : Option H) (host : Text) (port : ℕ)
        → Yields (IfInr (AcceptedIn host port)) (connect outside through host port)
    unfolding connect
    connect-AcceptedIn through host port s =
        shaken-AcceptedIn host port (outside.handshake through host port s).0
          (outside.handshake through host port s).1

    if_not_given_up :
        (host : Text) (port : ℕ) (message : Text) (r : Text ⊎ H) (acts : List Act) (s : S)
        → IfInr (AcceptedIn host port) r acts
        → IfSome
            (AcceptedIn host port)
            (or_give_up outside message r s).value
            (acts ++ (or_give_up outside message r s).acts)
    unfolding or_give_up give_up
    if_not_given_up host port message (inl e) acts s h = tt
    if_not_given_up host port message (inr session) acts s h = AcceptedIn-right host port acts [] h

    connected :
        (through : Option H) (host : Text) (port : ℕ) (message : Text)
        → Yields
            (IfSome (AcceptedIn host port))
            (connect outside through host port >>= or_give_up outside message)
    connected through host port message =
        >>=-Yields (IfInr (AcceptedIn host port)) (IfSome (AcceptedIn host port))
          (connect outside through host port) (or_give_up outside message)
          (connect-AcceptedIn through host port)
          (λ r acts h s. if_not_given_up host port message r acts s h)

    tunnelled-AcceptedIn :
        (prev : H) (hop : Hop) (r : Text ⊎ Unit {0})
        → Yields (IfSome (AcceptedIn hop.host hop.port)) (tunnelled outside prev hop r)
    unfolding tunnelled give_up
    tunnelled-AcceptedIn prev hop (inl e) = λ s. tt
    tunnelled-AcceptedIn prev hop (inr channel) =
        connected (some prev) hop.host hop.port
          (codes "connection to " ++ address hop ++ codes " via jump host failed: ")

    reach-AcceptedIn :
        (prev : Option H) (hop : Hop)
        → Yields (IfSome (AcceptedIn hop.host hop.port)) (reach outside prev hop)
    unfolding reach
    reach-AcceptedIn none hop =
        connected none hop.host hop.port
          (codes "connection to " ++ address hop ++ codes " failed: ")
    reach-AcceptedIn (some prev) hop = λ s.
        tunnelled-AcceptedIn prev hop (outside.open_direct_tcpip prev hop.host hop.port s).0
          (outside.open_direct_tcpip prev hop.host hop.port s).1

    if_authenticated :
        (hop : Hop) (v : Option H) (acts : List Act) (s : S)
        → IfSome (AcceptedIn hop.host hop.port) v acts
        → IfSome
            (AcceptedIn hop.host hop.port)
            (and_authenticate outside hop v s).value
            (acts ++ (and_authenticate outside hop v s).acts)
    unfolding and_authenticate
    if_authenticated hop none acts s h = tt
    if_authenticated hop (some next) acts s h =
        kept hop.host hop.port (and_authenticate outside hop (some next) s).value acts
          (and_authenticate outside hop (some next) s).acts h

    one_hop-AcceptedIn :
        (prev : Option H) (hop : Hop)
        → Yields (IfSome (AcceptedIn hop.host hop.port)) (one_hop outside prev hop)
    unfolding one_hop
    one_hop-AcceptedIn prev hop =
        >>=-Yields (IfSome (AcceptedIn hop.host hop.port)) (IfSome (AcceptedIn hop.host hop.port))
          (reach outside prev hop) (and_authenticate outside hop) (reach-AcceptedIn prev hop)
          (λ v acts h s. if_authenticated hop v acts s h)

    abbrev AllIn : List Hop → List Act → Type 0
    AllIn hs acts = All (λ hop. AcceptedIn hop.host hop.port acts) hs

    put_all :
        (hop : Hop) (hs : List Hop) (session : H) (v : Option (List H)) (acts acts' : List Act)
        → AcceptedIn hop.host hop.port acts
        → IfSome (AllIn hs) v acts'
        → IfSome (AllIn (hop ∷ hs)) (put outside session v) (acts ++ (acts' ++ []))
    unfolding put
    put_all hop hs session none acts acts' h h' = tt
    put_all hop hs session (some chain) acts acts' h h' = (
      AcceptedIn-right hop.host hop.port acts (acts' ++ []) h,
      All-mono _ _ hs
          (λ other hit.
            AcceptedIn-left other.host other.port acts (acts' ++ [])
              (AcceptedIn-right other.host other.port acts' [] hit))
          h',
    )

    if_then :
        (hop : Hop) (hs : List Hop) (v : Option H) (acts : List Act) (s : S)
        → ((session : H) → Yields (IfSome (AllIn hs)) (chain_of outside (some session) hs))
        → IfSome (AcceptedIn hop.host hop.port) v acts
        → IfSome
            (AllIn (hop ∷ hs))
            (and_then outside (λ session. chain_of outside (some session) hs) v s).value
            (acts ++ (and_then outside (λ session. chain_of outside (some session) hs) v s).acts)
    unfolding and_then put_first
    if_then hop hs none acts s ih h = tt
    if_then hop hs (some session) acts s ih h =
        put_all hop hs session (chain_of outside (some session) hs s).value acts
          (chain_of outside (some session) hs s).acts h (ih session s)

    chain_of-AllIn :
        (prev : Option H) (hs : List Hop) → Yields (IfSome (AllIn hs)) (chain_of outside prev hs)
    unfolding chain_of
    chain_of-AllIn prev [] = λ s. tt
    chain_of-AllIn prev (hop ∷ hs) =
        >>=-Yields (IfSome (AcceptedIn hop.host hop.port)) (IfSome (AllIn (hop ∷ hs)))
          (one_hop outside prev hop)
          (and_then outside (λ session. chain_of outside (some session) hs))
          (one_hop-AcceptedIn prev hop)
          (λ v acts h s. if_then hop hs v acts s (λ session. chain_of-AllIn (some session) hs) h)

    if_some :
        {A : Type 0} (P : List Act → Type 0) (v : Option A) (acts : List Act) (a : A)
        → v ≡ some a
        → IfSome P v acts
        → P acts
    if_some P none acts a e h = cc
    if_some P (some b) acts a e h = h

    -- Where a handshake whose key the handler refused fails, a connection is established only when, for every jump host
    -- and the target, a server presented its key, the next event sent was a prompt with that hop's host and port
    -- that shows that key's algorithm, fingerprint and bytes, and the answer heard next was to accept it, once
    -- or for good.
    pub establish_verified :
        (cfg : SshConfig) (s : S) (chain : List H)
        → (establish outside cfg s).value ≡ some chain
        → All (λ hop. AcceptedIn hop.host hop.port (establish outside cfg s).acts) (hops cfg)
    unfolding establish
    establish_verified cfg s chain e =
        if_some (AllIn (hops cfg)) (establish outside cfg s).value (establish outside cfg s).acts
          chain e (chain_of-AllIn none (hops cfg) s)
