-- ===== src/Ssh/Auth/Silent.antt =====
-- Authentication never reports the end of the connection: that is left to its caller.
use poly_term.Prelude.{Bool, true, false, refl, Option, none, some, List, [], ◌∷◌, ◌⊎◌, inl, inr}
use poly_term.Prelude.Text.{Text}
use poly_term.Core.Session.{PathBuf, CredentialRef, SshAuth}
use poly_term.Core.Prompt.{Reply, CredentialRequest, CredentialReply, cancelled, secret, responses}
use poly_term.Core.Transport.{credential}
use poly_term.Ssh.Io.{Io, call, Identity, Exchange, success, failure, breaks, info_request, Outside}
use poly_term.Ssh.Io.Yields.{Quiet, >>=-Quiet, >>=?-Quiet}
use poly_term.Ssh.Auth.{
  emit, awaited, prompted, ask_credential, loaded, unlock, unlocked_or_ask, load_key, tried,
  try_identities, with_identities, with_agent, agent_auth, responded, exchange,
  keyboard_interactive, with_password, with_key, authenticate_with,
}

module _ {S H K : Type 0} (outside : Outside S H K) where
  awaited-Quiet : (reply : Reply) (b : Bool) → Quiet (awaited outside reply b)
  unfolding awaited
  awaited-Quiet reply true = λ s. refl
  awaited-Quiet reply false = λ s. refl

  prompted-Quiet :
      (request : CredentialRequest) (cred : Option CredentialRef) (reply : Reply)
      → Quiet (prompted outside request cred reply)
  unfolding prompted emit
  prompted-Quiet request cred reply =
      >>=-Quiet
        (emit outside (credential (record { request = request; credential = cred; reply = reply })))
        (awaited outside reply) (λ s. refl) (awaited-Quiet reply)

  ask_credential-Quiet :
      (request : CredentialRequest) (cred : Option CredentialRef)
      → Quiet (ask_credential outside request cred)
  unfolding ask_credential
  ask_credential-Quiet request cred =
      >>=-Quiet (call outside.channel) (prompted outside request cred) (λ s. refl)
        (prompted-Quiet request cred)

  loaded-Quiet : (r : Text ⊎ K) → Quiet (loaded outside r)
  unfolding loaded emit
  loaded-Quiet (inr key) = λ s. refl
  loaded-Quiet (inl e) = λ s. refl

  unlock-Quiet : (path : PathBuf) (r : CredentialReply) → Quiet (unlock outside path r)
  unfolding unlock
  unlock-Quiet path (secret value remember) = λ s. loaded-Quiet _ _
  unlock-Quiet path cancelled = λ s. refl
  unlock-Quiet path (responses answers) = λ s. refl

  unlocked_or_ask-Quiet :
      (path : PathBuf) (cred : Option CredentialRef) (r : Text ⊎ K)
      → Quiet (unlocked_or_ask outside path cred r)
  unfolding unlocked_or_ask
  unlocked_or_ask-Quiet path cred (inr key) = λ s. refl
  unlocked_or_ask-Quiet path cred (inl e) =
      >>=-Quiet (ask_credential outside (CredentialRequest.passphrase path) cred)
        (unlock outside path) (ask_credential-Quiet (CredentialRequest.passphrase path) cred)
        (unlock-Quiet path)

  load_key-Quiet :
      (path : PathBuf) (cred : Option CredentialRef) → Quiet (load_key outside path cred)
  unfolding load_key
  load_key-Quiet path cred =
      >>=-Quiet (call (outside.load_secret_key path none)) (unlocked_or_ask outside path cred)
        (λ s. refl) (unlocked_or_ask-Quiet path cred)

  tried-Quiet :
      (next : Io S (Text ⊎ Bool)) (r : Text ⊎ Bool) → Quiet next → Quiet (tried outside next r)
  unfolding tried
  tried-Quiet next (inr true) h = λ s. refl
  tried-Quiet next (inr false) h = λ s. h s
  tried-Quiet next (inl e) h = λ s. h s

  try_identities-Quiet :
      (session : H) (user : Text) (hash : Option Text) (identities : List Identity)
      → Quiet (try_identities outside session user hash identities)
  unfolding try_identities
  try_identities-Quiet session user hash [] = λ s. refl
  try_identities-Quiet session user hash (i ∷ identities) = λ s.
      tried-Quiet (try_identities outside session user hash identities) _
        (try_identities-Quiet session user hash identities) _

  with_identities-Quiet :
      (session : H) (user : Text) (r : Text ⊎ List Identity)
      → Quiet (with_identities outside session user r)
  unfolding with_identities emit
  with_identities-Quiet session user (inl e) = λ s. refl
  with_identities-Quiet session user (inr []) = λ s. refl
  with_identities-Quiet session user (inr (i ∷ identities)) =
      >>=?-Quiet (call (outside.best_supported_rsa_hash session)) _ (λ s. refl)
        (λ hash. try_identities-Quiet session user hash (i ∷ identities))

  with_agent-Quiet :
      (session : H) (user : Text) (r : Text ⊎ Unit {0}) → Quiet (with_agent outside session user r)
  unfolding with_agent emit
  with_agent-Quiet session user (inl e) = λ s. refl
  with_agent-Quiet session user (inr connected) = λ s. with_identities-Quiet session user _ _

  responded-Quiet :
      (next : List Text → Io S (Text ⊎ Bool)) (r : CredentialReply)
      → ((answers : List Text) → Quiet (next answers))
      → Quiet (responded outside next r)
  unfolding responded
  responded-Quiet next (responses answers) h = λ s. h answers s
  responded-Quiet next cancelled h = λ s. refl
  responded-Quiet next (secret value remember) h = λ s. refl

  exchange-Quiet : (x : Exchange) → Quiet (exchange outside x)
  unfolding exchange
  exchange-Quiet success = λ s. refl
  exchange-Quiet failure = λ s. refl
  exchange-Quiet (breaks e) = λ s. refl
  exchange-Quiet (info_request name instruction prompts next) =
      >>=-Quiet
        (ask_credential outside (CredentialRequest.keyboard_interactive name instruction prompts)
          none)
        (responded outside (λ answers. exchange outside (next answers)))
        (ask_credential-Quiet (CredentialRequest.keyboard_interactive name instruction prompts)
          none)
        (λ r.
          responded-Quiet (λ answers. exchange outside (next answers)) r
            (λ answers. exchange-Quiet (next answers)))

  with_password-Quiet :
      (session : H) (user : Text) (r : CredentialReply)
      → Quiet (with_password outside session user r)
  unfolding with_password
  with_password-Quiet session user (secret value remember) = λ s. refl
  with_password-Quiet session user cancelled = λ s. refl
  with_password-Quiet session user (responses answers) = λ s. refl

  with_key-Quiet :
      (session : H) (user : Text) (key : Option K) → Quiet (with_key outside session user key)
  unfolding with_key
  with_key-Quiet session user none = λ s. refl
  with_key-Quiet session user (some key) =
      >>=?-Quiet (call (outside.best_supported_rsa_hash session)) _ (λ s. refl) (λ hash s. refl)

  pub authenticate_with-Quiet :
      (session : H) (user host : Text) (auth : SshAuth)
      → Quiet (authenticate_with outside session user host auth)
  unfolding authenticate_with keyboard_interactive agent_auth
  authenticate_with-Quiet session user host (SshAuth.password cred) =
      >>=-Quiet (ask_credential outside (CredentialRequest.password user host) (some cred))
        (with_password outside session user)
        (ask_credential-Quiet (CredentialRequest.password user host) (some cred))
        (with_password-Quiet session user)
  authenticate_with-Quiet session user host (SshAuth.public_key path cred) =
      >>=-Quiet (load_key outside path cred) (with_key outside session user)
        (load_key-Quiet path cred) (with_key-Quiet session user)
  authenticate_with-Quiet session user host SshAuth.keyboard_interactive = λ s. exchange-Quiet _ _
  authenticate_with-Quiet session user host SshAuth.agent = λ s. with_agent-Quiet session user _ _
