-- ===== src/Ssh/Auth.antt =====
-- crates/polyterm-ssh/src/lib.rs: `authenticate_with` and what it calls.
pub mod Silent
use poly_term.Prelude.{
  ℕ, Bool, true, false, Option, none, some, List, [], ◌∷◌, ◌++◌, ◌⊎◌, inl, inr, if◌then◌else◌,
}
use poly_term.Prelude.Text.{Text, codes}
use poly_term.Core.Session.{PathBuf, CredentialRef, SshAuth}
use poly_term.Core.Prompt.{
  Reply, CredentialRequest, CredentialPrompt, CredentialReply, cancelled, secret, responses,
}
use poly_term.Core.Transport.{TransportEvent, credential, error}
use poly_term.Ssh.Io.{
  Act, sends, Out, Io, Call, pure, call, logged, ◌>>=◌, ◌>>=?◌, Identity, Exchange, success,
  failure, breaks, info_request, Outside,
}

module _ {S H K : Type 0} (outside : Outside S H K) where
  -- `events.send(..)`
  unfoldable pub emit : TransportEvent → Io S Bool
  emit event = logged (λ sent. sends event) (outside.send event)

  or_cancelled : Option CredentialReply → CredentialReply
  or_cancelled (some answer) = answer
  or_cancelled none = cancelled

  awaited : Reply → Bool → Io S CredentialReply
  unfolding or_cancelled
  awaited reply true = call (outside.credential_answer reply) >>= λ o. pure (or_cancelled o)
  awaited reply false = pure cancelled

  prompted : CredentialRequest → Option CredentialRef → Reply → Io S CredentialReply
  unfolding awaited
  prompted request cred reply =
      emit (credential (record { request = request; credential = cred; reply = reply }))
      >>= awaited reply

  unfoldable pub ask_credential : CredentialRequest → Option CredentialRef → Io S CredentialReply
  unfolding prompted
  ask_credential request cred = call outside.channel >>= prompted request cred

  loaded : Text ⊎ K → Io S (Option K)
  loaded (inr key) = pure (some key)
  loaded (inl e) = emit (error (codes "could not load key: " ++ e)) >>= λ sent. pure none

  unlock : PathBuf → CredentialReply → Io S (Option K)
  unfolding loaded
  unlock path (secret value remember) = call (outside.load_secret_key path (some value)) >>= loaded
  unlock path cancelled = pure none
  unlock path (responses answers) = pure none

  unlocked_or_ask : PathBuf → Option CredentialRef → Text ⊎ K → Io S (Option K)
  unfolding unlock
  unlocked_or_ask path passphrase (inr key) = pure (some key)
  unlocked_or_ask path passphrase (inl e) =
      ask_credential (CredentialRequest.passphrase path) passphrase >>= unlock path

  unfoldable pub load_key : PathBuf → Option CredentialRef → Io S (Option K)
  unfolding unlocked_or_ask
  load_key path passphrase =
      call (outside.load_secret_key path none) >>= unlocked_or_ask path passphrase

  -- The hash is for RSA keys only.
  hash_for : Identity → Option Text → Option Text
  hash_for identity hash = if identity.is_rsa then hash else none

  -- An identity that is refused, or fails, leaves the next one to try.
  tried : Io S (Text ⊎ Bool) → Text ⊎ Bool → Io S (Text ⊎ Bool)
  tried next (inr true) = pure (inr true)
  tried next (inr false) = next
  tried next (inl e) = next

  try_identities : H → Text → Option Text → List Identity → Io S (Text ⊎ Bool)
  unfolding hash_for tried
  try_identities session user hash [] = pure (inr false)
  try_identities session user hash (identity ∷ identities) =
      call (outside.authenticate_identity session user identity (hash_for identity hash))
      >>= tried (try_identities session user hash identities)

  with_identities : H → Text → Text ⊎ List Identity → Io S (Text ⊎ Bool)
  unfolding try_identities
  with_identities session user (inl e) =
      emit (error (codes "could not list agent keys: " ++ e)) >>= λ sent. pure (inr false)
  with_identities session user (inr []) =
      emit (error (codes "the SSH agent has no identities")) >>= λ sent. pure (inr false)
  with_identities session user (inr (i ∷ identities)) =
      call (outside.best_supported_rsa_hash session) >>=? λ hash.
      try_identities session user hash (i ∷ identities)

  with_agent : H → Text → Text ⊎ Unit {0} → Io S (Text ⊎ Bool)
  unfolding with_identities
  with_agent session user (inl e) =
      emit (error (codes "no SSH agent: " ++ e)) >>= λ sent. pure (inr false)
  with_agent session user (inr connected) =
      call outside.request_identities >>= with_identities session user

  unfoldable pub agent_auth : H → Text → Io S (Text ⊎ Bool)
  unfolding with_agent
  agent_auth session user = call outside.connect_agent >>= with_agent session user

  responded : (List Text → Io S (Text ⊎ Bool)) → CredentialReply → Io S (Text ⊎ Bool)
  responded next (responses answers) = next answers
  responded next cancelled = pure (inr false)
  responded next (secret value remember) = pure (inr false)

  exchange : Exchange → Io S (Text ⊎ Bool)
  unfolding responded
  exchange success = pure (inr true)
  exchange failure = pure (inr false)
  exchange (breaks e) = pure (inl e)
  exchange (info_request name instruction prompts next) =
      ask_credential (CredentialRequest.keyboard_interactive name instruction prompts) none
      >>= responded (λ answers. exchange (next answers))

  unfoldable pub keyboard_interactive : H → Text → Io S (Text ⊎ Bool)
  unfolding exchange
  keyboard_interactive session user = call (outside.interactive_start session user) >>= exchange

  with_password : H → Text → CredentialReply → Io S (Text ⊎ Bool)
  with_password session user (secret value remember) =
      call (outside.authenticate_password session user value)
  with_password session user cancelled = pure (inr false)
  with_password session user (responses answers) = pure (inr false)

  with_key : H → Text → Option K → Io S (Text ⊎ Bool)
  with_key session user none = pure (inr false)
  with_key session user (some key) = call (outside.best_supported_rsa_hash session) >>=? λ hash.
      call (outside.authenticate_publickey session user key hash)

  unfoldable pub authenticate_with : H → Text → Text → SshAuth → Io S (Text ⊎ Bool)
  unfolding with_password with_key
  authenticate_with session user host (SshAuth.password cred) =
      ask_credential (CredentialRequest.password user host) (some cred)
      >>= with_password session user
  authenticate_with session user host (SshAuth.public_key key_path passphrase) =
      load_key key_path passphrase >>= with_key session user
  authenticate_with session user host SshAuth.keyboard_interactive =
      keyboard_interactive session user
  authenticate_with session user host SshAuth.agent = agent_auth session user
