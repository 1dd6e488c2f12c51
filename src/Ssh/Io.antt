-- ===== src/Ssh/Io.antt =====
-- What crates/polyterm-ssh/src/lib.rs does to the outside: the SSH library, the agent, key files and the window that
-- answers prompts. They are the argument `outside`, over a state `S` of their own; sessions are values of `H`, private
-- keys of `K`. An operation gives its value, the state it leaves, and what it sent and heard, in order. The error of
-- a library is its text.
pub mod Yields
use poly_term.Prelude.{ℕ, Bool, Option, List, [], ◌∷◌, ◌++◌, ◌⊎◌, inl, inr}
use poly_term.Prelude.Text.{Text}
use poly_term.Core.Session.{PathBuf}
use poly_term.Core.Prompt.{Reply, TrustDecision, CredentialReply, InteractivePrompt}
use poly_term.Core.Transport.{TransportEvent}

-- A public key of the SSH library: its algorithm, its SHA-256 fingerprint, and its bytes where it can be encoded.
pub record PublicKey : Type 0 where
  pub algorithm : Text
  pub sha256 : Text
  pub bytes : Option (List ℕ)

-- `PublicKeyOrCertificate`: a key, or a certificate's own algorithm, its key and its own bytes.
pub data OfferedKey : Type 0 where
  plain_key : PublicKey → OfferedKey
  certificate : Text → PublicKey → Option (List ℕ) → OfferedKey

-- The type, fingerprint and bytes that a prompt carries.
pub record ServerKey : Type 0 where
  pub key_type : Text
  pub fingerprint : Text
  pub public_key : List ℕ

-- An event that was sent, the answer that came back to a host key's prompt, and the key that a server presented.
pub data Act : Type 0 where
  meets : OfferedKey → Act
  sends : TransportEvent → Act
  hears : Reply → Option TrustDecision → Act

pub record Out (S A : Type 0) : Type 0 where
  pub value : A
  pub state : S
  pub acts : List Act

abbrev pub Io : Type 0 → Type 0 → Type 0
Io S A = S → Out S A

-- What a call of a library gives.
abbrev pub Call : Type 0 → Type 0 → Type 0
Call S A = S → A × S

module _ {S : Type 0} where
  abbrev pub pure : {A : Type 0} → A → Io S A
  pure a s = record { value = a; state = s; acts = [] }

  abbrev pub call : {A : Type 0} → Call S A → Io S A
  call f s = record { value = (f s).0; state = (f s).1; acts = [] }

  -- A call with what it does to the log.
  abbrev pub logged : {A : Type 0} → (A → Act) → Call S A → Io S A
  logged act f s = record { value = (f s).0; state = (f s).1; acts = act (f s).0 ∷ [] }

  -- An operation, with what came before it.
  abbrev pub noted : {A : Type 0} → Act → Io S A → Io S A
  noted act m s = record (m s) { acts = act ∷ (m s).acts }

  infixl 10 ◌>>=◌
  abbrev pub ◌>>=◌ : {A B : Type 0} → Io S A → (A → Io S B) → Io S B
  ◌>>=◌ m f s =
      let r = m s in
      let r' = f r.value r.state in
      record { value = r'.value; state = r'.state; acts = r.acts ++ r'.acts }

  -- `?` on a library's error.
  abbrev or_error : {A B : Type 0} → (A → Io S (Text ⊎ B)) → Text ⊎ A → Io S (Text ⊎ B)
  or_error f (inl e) = pure (inl e)
  or_error f (inr a) = f a

  infixl 10 ◌>>=?◌
  abbrev pub ◌>>=?◌ : {A B : Type 0} → Io S (Text ⊎ A) → (A → Io S (Text ⊎ B)) → Io S (Text ⊎ B)
  m >>=? f = m >>= or_error f

-- An identity of the agent, and whether its key is an RSA key.
pub record Identity : Type 0 where
  pub public_key : List ℕ
  pub is_rsa : Bool

-- The rest of a keyboard-interactive exchange: what the server says, and how it goes on after the answers.
pub data Exchange : Type 0 where
  success failure : Exchange
  breaks : Text → Exchange
  info_request : Text → Text → List InteractivePrompt → (List Text → Exchange) → Exchange

-- In a handshake the library shows the server's key to its handler, and goes on with the handler's verdict.
pub record Outside (S H K : Type 0) : Type 0 where
  pub channel : Call S Reply
  pub send : TransportEvent → Call S Bool
  pub trust_answer : Reply → Call S (Option TrustDecision)
  pub credential_answer : Reply → Call S (Option CredentialReply)
  pub open_direct_tcpip : H → Text → ℕ → Call S (Text ⊎ Unit {0})
  pub handshake : Option H → Text → ℕ → Call S (Text ⊎ OfferedKey)
  pub finish : Bool → Call S (Text ⊎ H)
  pub authenticate_password : H → Text → Text → Call S (Text ⊎ Bool)
  pub best_supported_rsa_hash : H → Call S (Text ⊎ Option Text)
  pub authenticate_publickey : H → Text → K → Option Text → Call S (Text ⊎ Bool)
  pub load_secret_key : PathBuf → Option Text → Call S (Text ⊎ K)
  pub connect_agent : Call S (Text ⊎ Unit {0})
  pub request_identities : Call S (Text ⊎ List Identity)
  pub authenticate_identity : H → Text → Identity → Option Text → Call S (Text ⊎ Bool)
  pub interactive_start : H → Text → Call S Exchange
