-- ===== src/Core/Prompt.antt =====
-- crates/polyterm-core/src/prompt.rs: questions that a back end raises, and their answers. The
-- `oneshot` that carries the answer back is named by a number.
use poly_term.Prelude.{ℕ, Bool, Option, List}
use poly_term.Prelude.Text.{Text}
use poly_term.Core.Session.{PathBuf, CredentialRef}

abbrev pub Reply : Type 0
Reply = ℕ

pub data TrustDecision : Type 0 where
  reject accept_once accept_and_remember : TrustDecision

pub data KnownHostStatus : Type 0 where
  unknown matching changed : KnownHostStatus

pub record HostKeyPrompt : Type 0 where
  pub host : Text
  pub port : ℕ
  pub key_type : Text
  pub fingerprint : Text
  pub public_key : List ℕ
  pub reply : Reply

pub record InteractivePrompt : Type 0 where
  pub text : Text
  pub echo : Bool

pub data CredentialRequest : Type 0 where
  password : Text → Text → CredentialRequest
  passphrase : PathBuf → CredentialRequest
  keyboard_interactive : Text → Text → List InteractivePrompt → CredentialRequest

pub record CredentialPrompt : Type 0 where
  pub request : CredentialRequest
  pub credential : Option CredentialRef
  pub reply : Reply

pub data CredentialReply : Type 0 where
  cancelled : CredentialReply
  secret : Text → Bool → CredentialReply
  responses : List Text → CredentialReply
