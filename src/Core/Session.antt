-- ===== src/Core/Session.antt =====
-- crates/polyterm-core/src/session.rs: what is saved of a session. An id is its UUID's number, a
-- duration is in milliseconds.
use poly_term.Prelude.{ℕ, Bool, Option, List, [], ◌∷◌, ◌++◌, is_empty}
use poly_term.Prelude.Text.{Text}
pub use poly_term.Prelude.Path.{PathBuf}

abbrev pub SessionId : Type 0
SessionId = ℕ

-- Outermost folder first.
abbrev pub FolderPath : Type 0
FolderPath = List Text

abbrev pub root : FolderPath
root = []

abbrev pub is_root : FolderPath → Bool
is_root = is_empty

abbrev pub push : FolderPath → Text → FolderPath
push folder segment = folder ++ segment ∷ []

pub record CredentialRef : Type 0 where
  pub service : Text
  pub account : Text

pub data ExitAction : Type 0 where
  prompt close : ExitAction

pub data SshAuth : Type 0 where
  agent : SshAuth
  password : CredentialRef → SshAuth
  public_key : PathBuf → Option CredentialRef → SshAuth
  keyboard_interactive : SshAuth

pub record SshJump : Type 0 where
  pub host : Text
  pub port : ℕ
  pub username : Text
  pub auth : SshAuth

pub record SshConfig : Type 0 where
  pub host : Text
  pub port : ℕ
  pub username : Text
  pub auth : SshAuth
  pub jumps : List SshJump
  pub keepalive : Option ℕ

pub data Parity : Type 0 where
  none odd even : Parity

pub data StopBits : Type 0 where
  one two : StopBits

pub data FlowControl : Type 0 where
  none hardware software : FlowControl

pub record SerialConfig : Type 0 where
  pub port : Text
  pub baud : ℕ
  pub data_bits : ℕ
  pub parity : Parity
  pub stop_bits : StopBits
  pub flow_control : FlowControl

pub record PtyConfig : Type 0 where
  pub shell : Option PathBuf
  pub working_directory : Option PathBuf
  pub env : List (Text × Text)

pub record RdpConfig : Type 0 where
  pub host : Text
  pub port : ℕ
  pub username : Text
  pub domain : Option Text
  pub credential : Option CredentialRef
  pub width : ℕ
  pub height : ℕ

pub data SessionKind : Type 0 where
  ssh : SshConfig → SessionKind
  serial : SerialConfig → SessionKind
  local_shell : PtyConfig → SessionKind
  rdp : RdpConfig → SessionKind

pub record SessionSpec : Type 0 where
  pub id : SessionId
  pub name : Text
  pub folder : FolderPath
  pub kind : SessionKind
  pub on_exit : ExitAction
