-- ===== src/Ui/Sessions/Editor.antt =====
-- `SessionEditor` of crates/polyterm-ui/src/sessions.rs: its fields are text, which `to_spec` parses.
pub mod Roundtrip
mod Tests
use poly_term.Prelude.{ℕ, ◌^◌, Bool, true, false, Option, none, some, List, [], ◌∷◌, ◌++◌, is_empty}
use poly_term.Prelude.Text.{Text, codes, trim}
use poly_term.Prelude.Path.{PathBuf, from_text, display}
use poly_term.Prelude.Decimal.{parse, to_string}
use poly_term.Core.Session.{
  SessionId, FolderPath, CredentialRef, ExitAction, prompt, SshAuth, agent, password, public_key,
  keyboard_interactive, SshConfig, SerialConfig, Parity, StopBits, one, FlowControl, PtyConfig,
  RdpConfig, SessionKind, ssh, serial, local_shell, rdp, SessionSpec,
}
use poly_term.Ui.Form.{Checked, ok, error, ◌>>=◌, ok_or, non_empty}
use poly_term.Ui.Sessions.{parse_folder, folder_to_string}

pub data KindTag : Type 0 where
  local_shell_tag serial_tag ssh_tag rdp_tag : KindTag

pub data AuthTag : Type 0 where
  agent_tag password_tag key_tag keyboard_interactive_tag : AuthTag

pub record SessionEditor : Type 0 where
  pub id : SessionId
  pub is_new : Bool
  pub name : Text
  pub folder : Text
  pub kind : KindTag
  pub on_exit : ExitAction
  pub error : Option Text
  pub browse_requested : Bool
  pub shell : Text
  pub serial_port : Text
  pub baud : Text
  pub host : Text
  pub port : Text
  pub username : Text
  pub ssh_auth : AuthTag
  pub key_path : Text
  pub domain : Text
  pub width : Text
  pub height : Text

-- The fresh id is an argument.
pub default : SessionId → SessionEditor
default fresh = record {
  id = fresh;
  is_new = true;
  name = [];
  folder = [];
  kind = ssh_tag;
  on_exit = prompt;
  error = none;
  browse_requested = false;
  shell = [];
  serial_port = [];
  baud = codes "115200";
  host = [];
  port = codes "22";
  username = [];
  ssh_auth = agent_tag;
  key_path = [];
  domain = [];
  width = codes "1920";
  height = codes "1080";
}

pub new_in : SessionId → FolderPath → SessionEditor
unfolding default
new_in fresh folder = record (default fresh) { folder = folder_to_string folder }

tag_of : SshAuth → AuthTag
tag_of agent = agent_tag
tag_of (password credential) = password_tag
tag_of (public_key key_path passphrase) = key_tag
tag_of keyboard_interactive = keyboard_interactive_tag

key_path_of : SshAuth → Text
key_path_of agent = []
key_path_of (password credential) = []
key_path_of (public_key key_path passphrase) = display key_path
key_path_of keyboard_interactive = []

unwrap_or_default : Option Text → Text
unwrap_or_default none = []
unwrap_or_default (some t) = t

display_or_default : Option PathBuf → Text
display_or_default none = []
display_or_default (some path) = display path

fill : SessionKind → SessionEditor → SessionEditor
unfolding tag_of key_path_of unwrap_or_default display_or_default
fill (local_shell c) e = record e { kind = local_shell_tag; shell = display_or_default c.shell }
fill (serial c) e = record e { kind = serial_tag; serial_port = c.port; baud = to_string c.baud }
fill (ssh c) e = record e {
  kind = ssh_tag;
  host = c.host;
  port = to_string c.port;
  username = c.username;
  ssh_auth = tag_of c.auth;
  key_path = key_path_of c.auth;
}
fill (rdp c) e = record e {
  kind = rdp_tag;
  host = c.host;
  port = to_string c.port;
  username = c.username;
  domain = unwrap_or_default c.domain;
  width = to_string c.width;
  height = to_string c.height;
}

pub edit : SessionId → SessionSpec → SessionEditor
unfolding fill default
edit fresh spec = fill spec.kind (record (default fresh) {
  id = spec.id;
  is_new = false;
  name = spec.name;
  folder = folder_to_string spec.folder;
  on_exit = spec.on_exit;
})

-- `format!("{field} is required.")`
pub require : Text → Text → Checked Text
require s field = ok_or (non_empty s) (field ++ codes " is required.")

-- The bound is that of the target type: 2 ^ 16 for `u16`, 2 ^ 32 for `u32`.
pub parse_num : ℕ → Text → Text → Checked ℕ
parse_num bound s field = ok_or (parse bound (trim s)) (field ++ codes " must be a number.")

pub credential_ref : Text → Text → Text → CredentialRef
credential_ref protocol user host = record {
  service = codes "polyterm-" ++ protocol;
  account = user ++ codes "@" ++ host;
}

to_auth : SessionEditor → Text → Text → AuthTag → Checked SshAuth
unfolding credential_ref require
to_auth e username host agent_tag = ok agent
to_auth e username host keyboard_interactive_tag = ok keyboard_interactive
to_auth e username host password_tag = ok (password (credential_ref (codes "ssh") username host))
to_auth e username host key_tag =
    require e.key_path (codes "Key path") >>= λ path. ok (public_key (from_text path) none)

shell_of : Option Text → Option PathBuf
shell_of none = none
shell_of (some t) = some (from_text t)

to_kind : SessionEditor → KindTag → Checked SessionKind
unfolding to_auth require parse_num shell_of
to_kind e local_shell_tag = ok (
    local_shell
      (record { shell = shell_of (non_empty e.shell); working_directory = none; env = [] }))
to_kind e serial_tag = require e.serial_port (codes "Serial port") >>= λ port.
    parse_num (2 ^ 32) e.baud (codes "Baud rate") >>= λ baud. ok (
      serial (record {
        port = port;
        baud = baud;
        data_bits = 8;
        parity = Parity.none;
        stop_bits = one;
        flow_control = FlowControl.none;
      }))
to_kind e ssh_tag = require e.host (codes "Host") >>= λ host.
    require e.username (codes "Username") >>= λ username.
    to_auth e username host e.ssh_auth >>= λ auth.
    parse_num (2 ^ 16) e.port (codes "Port") >>= λ port. ok (
      ssh (record {
        host = host;
        port = port;
        username = username;
        auth = auth;
        jumps = [];
        keepalive = none;
      }))
to_kind e rdp_tag = require e.host (codes "Host") >>= λ host.
    parse_num (2 ^ 16) e.port (codes "Port") >>= λ port.
    require e.username (codes "Username") >>= λ username.
    parse_num (2 ^ 16) e.width (codes "Width") >>= λ width.
    parse_num (2 ^ 16) e.height (codes "Height") >>= λ height. ok (
      rdp (record {
        host = host;
        port = port;
        username = username;
        domain = non_empty e.domain;
        credential = none;
        width = width;
        height = height;
      }))

named : Option Text → Checked Text
named none = error (codes "Name is required.")
named (some name) = ok name

pub to_spec : SessionEditor → Checked SessionSpec
unfolding named to_kind
to_spec e = named (non_empty e.name) >>= λ name. to_kind e e.kind >>= λ kind. ok (record {
  id = e.id;
  name = name;
  folder = parse_folder e.folder;
  kind = kind;
  on_exit = e.on_exit;
})

pub take_browse_request : SessionEditor → Bool × SessionEditor
take_browse_request e = (e.browse_requested, record e { browse_requested = false })

pub set_key_path : Text → SessionEditor → SessionEditor
set_key_path path e = record e { key_path = path }
