-- ===== src/Ui/Sessions/Editor/Roundtrip.antt =====
-- What a session keeps of itself when it is opened in the form and saved.
use poly_term.Prelude.{ℕ, ◌<◌, ◌^◌, ◌≡◌, refl, ◌∙◌, ap, Option, none, some, [], ◌++◌, All}
use poly_term.Prelude.Text.{Text, codes}
use poly_term.Prelude.Text.Plain.{trim-Solid}
use poly_term.Prelude.Path.{PathBuf, from_text, display}
use poly_term.Prelude.Decimal.{parse, to_string}
use poly_term.Prelude.Decimal.Parse.{parse-to_string, to_string-Solid}
use poly_term.Core.Session.{
  SessionId, SshAuth, agent, password, public_key, keyboard_interactive, Parity, one, FlowControl,
  SessionKind, ssh, serial, local_shell, rdp, SessionSpec,
}
use poly_term.Ui.Form.{ok, ok_or, non_empty, non_empty_nil}
use poly_term.Ui.Sessions.{parse_folder}
use poly_term.Ui.Sessions.Folders.{Segment, parse_folder-folder_to_string}
use poly_term.Ui.Sessions.Editor.{
  SessionEditor, tag_of, key_path_of, unwrap_or_default, display_or_default, fill, edit, require,
  parse_num, credential_ref, to_auth, shell_of, to_kind, named, to_spec,
}

-- A field that the form keeps as it is.
abbrev pub Plain : Text → Type 0
Plain t = non_empty t ≡ some t

abbrev pub PlainPath : PathBuf → Type 0
PlainPath path = Plain (display path) × (from_text (display path) ≡ path)

abbrev pub PlainAuth : SshAuth → Type 0
PlainAuth agent = Unit
PlainAuth (password credential) = Unit
PlainAuth (public_key key_path passphrase) = PlainPath key_path
PlainAuth keyboard_interactive = Unit

abbrev pub PlainShell : Option PathBuf → Type 0
PlainShell none = Unit
PlainShell (some path) = PlainPath path

abbrev pub PlainDomain : Option Text → Type 0
PlainDomain none = Unit
PlainDomain (some t) = Plain t

-- What can be saved of each kind, with its numbers in their range.
abbrev pub PlainKind : SessionKind → Type 0
PlainKind (ssh c) = Plain c.host × Plain c.username × (c.port < 2 ^ 16) × PlainAuth c.auth
PlainKind (serial c) = Plain c.port × (c.baud < 2 ^ 32)
PlainKind (local_shell c) = PlainShell c.shell
PlainKind (rdp c) =
    Plain c.host
    × Plain c.username
    × (c.port < 2 ^ 16)
    × PlainDomain c.domain
    × (c.width < 2 ^ 16)
    × (c.height < 2 ^ 16)

abbrev pub kept_auth : Text → Text → SshAuth → SshAuth
kept_auth username host agent = agent
kept_auth username host (password credential) =
    password (credential_ref (codes "ssh") username host)
kept_auth username host (public_key key_path passphrase) = public_key key_path none
kept_auth username host keyboard_interactive = keyboard_interactive

-- Jump hosts, the keepalive, credentials, serial framing, and the shell's directory and environment are
-- not in the form.
abbrev pub kept : SessionKind → SessionKind
kept (ssh c) =
    ssh (record c { auth = kept_auth c.username c.host c.auth; jumps = []; keepalive = none })
kept (serial c) = serial (record c {
  data_bits = 8;
  parity = Parity.none;
  stop_bits = one;
  flow_control = FlowControl.none;
})
kept (local_shell c) = local_shell (record c { working_directory = none; env = [] })
kept (rdp c) = rdp (record c { credential = none })

require-Plain : (t field : Text) → Plain t → require t field ≡ ok t
unfolding require
require-Plain t field h = rw h refl

parse_num-to_string :
    (bound n : ℕ) (field : Text) → n < bound → parse_num bound (to_string n) field ≡ ok n
unfolding parse_num
parse_num-to_string bound n field h =
    ap (λ o. ok_or o (field ++ codes " must be a number."))
      (ap (parse bound) (trim-Solid (to_string n) (to_string-Solid n)) ∙ parse-to_string bound n h)

edited_auth :
    (e : SessionEditor) (username host : Text) (auth : SshAuth)
    → PlainAuth auth
    → e.key_path ≡ key_path_of auth
    → to_auth e username host (tag_of auth) ≡ ok (kept_auth username host auth)
unfolding to_auth tag_of key_path_of
edited_auth e username host agent h k = refl
edited_auth e username host (password credential) h k = refl
edited_auth e username host keyboard_interactive h k = refl
edited_auth e username host (public_key path passphrase) h k =
    rw (k, require-Plain (display path) (codes "Key path") h.0, h.1) refl

edited_domain : (o : Option Text) → PlainDomain o → non_empty (unwrap_or_default o) ≡ o
unfolding unwrap_or_default
edited_domain none h = non_empty_nil
edited_domain (some t) h = h

edited_shell : (o : Option PathBuf) → PlainShell o → shell_of (non_empty (display_or_default o)) ≡ o
unfolding display_or_default shell_of
edited_shell none h = rw non_empty_nil refl
edited_shell (some path) h = rw (h.0, h.1) refl

edited_kind :
    (e : SessionEditor) (kind : SessionKind)
    → PlainKind kind
    → to_kind (fill kind e) (fill kind e).kind ≡ ok (kept kind)
unfolding to_kind fill
edited_kind e (ssh c) (host, username, port, auth) =
    rw
      (
        require-Plain c.host (codes "Host") host,
        require-Plain c.username (codes "Username") username,
        edited_auth (fill (ssh c) e) c.username c.host c.auth auth refl,
        parse_num-to_string (2 ^ 16) c.port (codes "Port") port,
      )
      refl
edited_kind e (serial c) (port, baud) =
    rw
      (
        require-Plain c.port (codes "Serial port") port,
        parse_num-to_string (2 ^ 32) c.baud (codes "Baud rate") baud,
      )
      refl
edited_kind e (local_shell c) h =
    ap (λ o. ok (local_shell (record { shell = o; working_directory = none; env = [] })))
      (edited_shell c.shell h)
edited_kind e (rdp c) (host, username, port, domain, width, height) =
    rw
      (
        require-Plain c.host (codes "Host") host,
        parse_num-to_string (2 ^ 16) c.port (codes "Port") port,
        require-Plain c.username (codes "Username") username,
        parse_num-to_string (2 ^ 16) c.width (codes "Width") width,
        parse_num-to_string (2 ^ 16) c.height (codes "Height") height,
        edited_domain c.domain domain,
      )
      refl

to_spec_parts :
    (e : SessionEditor) (spec : SessionSpec) (kind : SessionKind)
    → e.id ≡ spec.id
    → e.on_exit ≡ spec.on_exit
    → non_empty e.name ≡ some spec.name
    → parse_folder e.folder ≡ spec.folder
    → to_kind e e.kind ≡ ok kind
    → to_spec e ≡ ok (record spec { kind = kind })
unfolding to_spec named
to_spec_parts e spec kind id on_exit name folder k = rw (name, k, folder, id, on_exit) refl

-- Filling in the kind leaves the other fields.
abbrev SameFields : SessionEditor → SessionEditor → Type 0
SameFields e e' =
    (e.id ≡ e'.id) × (e.on_exit ≡ e'.on_exit) × (e.name ≡ e'.name) × (e.folder ≡ e'.folder)

fill-SameFields : (kind : SessionKind) (e : SessionEditor) → SameFields (fill kind e) e
unfolding fill
fill-SameFields (ssh c) e = (refl, refl, refl, refl)
fill-SameFields (serial c) e = (refl, refl, refl, refl)
fill-SameFields (local_shell c) e = (refl, refl, refl, refl)
fill-SameFields (rdp c) e = (refl, refl, refl, refl)

to_spec-filled :
    (e : SessionEditor) (spec : SessionSpec)
    → e.id ≡ spec.id
    → e.on_exit ≡ spec.on_exit
    → non_empty e.name ≡ some spec.name
    → parse_folder e.folder ≡ spec.folder
    → PlainKind spec.kind
    → to_spec (fill spec.kind e) ≡ ok (record spec { kind = kept spec.kind })
to_spec-filled e spec id on_exit name folder kind =
    let same = fill-SameFields spec.kind e in
    to_spec_parts (fill spec.kind e) spec (kept spec.kind) (same.0 ∙ id) (same.1 ∙ on_exit)
      (ap non_empty same.2 ∙ name) (ap parse_folder same.3 ∙ folder) (edited_kind e spec.kind kind)

-- Take a session whose name, text fields (a domain or a shell only if there is one) and paths as text are not empty and
-- have no space around them, whose folder names are so too and have no slash, whose paths read back from their
-- text, and whose numbers are in range. Opened in the form and saved again, it keeps its id, name, folder, exit
-- action and what the form shows of its kind; it loses its jump hosts, keepalive and stored credentials, serial
-- framing, and the shell's directory and environment.
pub to_spec-edit :
    (fresh : SessionId) (spec : SessionSpec)
    → Plain spec.name
    → All Segment spec.folder
    → PlainKind spec.kind
    → to_spec (edit fresh spec) ≡ ok (record spec { kind = kept spec.kind })
unfolding edit
to_spec-edit fresh spec name folder kind =
    to_spec-filled _ spec refl refl name (parse_folder-folder_to_string spec.folder folder) kind
