-- ===== src/Ui/ForwardForm.antt =====
-- crates/polyterm-ui/src/app.rs: the form of a new port forward.
pub mod Accepts
mod Tests
use poly_term.Prelude.{ℕ, ◌^◌, Bool, Option, none, some, [], ◌∷◌, ◌++◌, eqb, if◌then◌else◌}
use poly_term.Prelude.Text.{Text, codes, trim}
use poly_term.Prelude.Decimal.{parse}
use poly_term.Core.Forward.{ForwardKind, local, remote, dynamic, ForwardSpec}
use poly_term.Ui.Form.{Checked, ok, error, ◌>>=◌, ok_or, non_empty}

pub record ForwardForm : Type 0 where
  pub kind : ForwardKind
  pub bind_host : Text
  pub bind_port : Text
  pub target_host : Text
  pub target_port : Text
  pub error : Option Text

-- `Default`
pub default : ForwardForm
default = record {
  kind = local;
  bind_host = codes "127.0.0.1";
  bind_port = [];
  target_host = [];
  target_port = [];
  error = none;
}

nonzero : Text → Option ℕ → Checked ℕ
nonzero field none = error (field ++ codes " must be a number 1–65535.")
nonzero field (some p) =
    if eqb p 0 then error (field ++ codes " must be a number 1–65535.") else ok p

pub parse_port : Text → Text → Checked ℕ
unfolding nonzero
parse_port s field = nonzero field (parse (2 ^ 16) (trim s))

or_localhost : Option Text → Text
or_localhost (some host) = host
or_localhost none = codes "127.0.0.1"

to_target : Text → Text → ForwardKind → Checked (Text × ℕ)
to_target host port dynamic = ok ([], 0)
to_target host port local = ok_or (non_empty host) (codes "Target host is required.") >>= λ h.
    parse_port port (codes "Target port") >>= λ p. ok (h, p)
to_target host port remote = ok_or (non_empty host) (codes "Target host is required.") >>= λ h.
    parse_port port (codes "Target port") >>= λ p. ok (h, p)

pub to_spec : ForwardForm → Checked ForwardSpec
unfolding or_localhost to_target
to_spec form = parse_port form.bind_port (codes "Listen port") >>= λ bind_port.
    to_target form.target_host form.target_port form.kind >>= λ target. ok (record {
      kind = form.kind;
      bind_host = or_localhost (non_empty form.bind_host);
      bind_port = bind_port;
      target_host = target.0;
      target_port = target.1;
    })
