-- ===== src/Ui/ForwardForm/Tests.antt =====
-- A local forward of port 8080, and forms with a bad port.
use poly_term.Prelude.{◌≡◌, ◌≢◌, refl, ◌⊎◌, none, some, []}
use poly_term.Prelude.Text.{codes, trim, trim_start, trim_end, is_whitespace}
use poly_term.Prelude.Decimal.{parse, is_digit}
use poly_term.Core.Forward.{local, dynamic, ForwardSpec}
use poly_term.Ui.Form.{ok, error, non_empty}
use poly_term.Ui.ForwardForm.{ForwardForm, parse_port, to_spec}
use poly_term.Ui.ForwardForm.Accepts.{IsPort, to_spec-accepts}

port_zero :
    parse_port (codes "0") (codes "Listen port")
    ≡ error (codes "Listen port must be a number 1–65535.")
unfolding parse_port parse is_digit trim trim_start trim_end is_whitespace
port_zero = refl

port_too_large :
    parse_port (codes "65536") (codes "Listen port")
    ≡ error (codes "Listen port must be a number 1–65535.")
unfolding parse_port parse is_digit trim trim_start trim_end is_whitespace
port_too_large = refl

abbrev form : ForwardForm
form = record {
  kind = local;
  bind_host = codes " ";
  bind_port = codes " 8080 ";
  target_host = codes "db";
  target_port = codes "+5432";
  error = none;
}

abbrev spec : ForwardSpec
spec = record {
  kind = local;
  bind_host = codes "127.0.0.1";
  bind_port = 8080;
  target_host = codes "db";
  target_port = 5432;
}

accepted : to_spec form ≡ ok spec
unfolding to_spec parse_port non_empty parse is_digit trim trim_start trim_end is_whitespace
accepted = refl

to_spec-accepts_example :
    (spec.kind ≡ form.kind)
    × IsPort spec.bind_port
    × (((form.kind ≡ dynamic) × (spec.target_host ≡ []) × (spec.target_port ≡ 0))
        ⊎ ((form.kind ≢ dynamic)
            × (some spec.target_host ≡ non_empty form.target_host)
            × IsPort spec.target_port))
to_spec-accepts_example = to_spec-accepts form spec accepted
