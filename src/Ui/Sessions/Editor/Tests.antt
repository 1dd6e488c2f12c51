-- ===== src/Ui/Sessions/Editor/Tests.antt =====
-- A session behind a jump host, opened in the form and saved.
use poly_term.Prelude.{◌≡◌, refl, none, some, [], ◌∷◌, arith}
use poly_term.Prelude.Text.{codes, split, join_with, trim, trim_start, trim_end, is_whitespace}
use poly_term.Prelude.Path.{from_text, display}
use poly_term.Core.Session.{agent, public_key, ssh, close, SessionSpec}
use poly_term.Ui.Form.{ok, non_empty}
use poly_term.Ui.Sessions.{parse_folder, not_blank}
use poly_term.Ui.Sessions.Folders.{Segment}
use poly_term.Ui.Sessions.Editor.{edit, to_spec}
use poly_term.Ui.Sessions.Editor.Roundtrip.{Plain, kept, to_spec-edit}

abbrev behind_a_jump : SessionSpec
behind_a_jump = record {
  id = 4;
  name = codes "edge";
  folder = codes "Home" ∷ codes "infra" ∷ [];
  kind = ssh (record {
    host = codes "h";
    port = 2222;
    username = codes "me";
    auth = public_key (codes "/" ∷ codes "key" ∷ []) none;
    jumps = (record { host = codes "j"; port = 22; username = codes "me"; auth = agent }) ∷ [];
    keepalive = some 30;
  });
  on_exit = close;
}

home : Segment (codes "Home")
unfolding trim trim_start trim_end is_whitespace
home = record { no_slash = (refl, (refl, (refl, (refl, tt)))); trimmed = refl; nonempty = refl }

infra : Segment (codes "infra")
unfolding trim trim_start trim_end is_whitespace
infra = record {
  no_slash = (refl, (refl, (refl, (refl, (refl, tt)))));
  trimmed = refl;
  nonempty = refl;
}

name_kept : Plain (codes "edge")
unfolding non_empty trim trim_start trim_end is_whitespace
name_kept = refl

host_kept : Plain (codes "h")
unfolding non_empty trim trim_start trim_end is_whitespace
host_kept = refl

user_kept : Plain (codes "me")
unfolding non_empty trim trim_start trim_end is_whitespace
user_kept = refl

key_kept : Plain (display (codes "/" ∷ codes "key" ∷ []))
unfolding non_empty trim trim_start trim_end is_whitespace display join_with
key_kept = refl

same_key : from_text (display (codes "/" ∷ codes "key" ∷ [])) ≡ codes "/" ∷ codes "key" ∷ []
unfolding from_text display split join_with
same_key = refl

blank_segments_are_dropped :
    parse_folder (codes " infra //edge/") ≡ codes "infra" ∷ codes "edge" ∷ []
unfolding parse_folder split trim trim_start trim_end is_whitespace not_blank
blank_segments_are_dropped = refl

to_spec-edit_example :
    to_spec (edit 9 behind_a_jump) ≡ ok (record behind_a_jump { kind = kept behind_a_jump.kind })
to_spec-edit_example =
    to_spec-edit 9 behind_a_jump name_kept (home, (infra, tt))
      (host_kept, user_kept, omega arith, (key_kept, same_key))
