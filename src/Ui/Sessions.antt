-- ===== src/Ui/Sessions.antt =====
-- crates/polyterm-ui/src/sessions.rs: the search, folders as text, the form of a session and the folder tree. The
-- form's drawing is not modelled.
pub mod Folders
pub mod Tree
pub mod Editor
use poly_term.Prelude.{
  ℕ, Bool, true, ◌||◌, is_empty, not, List, [], ◌∷◌, map, retain, if◌then◌else◌,
}
use poly_term.Prelude.Text.{Text, contains, split, join_with, trim}
use poly_term.Core.Session.{FolderPath, SessionKind, ssh, serial, local_shell, rdp, SessionSpec}

pub host_of : SessionKind → Text
host_of (ssh c) = c.host
host_of (rdp c) = c.host
host_of (serial c) = c.port
host_of (local_shell c) = []

-- `str::to_lowercase`, Unicode's table, is an argument.
pub matches_query : (Text → Text) → SessionSpec → Text → Bool
unfolding host_of
matches_query to_lowercase spec query =
    if is_empty query
    then true
    else contains (to_lowercase spec.name) (to_lowercase query)
      || contains (to_lowercase (host_of spec.kind)) (to_lowercase query)

not_blank : Text → Bool
not_blank t = not (is_empty t)

pub parse_folder : Text → FolderPath
parse_folder text = retain not_blank (map trim (split 47 text))

pub folder_to_string : FolderPath → Text
folder_to_string folder = join_with 47 folder
