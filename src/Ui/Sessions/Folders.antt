-- ===== src/Ui/Sessions/Folders.antt =====
-- Folders as the text that the form edits.
use poly_term.Prelude.{◌≡◌, refl, ◌∙◌, ap, false, List, [], ◌∷◌, map, retain, All, is_empty}
use poly_term.Prelude.Text.{Text, join_with, trim}
use poly_term.Prelude.Text.Plain.{trim-Solid}
use poly_term.Prelude.Text.Split.{Without, split_piece, split-join_with}
use poly_term.Core.Session.{FolderPath}
use poly_term.Ui.Sessions.{not_blank, parse_folder, folder_to_string}

-- A name that the form keeps: no slash, no space around it, not empty.
pub record Segment (name : Text) : Type 0 where
  pub no_slash : Without 47 name
  pub trimmed : trim name ≡ name
  pub nonempty : is_empty name ≡ false

kept_names : (names : List Text) → All Segment names → retain not_blank (map trim names) ≡ names
unfolding not_blank
kept_names [] h = refl
kept_names (n ∷ names) h = rw (h.0.trimmed, h.0.nonempty, kept_names names h.1) refl

slash_free : (names : List Text) → All Segment names → All (Without 47) names
slash_free [] h = tt
slash_free (n ∷ names) h = (h.0.no_slash, slash_free names h.1)

-- A folder written in the form is the same folder when the form is read.
pub parse_folder-folder_to_string :
    (folder : FolderPath) → All Segment folder → parse_folder (folder_to_string folder) ≡ folder
unfolding parse_folder folder_to_string not_blank join_with
parse_folder-folder_to_string [] h =
    ap (λ pieces. retain not_blank (map trim pieces)) (split_piece 47 [] tt)
    ∙ rw (trim-Solid [] tt) refl
parse_folder-folder_to_string (n ∷ names) h =
    ap (λ pieces. retain not_blank (map trim pieces))
      (split-join_with 47 n names (slash_free (n ∷ names) h))
    ∙ kept_names (n ∷ names) h
