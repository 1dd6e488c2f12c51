-- ===== src/Prelude/Path.antt =====
-- `std::path` on Unix, as far as the code uses it: a path is the list of its components, which is what
-- Rust compares, and the root is the component "/".
use poly_term.Prelude.Tests.{if◌then◌else◌}
use poly_term.Prelude.Lists.{retain, is_empty}
use poly_term.Prelude.Classes.{◌==◌, list_eq, nat_eq}
use poly_term.Prelude.Text.{Text, codes, split, join_with}
use mathlib.Core.Bool.{Bool, true, false, not, ◌||◌}
use mathlib.Core.Option.{Option, none, some}
use mathlib.Core.List.{List, [], ◌∷◌, ◌++◌}

abbrev pub PathBuf : Type 0
PathBuf = List Text

abbrev pub is_slash : Text → Bool
is_slash c = c == codes "/"

-- `Path::is_relative`
unfoldable pub is_relative : PathBuf → Bool
is_relative [] = true
is_relative (c ∷ p) = not (is_slash c)

-- `Path::join`: an absolute path replaces the base.
unfoldable pub join : PathBuf → PathBuf → PathBuf
unfolding is_relative
join base p = if is_relative p then base ++ p else p

drop_last : Text → PathBuf → PathBuf
drop_last c [] = []
drop_last c (c' ∷ p) = c ∷ drop_last c' p

-- `Path::parent`
unfoldable pub parent : PathBuf → Option PathBuf
unfolding drop_last
parent [] = none
parent (c ∷ []) = if is_slash c then none else some []
parent (c ∷ c' ∷ p) = some (c ∷ drop_last c' p)

-- `Path::file_name`: the last component, unless it is the root, "." or "..".
unfoldable pub file_name : PathBuf → Option Text
file_name [] = none
file_name (c ∷ []) = if is_slash c || c == codes "." || c == codes ".." then none else some c
file_name (c ∷ c' ∷ p) = file_name (c' ∷ p)

stays : Text → Bool
stays c = not (is_empty c || c == codes ".")

from_pieces : List Text → PathBuf
unfolding stays
from_pieces [] = []
from_pieces ([] ∷ []) = []
from_pieces ([] ∷ piece ∷ pieces) = codes "/" ∷ retain stays (piece ∷ pieces)
from_pieces ((c ∷ s) ∷ pieces) = (c ∷ s) ∷ retain stays pieces

-- `PathBuf::from`: empty components, and "." behind the first one, do not count.
unfoldable pub from_text : Text → PathBuf
unfolding from_pieces
from_text s = from_pieces (split 47 s)

below_root : Bool → Text → PathBuf → Text
below_root true c p = c ++ join_with 47 p
below_root false c p = join_with 47 (c ∷ p)

-- `Path::display`, of a path written without what `from_text` skips.
unfoldable pub display : PathBuf → Text
unfolding below_root
display [] = []
display (c ∷ p) = below_root (is_slash c) c p
