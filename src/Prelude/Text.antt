-- ===== src/Prelude/Text.antt =====
-- `str` and `String` as lists of Unicode scalar values, with the methods that the code calls.
pub mod Plain
pub mod Split
use Prim.Native.Char.{code}
use Prim.Native.String.{String}
use Prim.Native.Nat.{ℕ}
use mathlib.Core.Bool.{Bool, true, false, ◌||◌, ◌&&◌}
use mathlib.Core.List.{List, [], ◌∷◌, ◌++◌, reverse}
use poly_term.Prelude.Tests.{eqb, leb, if◌then◌else◌}

abbrev pub Text : Type 0
Text = List ℕ

-- A literal.
abbrev pub codes : String → Text
codes String.[] = []
codes (String.◌∷◌ c s) = code c ∷ codes s

-- `char::is_whitespace`: Unicode's White_Space.
unfoldable pub is_whitespace : ℕ → Bool
is_whitespace c =
    (leb 9 c && leb c 13)
    || eqb c 32
    || eqb c 133
    || eqb c 160
    || eqb c 5760
    || (leb 8192 c && leb c 8202)
    || eqb c 8232
    || eqb c 8233
    || eqb c 8239
    || eqb c 8287
    || eqb c 12288

-- `str::trim_start`
unfoldable pub trim_start : Text → Text
trim_start [] = []
trim_start (c ∷ s) = let rest = trim_start s in if is_whitespace c then rest else c ∷ s

-- `str::trim_end`
unfoldable pub trim_end : Text → Text
trim_end s = reverse (trim_start (reverse s))

-- `str::trim`
unfoldable pub trim : Text → Text
trim s = trim_end (trim_start s)

-- The first piece gets one more character.
grow : ℕ → List Text → List Text
grow c [] = (c ∷ []) ∷ []
grow c (piece ∷ pieces) = (c ∷ piece) ∷ pieces

-- `str::split` at a character
unfoldable pub split : ℕ → Text → List Text
unfolding grow
split sep [] = [] ∷ []
split sep (c ∷ s) = let rest = split sep s in if eqb c sep then [] ∷ rest else grow c rest

-- `slice::join` with a character
unfoldable pub join_with : ℕ → List Text → Text
join_with sep [] = []
join_with sep (piece ∷ []) = piece
join_with sep (piece ∷ next ∷ pieces) = piece ++ sep ∷ join_with sep (next ∷ pieces)

-- `str::starts_with` and `str::contains`
pub starts_with : Text → Text → Bool
starts_with s [] = true
starts_with [] (p ∷ ps) = false
starts_with (c ∷ s) (p ∷ ps) = eqb c p && starts_with s ps

pub contains : Text → Text → Bool
unfolding starts_with
contains [] q = starts_with [] q
contains (c ∷ s) q = starts_with (c ∷ s) q || contains s q
