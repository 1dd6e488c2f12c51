-- ===== src/Prelude/Text/Split.antt =====
-- Joining pieces with a separator that none of them has, and splitting again.
use Prim.Native.Nat.{ℕ}
use mathlib.Core.Path.{◌≡◌, refl, ◌∙◌, ap}
use mathlib.Core.Bool.{false}
use mathlib.Core.List.{List, [], ◌∷◌, ◌++◌}
use poly_term.Prelude.Tests.{eqb, eqb_iff}
use poly_term.Prelude.Lists.{All}
use poly_term.Prelude.Text.{Text, grow, split, join_with}

-- The separator does not occur.
abbrev pub Without : ℕ → Text → Type 0
Without sep = All (λ c. eqb c sep ≡ false)

pub split_piece : (sep : ℕ) (piece : Text) → Without sep piece → split sep piece ≡ piece ∷ []
unfolding split grow
split_piece sep [] h = refl
split_piece sep (c ∷ piece) h = rw (h.0, split_piece sep piece h.1) refl

split_more :
    (sep : ℕ) (piece s : Text)
    → Without sep piece
    → split sep (piece ++ sep ∷ s) ≡ piece ∷ split sep s
unfolding split grow
split_more sep [] s h = rw ((eqb_iff sep sep).1 refl) refl
split_more sep (c ∷ piece) s h = rw (h.0, split_more sep piece s h.1) refl

pub split-join_with :
    (sep : ℕ) (piece : Text) (pieces : List Text)
    → All (Without sep) (piece ∷ pieces)
    → split sep (join_with sep (piece ∷ pieces)) ≡ piece ∷ pieces
unfolding join_with
split-join_with sep piece [] h = split_piece sep piece h.0
split-join_with sep piece (next ∷ pieces) h =
    split_more sep piece _ h.0 ∙ ap (◌∷◌ piece) (split-join_with sep next pieces h.1)
