-- ===== src/Ui/Panes/Keyed.antt =====
-- The keys of a map after an insertion or a removal.
use poly_term.Prelude.{true, not, ◌||◌, ◌&&◌, ◌≡◌, some, [], ◌∷◌, eqb, arith}
use poly_term.Core.Session.{SessionId}
use poly_term.Ui.Panes.{Map, contains_key, get, remove, insert}

module _ {A : Type 0} where
  pub contains_key-remove :
      (id k : SessionId) (m : Map A)
      → contains_key id (remove k m) ≡ (not (eqb k id) && contains_key id m)
  contains_key-remove id k [] = ground arith
  contains_key-remove id k (e ∷ m) = ground (arith, contains_key-remove id k m)

  pub contains_key-insert :
      (id k : SessionId) (a : A) (m : Map A)
      → contains_key id (insert k a m) ≡ (eqb k id || contains_key id m)
  contains_key-insert id k a m = ground (arith, contains_key-remove id k m)

  pub get-contains_key :
      (id : SessionId) (m : Map A) (a : A) → get id m ≡ some a → contains_key id m ≡ true
  get-contains_key id [] a h = cc
  get-contains_key id (e ∷ m) a h = ground (arith, get-contains_key id m a)
