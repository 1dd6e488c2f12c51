-- ===== src/Store/Library/Listing/Order.antt =====
-- The listing has every session once, in order.
use poly_term.Prelude.{
  Bool, true, false, ◌≡◌, refl, inl, inr, List, [], ◌∷◌, Bool-cases, arith, count,
}
use poly_term.Store.Library.Listing.{insert_sorted, sort_by}

module _ {ℓ} {A : Type ℓ} (le : A → A → Bool) where
  -- Each element is not greater than the next.
  abbrev First : A → List A → Type 0
  First x [] = Unit
  First x (y ∷ ys) = le x y ≡ true

  abbrev pub InOrder : List A → Type 0
  InOrder [] = Unit
  InOrder (x ∷ xs) = First x xs × InOrder xs

  count-insert :
      (p : A → Bool) (x : A) (xs : List A) → count p (insert_sorted le x xs) ≡ count p (x ∷ xs)
  unfolding insert_sorted
  count-insert p x [] = refl
  count-insert p x (y ∷ ys) = elim (Bool-cases (le x y)) [
    | inl e ↦ rw e refl
    | inr e ↦ rw e (omega (arith, count-insert p x ys))
  ]

  -- A sort keeps every element, however they are told apart.
  pub count-sort_by : (p : A → Bool) (xs : List A) → count p (sort_by le xs) ≡ count p xs
  unfolding sort_by
  count-sort_by p [] = refl
  count-sort_by p (x ∷ xs) = omega (arith, count-insert p x (sort_by le xs), count-sort_by p xs)

  module _ (total : (x y : A) → le x y ≡ false → le y x ≡ true) where
    First-insert :
        (z x : A) (xs : List A) → le z x ≡ true → First z xs → First z (insert_sorted le x xs)
    unfolding insert_sorted
    First-insert z x [] h f = h
    First-insert z x (y ∷ ys) h f = elim (Bool-cases (le x y)) [ inl e ↦ rw e h | inr e ↦ rw e f ]

    insert-InOrder : (x : A) (xs : List A) → InOrder xs → InOrder (insert_sorted le x xs)
    unfolding insert_sorted
    insert-InOrder x [] h = (tt, tt)
    insert-InOrder x (y ∷ ys) h = elim (Bool-cases (le x y)) [
      | inl e ↦ rw e (e, h)
      | inr e ↦ rw e (First-insert y x ys (total x y e) h.0, insert-InOrder x ys h.1)
    ]

    -- Where one of any two elements is not greater than the other, the sorted list is in order.
    pub sort_by-InOrder : (xs : List A) → InOrder (sort_by le xs)
    unfolding sort_by
    sort_by-InOrder [] = tt
    sort_by-InOrder (x ∷ xs) = insert-InOrder x (sort_by le xs) (sort_by-InOrder xs)
