-- ===== src/Prelude/Classes.antt =====
-- `PartialEq` for the types whose values the code compares: the test, and that it tells equal values.
use mathlib.Core.Path.{◌≡◌, refl, sym, ap, ap₂, ◌∙◌}
use mathlib.Core.Bool.{Bool, true, false, ◌&&◌}
use mathlib.Core.List.{List, [], ◌∷◌}
use Prim.Native.Nat.{ℕ}
use poly_term.Prelude.Tests.{eqb, eqb_iff, &&_iff, Bool-ext}

pub record PartialEq {ℓ} (A : Type ℓ) : Type ℓ where
  pub eq : A → A → Bool
  pub same : (a : A) → eq a a ≡ true
  pub sound : (a b : A) → eq a b ≡ true → a ≡ b

module _ {ℓ} {A : Type ℓ} ⦃class : PartialEq A⦄ where
  infix 50 ◌==◌
  abbrev pub ◌==◌ : A → A → Bool
  a == b = class.eq a b

  pub ==_refl : (a : A) → (a == a) ≡ true
  ==_refl a = class.same a

  pub ==_sound : (a b : A) → (a == b) ≡ true → a ≡ b
  ==_sound a b h = class.sound a b h

  pub ==_comm : (a b : A) → (a == b) ≡ (b == a)
  ==_comm a b =
      Bool-ext (a == b) (b == a) (λ h. ap (λ c. c == a) (sym (==_sound a b h)) ∙ ==_refl a)
        (λ h. ap (λ c. c == b) (sym (==_sound b a h)) ∙ ==_refl b)

  abbrev pub list_test : List A → List A → Bool
  list_test [] [] = true
  list_test [] (y ∷ ys) = false
  list_test (x ∷ xs) [] = false
  list_test (x ∷ xs) (y ∷ ys) = x == y && list_test xs ys

  pub list_test_sound : (xs ys : List A) → list_test xs ys ≡ true → xs ≡ ys
  list_test_sound [] [] h = refl
  list_test_sound [] (y ∷ ys) h = cc
  list_test_sound (x ∷ xs) [] h = cc
  list_test_sound (x ∷ xs) (y ∷ ys) h =
      let parts = (&&_iff (x == y) (list_test xs ys)).0 h in
      ap₂ ◌∷◌ (==_sound x y parts.0) (list_test_sound xs ys parts.1)

  pub list_test_refl : (xs : List A) → list_test xs xs ≡ true
  list_test_refl [] = refl
  list_test_refl (x ∷ xs) = (&&_iff (x == x) (list_test xs xs)).1 (==_refl x, list_test_refl xs)

instance abbrev pub nat_eq : PartialEq ℕ
nat_eq = record { eq = eqb; same = λ n. (eqb_iff n n).1 refl; sound = λ n m. (eqb_iff n m).0 }

instance abbrev pub list_eq {ℓ} : {A : Type ℓ} ⦃class : PartialEq A⦄ → PartialEq (List A)
list_eq = record { eq = list_test; same = list_test_refl; sound = list_test_sound }
