-- ===== src/Ui/Form.antt =====
-- Forms of crates/polyterm-ui/src: their fields are text that is parsed when the form is submitted, into a value or
-- an error to show (`Result<_, String>`).
use poly_term.Prelude.{◌≡◌, refl, sym, ap, Option, none, some, [], ◌∷◌}
use poly_term.Prelude.Text.{Text, trim}
use poly_term.Prelude.Text.Plain.{trim-Solid}

pub data Checked {ℓ} (A : Type ℓ) : Type ℓ where
  ok : A → Checked A
  error : Text → Checked A

module _ {ℓ} {A B : Type ℓ} where
  infixl 10 ◌>>=◌
  abbrev pub ◌>>=◌ : Checked A → (A → Checked B) → Checked B
  ok a >>= f = f a
  error e >>= f = error e

abbrev pub ok_or {ℓ} : {A : Type ℓ} → Option A → Text → Checked A
ok_or (some a) e = ok a
ok_or none e = error e

blank_is_none : Text → Option Text
blank_is_none [] = none
blank_is_none (c ∷ t) = some (c ∷ t)

-- `non_empty` of sessions.rs and `non_blank` of app.rs
unfoldable pub non_empty : Text → Option Text
unfolding blank_is_none
non_empty s = blank_is_none (trim s)

pub non_empty_nil : non_empty [] ≡ none
unfolding non_empty blank_is_none
non_empty_nil = ap (λ t. blank_is_none t) (trim-Solid [] tt)

ok_value {ℓ} : {A : Type ℓ} → A → Checked A → A
ok_value d (ok a) = a
ok_value d (error e) = d

pub ok_injective {ℓ} : {A : Type ℓ} (a b : A) → ok a ≡ ok b → a ≡ b
unfolding ok_value
ok_injective a b h = ap (λ c. ok_value a c) h

-- An accepted form passed its first check.
pub >>=-ok {ℓ} :
    {A B : Type ℓ} (m : Checked A) (f : A → Checked B) (b : B)
    → m >>= f ≡ ok b
    → (a : A) × (m ≡ ok a) × (f a ≡ ok b)
>>=-ok (ok a) f b h = (a, refl, h)
>>=-ok (error e) f b h = cc

pub ok_or-ok {ℓ} : {A : Type ℓ} (o : Option A) (e : Text) (a : A) → ok_or o e ≡ ok a → some a ≡ o
ok_or-ok (some a') e a h = ap some (sym (ok_injective a' a h))
ok_or-ok none e a h = cc
