-- ===== src/Prelude/Decimal/Parse.antt =====
-- A numeral parses as its number.
use Prim.Native.Nat.{ℕ, zero, suc, ◌+◌, ◌*◌, ◌/◌, ◌%◌, ◌<◌}
use mathlib.Core.Path.{◌≡◌, refl, ◌∙◌, ap, sym}
use mathlib.Core.Logic.{inl, inr}
use mathlib.Core.Bool.{true, false}
use mathlib.Core.Option.{Option, none, some}
use mathlib.Core.List.{[], ◌∷◌, ◌++◌, append_assoc, append-nil}
use native.Mathlib.Omega.{arith}
use poly_term.Prelude.Tests.{ltb, eqb, Bool-cases}
use poly_term.Prelude.Lists.{All-append}
use poly_term.Prelude.Text.{Text}
use poly_term.Prelude.Text.Plain.{Solid, digit_Solid}
use poly_term.Prelude.Decimal.{
  show_digits, to_string, is_digit, digits_value, some_digits, drop_plus, below, parse,
}

-- The first character is a digit.
abbrev Starts : Text → Type 0
Starts [] = ⊥
Starts (c ∷ s) = (is_digit c ≡ true) × (eqb c 43 ≡ false)

Starts-append : (s t : Text) → Starts s → Starts (s ++ t)
Starts-append [] t h = absurd h
Starts-append (c ∷ s) t h = h

show_digits-Starts : (fuel n : ℕ) → n < fuel → Starts (show_digits fuel n)
unfolding show_digits is_digit
show_digits-Starts zero n h = absurd (omega arith)
show_digits-Starts (suc fuel) n h = elim (Bool-cases (ltb n 10)) [
  | inl e ↦ rw e (ground arith, ground arith)
  | inr e ↦ rw e (
      Starts-append (show_digits fuel (n / 10)) _ (show_digits-Starts fuel (n / 10) (ground arith)))
]

value-digit :
    (acc d : ℕ) (s : Text)
    → d < 10
    → digits_value acc ((48 + d) ∷ s) ≡ digits_value (acc * 10 + d) s
unfolding digits_value is_digit
value-digit acc d s h =
    let digit : is_digit (48 + d) ≡ true = ground arith in
    rw digit (ap (λ k. digits_value k s) (omega arith))

value-show_digits :
    (fuel n : ℕ) (s : Text) → n < fuel → digits_value 0 (show_digits fuel n ++ s) ≡ digits_value n s
unfolding show_digits
value-show_digits zero n s h = absurd (omega arith)
value-show_digits (suc fuel) n s h = elim (Bool-cases (ltb n 10)) [
  | inl e ↦ rw e (value-digit 0 n s (ground arith) ∙ ap (λ k. digits_value k s) (omega arith))
  | inr e ↦
      rw (e, append_assoc (show_digits fuel (n / 10)) ((48 + n % 10) ∷ []) s)
        (value-show_digits fuel (n / 10) ((48 + n % 10) ∷ s) (ground arith)
          ∙ value-digit (n / 10) (n % 10) s (omega arith)
          ∙ ap (λ k. digits_value k s) (omega arith))
]

value-to_string : (n : ℕ) → digits_value 0 (to_string n) ≡ some n
unfolding to_string digits_value
value-to_string n =
    ap (λ t. digits_value 0 t) (sym (append-nil (show_digits (suc n) n)))
    ∙ value-show_digits (suc n) n [] (omega arith)

parse_started : (bound : ℕ) (s : Text) → Starts s → parse bound s ≡ below bound (digits_value 0 s)
unfolding parse some_digits drop_plus
parse_started bound [] h = absurd h
parse_started bound (c ∷ s) h = rw h.1 refl

pub parse-to_string : (bound n : ℕ) → n < bound → parse bound (to_string n) ≡ some n
unfolding below to_string
parse-to_string bound n h =
    parse_started bound (to_string n) (show_digits-Starts (suc n) n (omega arith))
    ∙ ap (below bound) (value-to_string n)
    ∙ ground arith

show_digits-Solid : (fuel n : ℕ) → Solid (show_digits fuel n)
unfolding show_digits
show_digits-Solid zero n = tt
show_digits-Solid (suc fuel) n = elim (Bool-cases (ltb n 10)) [
  | inl e ↦ rw e (digit_Solid n (ground arith), tt)
  | inr e ↦ rw e (
      All-append _ (show_digits fuel (n / 10)) _ (show_digits-Solid fuel (n / 10))
        (digit_Solid (n % 10) (omega arith), tt))
]

pub to_string-Solid : (n : ℕ) → Solid (to_string n)
unfolding to_string
to_string-Solid n = show_digits-Solid (suc n) n

below_lt : (bound n : ℕ) (o : Option ℕ) → below bound o ≡ some n → n < bound
unfolding below
below_lt bound n none h = cc
below_lt bound n (some m) h = ground arith

pub parse_lt : (bound n : ℕ) (s : Text) → parse bound s ≡ some n → n < bound
unfolding parse
parse_lt bound n s h = below_lt bound n (some_digits (drop_plus s)) h
