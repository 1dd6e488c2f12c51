-- ===== src/Prelude/Decimal.antt =====
-- Decimal numerals: what `Display` writes for an unsigned integer, and a reader of them that stops at
-- the first byte that is no digit.
pub mod Parse
use Prim.Native.Nat.{ℕ, zero, suc, ◌+◌, ◌-◌, ◌*◌, ◌/◌, ◌%◌, ◌<◌}
use mathlib.Core.Path.{◌≡◌, refl, ◌∙◌, ap}
use mathlib.Core.Logic.{inl, inr}
use mathlib.Core.Bool.{Bool, true, false, ◌&&◌}
use mathlib.Core.Option.{Option, none, some}
use mathlib.Core.List.{[], ◌∷◌, ◌++◌, append_assoc}
use native.Mathlib.Omega.{arith}
use poly_term.Prelude.Tests.{ltb, leb, eqb, if◌then◌else◌, Bool-cases}
use poly_term.Prelude.Text.{Text}

-- The fuel is the number of digits at most; the number's successor is enough.
unfoldable pub show_digits : ℕ → ℕ → Text
show_digits zero n = []
show_digits (suc fuel) n =
    let rest = show_digits fuel (n / 10) in
    if ltb n 10 then (48 + n) ∷ [] else rest ++ (48 + n % 10) ∷ []

unfoldable pub to_string : ℕ → Text
to_string n = show_digits (suc n) n

unfoldable pub is_digit : ℕ → Bool
is_digit c = leb 48 c && leb c 57

pub read_number : ℕ → Text → ℕ × Text
read_number acc [] = (acc, [])
read_number acc (c ∷ s) =
    let rest = read_number (acc * 10 + (c - 48)) s in if is_digit c then rest else (acc, c ∷ s)

read-digit :
    (acc d : ℕ) (s : Text) → d < 10 → read_number acc ((48 + d) ∷ s) ≡ read_number (acc * 10 + d) s
unfolding read_number is_digit
read-digit acc d s h =
    let digit : is_digit (48 + d) ≡ true = ground arith in
    rw digit (ap (λ k. read_number k s) (omega arith))

read-show_digits :
    (fuel n : ℕ) (s : Text) → n < fuel → read_number 0 (show_digits fuel n ++ s) ≡ read_number n s
unfolding show_digits
read-show_digits zero n s h = absurd (omega arith)
read-show_digits (suc fuel) n s h = elim (Bool-cases (ltb n 10)) [
  | inl e ↦ rw e (read-digit 0 n s (ground arith) ∙ ap (λ k. read_number k s) (omega arith))
  | inr e ↦
      rw (e, append_assoc (show_digits fuel (n / 10)) ((48 + n % 10) ∷ []) s)
        (read-show_digits fuel (n / 10) ((48 + n % 10) ∷ s) (ground arith)
          ∙ read-digit (n / 10) (n % 10) s (omega arith)
          ∙ ap (λ k. read_number k s) (omega arith))
]

-- The numeral of a number, followed by something that is no digit, reads back as the number.
pub read-to_string :
    (n c : ℕ) (s : Text) → is_digit c ≡ false → read_number 0 (to_string n ++ c ∷ s) ≡ (n, c ∷ s)
unfolding to_string read_number
read-to_string n c s h = read-show_digits (suc n) n (c ∷ s) (omega arith) ∙ rw h refl

-- The digits up to the end, with the value of those before them.
digits_value : ℕ → Text → Option ℕ
unfolding is_digit
digits_value acc [] = some acc
digits_value acc (c ∷ s) =
    let rest = digits_value (acc * 10 + (c - 48)) s in if is_digit c then rest else none

some_digits : Text → Option ℕ
unfolding digits_value
some_digits [] = none
some_digits (c ∷ s) = digits_value 0 (c ∷ s)

drop_plus : Text → Text
drop_plus [] = []
drop_plus (c ∷ s) = if eqb c 43 then s else c ∷ s

below : ℕ → Option ℕ → Option ℕ
below bound none = none
below bound (some n) = if ltb n bound then some n else none

-- `str::parse` into an unsigned integer below the bound: a plus sign may stand first, one digit or more
-- must follow, and nothing else.
unfoldable pub parse : ℕ → Text → Option ℕ
unfolding below some_digits drop_plus
parse bound s = below bound (some_digits (drop_plus s))
