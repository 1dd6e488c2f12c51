-- ===== src/Prelude/Text/Plain.antt =====
-- Text that `trim` leaves alone.
use Prim.Native.Nat.{ℕ, ◌+◌, ◌<◌}
use mathlib.Core.Path.{◌≡◌, refl, ◌∙◌, ap, sym, subst}
use mathlib.Core.Bool.{false}
use mathlib.Core.List.{[], ◌∷◌, reverse, reverse-reverse, reverse-cons}
use native.Mathlib.Omega.{arith}
use poly_term.Prelude.Lists.{All, All-append}
use poly_term.Prelude.Text.{Text, is_whitespace, trim_start, trim_end, trim}

-- No character is white space.
abbrev pub Solid : Text → Type 0
Solid = All (λ c. is_whitespace c ≡ false)

trim_start-Solid : (s : Text) → Solid s → trim_start s ≡ s
unfolding trim_start
trim_start-Solid [] h = refl
trim_start-Solid (c ∷ s) h = rw h.0 refl

Solid-reverse : (s : Text) → Solid s → Solid (reverse s)
Solid-reverse [] h = tt
Solid-reverse (c ∷ s) h =
    subst Solid (sym (reverse-cons c s))
      (All-append _ (reverse s) (c ∷ []) (Solid-reverse s h.1) (h.0, tt))

pub trim-Solid : (s : Text) → Solid s → trim s ≡ s
unfolding trim trim_end
trim-Solid s h =
    ap (λ t. trim_end t) (trim_start-Solid s h)
    ∙ ap reverse (trim_start-Solid (reverse s) (Solid-reverse s h))
    ∙ reverse-reverse s

-- A decimal digit is no white space.
pub digit_Solid : (d : ℕ) → d < 10 → is_whitespace (48 + d) ≡ false
unfolding is_whitespace
digit_Solid d h = ground arith
