-- ===== src/Ui/Palette/Inverse.antt =====
-- crates/polyterm-ui/src/palette.rs: the colours of the palette can be told apart, and every colour resolves.
use poly_term.Prelude.{
  ℕ, zero, suc, ◌+◌, ◌-◌, ◌*◌, ◌/◌, ◌%◌, ◌≤◌, ◌<◌, ◌≡◌, refl, ◌∙◌, ap, inl, inr, Bool, false,
  Option, none, some, List, [], ◌∷◌, arith, leb, eqb, length, get_elem?, if◌then◌else◌, Bool-cases,
}
use poly_term.Ui.Palette.{Color32, Theme, cube, indexed}

-- The coordinate of a channel value of the cube.
abbrev coordinate : ℕ → ℕ
coordinate v = if eqb v 0 then 0 else (v - 55) / 40

-- The index of a colour of the cube or of the grey ramp: the ramp's values all end in the digit 8,
-- and those of the cube do not.
abbrev pub index_of : Color32 → ℕ
index_of c =
    if eqb (c.r % 10) 8
    then 232 + (c.r - 8) / 10
    else 16 + 36 * coordinate c.r + 6 * coordinate c.g + coordinate c.b

abbrev pub found : Option Color32 → Option ℕ
found none = none
found (some c) = some (index_of c)

cube-value : (n : ℕ) → n < 6 → (cube n % 10 < 8) × (coordinate (cube n) ≡ n) × (cube n < 256)
unfolding cube
cube-value n h = (ground arith, ground arith, ground arith)

index_of-cube :
    (r g b : ℕ)
    → r < 6
    → g < 6
    → b < 6
    → index_of (record { r = cube r; g = cube g; b = cube b }) ≡ 16 + 36 * r + 6 * g + b
index_of-cube r g b hr hg hb =
    let (low_digit, is_r, _) = cube-value r hr in
    let (_, is_g, _) = cube-value g hg in
    let (_, is_b, _) = cube-value b hb in
    let in_cube : eqb (cube r % 10) 8 ≡ false = ground arith in rw (in_cube, is_r, is_g, is_b) refl

index_of-grey :
    (k : ℕ)
    → k < 24
    → index_of (record {
      r = (8 + k * 10 % 256) % 256;
      g = (8 + k * 10 % 256) % 256;
      b = (8 + k * 10 % 256) % 256;
    })
      ≡ 232 + k
index_of-grey k h = ground arith

-- Each index of the cube and of the grey ramp can be read off its colour, so no two of them look the
-- same; no channel overflows on the way.
pub index_of-indexed :
    (theme : Theme) (i : ℕ) (bold : Bool) → 16 ≤ i → i < 256 → found (indexed theme i bold) ≡ some i
unfolding indexed
index_of-indexed theme i bold low high =
    let past_normal : leb i 7 ≡ false = ground arith in
    let past_bright : leb i 15 ≡ false = ground arith in
    elim (Bool-cases (leb i 231)) [
      | inl e ↦
          rw (past_normal, past_bright, e)
            (ap some (
              index_of-cube ((i - 16) / 36) ((i - 16) % 36 / 6) ((i - 16) % 6) (ground arith)
                (omega arith) (omega arith)
              ∙ ground arith))
      | inr e ↦
          rw (past_normal, past_bright, e)
            (ap some (index_of-grey (i - 232) (ground arith) ∙ ground arith))
    ]

get-some : (xs : List Color32) (i : ℕ) → i < length xs → (c : Color32) × (get_elem? xs i ≡ some c)
get-some [] i h = absurd (omega arith)
get-some (x ∷ xs) zero h = (x, refl)
get-some (x ∷ xs) (suc i) h = get-some xs i (omega arith)

-- Every palette index resolves to a colour, bold or not: the sixteen ANSI colours are never indexed
-- past their end.
pub indexed-total :
    (theme : Theme) (i : ℕ) (bold : Bool)
    → length theme.ansi ≡ 16
    → i < 256
    → (c : Color32) × (indexed theme i bold ≡ some c)
unfolding indexed
indexed-total theme i bold full h = elim (Bool-cases (leb i 7)) [
  | inl e ↦ rw e (get-some theme.ansi (if bold then (i + 8) % 256 else i) (ground (arith, full)))
  | inr e ↦ elim (Bool-cases (leb i 15)) [
    | inl e' ↦ rw (e, e') (get-some theme.ansi i (ground (arith, full)))
    | inr e' ↦ elim (Bool-cases (leb i 231)) [
      | inl e'' ↦ rw (e, e', e'') (_, refl)
      | inr e'' ↦ rw (e, e', e'') (_, refl)
    ]
  ]
]
