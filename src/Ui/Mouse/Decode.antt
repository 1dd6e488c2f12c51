-- ===== src/Ui/Mouse/Decode.antt =====
-- crates/polyterm-ui/src/pane.rs: a mouse report as the application at the far end reads it.
use poly_term.Prelude.{
  get_or, ℕ, zero, suc, ◌+◌, ◌/◌, ◌%◌, ◌^◌, ◌<◌, ◌≡◌, refl, Bool, true, false, ◌||◌, Option, none,
  some, List, [], ◌∷◌, ◌++◌, arith, ltb, if◌then◌else◌, All, take, drop,
}
use poly_term.Prelude.Decimal.{to_string, is_digit, read_number, read-to_string}
use poly_term.Ui.Mouse.{MouseProtocol, normal, sgr, bit_or, button_code, encode_sgr, encode_mouse}

pow-pos : (power : ℕ) → 0 < 2 ^ power
pow-pos zero = omega arith
pow-pos (suc power) = omega (arith, pow-pos power)

bit_or-bound : (bits power a b : ℕ) → a < 2 ^ power → b < 2 ^ power → bit_or bits a b < 2 ^ power
unfolding bit_or
bit_or-bound zero power a b ha hb = pow-pos power
bit_or-bound (suc bits) zero a b ha hb =
    let ih = bit_or-bound bits 0 (a / 2) (b / 2) (omega arith) (omega arith) in omega arith
bit_or-bound (suc bits) (suc power) a b ha hb =
    let ih = bit_or-bound bits power (a / 2) (b / 2) (omega arith) (omega arith) in omega arith

button_code-bound :
    (base : ℕ) (motion : Bool) (mods : ℕ)
    → base < 128
    → mods < 128
    → button_code base motion mods < 128
unfolding button_code
button_code-bound base true mods hb hm =
    bit_or-bound 8 7 _ 32 (bit_or-bound 8 7 base mods hb hm) (omega arith)
button_code-bound base false mods hb hm = bit_or-bound 8 7 base mods hb hm

-- An SGR report: the three bytes that introduce it, the button code, the column and the row counted
-- from one, and the byte that ends it.
pub read_report : List ℕ → List ℕ × ℕ × ℕ × ℕ × List ℕ
read_report s =
    let (code, s1) = read_number 0 (drop 3 s) in
    let (x, s2) = read_number 0 (drop 1 s1) in
    let (y, s3) = read_number 0 (drop 1 s2) in (take 3 s, code, x, y, s3)

abbrev pub read_back : Option (List ℕ) → Option (List ℕ × ℕ × ℕ × ℕ × List ℕ)
read_back none = none
read_back (some b) = some (read_report b)

terminator : (release : Bool) → is_digit (if release then 109 else 77) ≡ false
unfolding is_digit
terminator true = refl
terminator false = refl

-- An SGR report reads back as the button code, the cell counted from one, and whether it was a release,
-- for every cell.
pub read_back-encode_mouse :
    (p : MouseProtocol) (base : ℕ) (motion release : Bool) (mods : ℕ) (row col : ℕ)
    → read_back
        (encode_mouse (record { protocol = p; encoding = sgr }) base motion release mods (row, col))
      ≡ some (
        27 ∷ 91 ∷ 60 ∷ [],
        button_code base motion mods,
        col + 1,
        row + 1,
        (if release then 109 else 77) ∷ [],
      )
unfolding encode_mouse read_report encode_sgr is_digit
read_back-encode_mouse p base motion release mods row col =
    let last = (if release then 109 else 77) ∷ [] in
    let rows = to_string (row + 1) ++ last in
    let cols = to_string (col + 1) ++ 59 ∷ rows in
    rw (read-to_string (button_code base motion mods) 59 cols refl) (
      rw (read-to_string (col + 1) 59 rows refl)
        (rw (read-to_string (row + 1) (if release then 109 else 77) [] (terminator release)) refl))

-- A legacy report of a cell in the first 223 rows and columns is sent, as bytes with no wrap-around: the button
-- code, that of a release being 3, and the column and the row counted from one are each 32 below one of its bytes.
pub encode_mouse-normal :
    (p : MouseProtocol) (base : ℕ) (motion release : Bool) (mods row col : ℕ)
    → base < 128
    → mods < 128
    → row < 223
    → col < 223
    → (b : List ℕ) × (encode_mouse
          (record { protocol = p; encoding = normal })
          base
          motion
          release
          mods
          (row, col)
        ≡ some b)
      × All (λ c. c < 256) b
      × (get_or b 3 0 ≡ 32 + button_code (if release then 3 else base) motion mods)
      × (get_or b 4 0 ≡ 32 + (col + 1))
      × (get_or b 5 0 ≡ 32 + (row + 1))
unfolding encode_mouse
encode_mouse-normal p base motion release mods row col hb hm hr hc =
    let code_bound =
      button_code-bound (if release then 3 else base) motion mods (named release) hm in
    let inside : (ltb 223 (col + 1) || ltb 223 (row + 1)) ≡ false = ground arith in
    let first : (32 + button_code (if release then 3 else base) motion mods) % 256
        ≡ 32 + button_code (if release then 3 else base) motion mods =
      omega (arith, code_bound) in
    let second : (32 + (col + 1) % 256) % 256 ≡ 32 + (col + 1) = omega arith in
    let third : (32 + (row + 1) % 256) % 256 ≡ 32 + (row + 1) = omega arith in
    (
      27
          ∷ 91
          ∷ 77
          ∷ (32 + button_code (if release then 3 else base) motion mods)
          ∷ (32 + (col + 1))
          ∷ (32 + (row + 1))
          ∷ [],
      rw (inside, first, second, third) refl,
      (
        omega arith,
        (omega arith, (omega arith, (omega (arith, code_bound), (omega arith, (omega arith, tt))))),
      ),
      refl,
      refl,
      refl,
    )
  where
    named : (r : Bool) → (if r then 3 else base) < 128
    named true = omega arith
    named false = hb
