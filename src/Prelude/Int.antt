-- ===== src/Prelude/Int.antt =====
-- Integers, and `as i32` with its wrap-around.
use Prim.Native.Nat.{ℕ, zero, suc, ◌+◌, ◌-◌, ◌%◌}
use poly_term.Prelude.Tests.{ltb, leb, if◌then◌else◌}

pub data ℤ : Type 0 where
  pos : ℕ → ℤ
  negsuc : ℕ → ℤ

infixl 6 ◌⊖◌
-- m - n
unfoldable pub ◌⊖◌ : ℕ → ℕ → ℤ
m ⊖ n = if leb n m then pos (m - n) else negsuc (n - m - 1)

infixl 6 ◌+ℤ◌
unfoldable pub ◌+ℤ◌ : ℤ → ℤ → ℤ
unfolding ◌⊖◌
pos m +ℤ pos n = pos (m + n)
pos m +ℤ negsuc n = m ⊖ (n + 1)
negsuc m +ℤ pos n = n ⊖ (m + 1)
negsuc m +ℤ negsuc n = negsuc (m + n + 1)

unfoldable pub neg : ℤ → ℤ
neg (pos zero) = pos zero
neg (pos (suc n)) = negsuc n
neg (negsuc n) = pos (n + 1)

unfoldable pub as_i32 : ℕ → ℤ
as_i32 n = let m = n % 4294967296 in if ltb m 2147483648 then pos m else negsuc (4294967295 - m)
