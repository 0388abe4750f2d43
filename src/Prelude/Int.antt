-- ===== src/Prelude/Int.antt =====
-- Signed integers over the native numbers, under the library's names, and 32-bit wrap-around.
use Prim.Native.Nat.{ℕ, suc, ◌+◌, ◌-◌, ◌≤◌, ◌<◌, ◌%◌}
use mathlib.Core.Path.{◌≡◌}
use mathlib.Core.Bool.{Bool}
use native.Mathlib.Omega.{arith}
use mercado.Prelude.Tests.{ltb, leb, if◌then◌else◌}

-- `negsuc n` is -(n + 1).
pub data ℤ : Type 0 where
  pos : ℕ → ℤ
  negsuc : ℕ → ℤ

abbrev pub pos_part : ℤ → ℕ
pos_part (pos n) = n
pos_part (negsuc n) = 0

abbrev pub neg_part : ℤ → ℕ
neg_part (pos n) = 0
neg_part (negsuc n) = suc n

-- a - b, as an integer.
abbrev pub sub_ℕ : ℕ → ℕ → ℤ
sub_ℕ a b = if leb b a then pos (a - b) else negsuc (b - a - 1)

infixl 65 ◌+ℤ◌
infix 50 ◌≤ℤ◌
unfoldable pub ◌+ℤ◌ : ℤ → ℤ → ℤ
a +ℤ b = sub_ℕ (pos_part a + pos_part b) (neg_part a + neg_part b)

abbrev pub ◌≤ℤ◌ : ℤ → ℤ → Type 0
a ≤ℤ b = pos_part a + neg_part b ≤ pos_part b + neg_part a

abbrev pub leb_ℤ : ℤ → ℤ → Bool
leb_ℤ a b = leb (pos_part a + neg_part b) (pos_part b + neg_part a)

abbrev pub ltb_ℤ : ℤ → ℤ → Bool
ltb_ℤ a b = ltb (pos_part a + neg_part b) (pos_part b + neg_part a)

-- The residue modulo 2^32 of an integer, and the `i32` with that residue.
abbrev pub i32_bits : ℤ → ℕ
i32_bits (pos n) = n % 4294967296
i32_bits (negsuc n) = 4294967295 - n % 4294967296

abbrev pub i32_of_bits : ℕ → ℤ
i32_of_bits b = sub_ℕ b (if ltb b 2147483648 then 0 else 4294967296)

-- `a + b` on `i32`, which wraps around.
unfoldable pub add_i32 : ℤ → ℤ → ℤ
unfolding ◌+ℤ◌
add_i32 a b = i32_of_bits (i32_bits (a +ℤ b))

-- Below the limit of the type, the sum of two non-negative `i32` is exact.
pub add_i32-pos : (a b : ℕ) → a + b < 2147483648 → add_i32 (pos a) (pos b) ≡ pos (a + b)
unfolding add_i32
add_i32-pos a b h = ground arith
