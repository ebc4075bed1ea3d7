-- ===== src/Prelude/Int.antt =====
-- Integers over the native numbers, and Go's int64: an integer reduced into [-2^63, 2^63).
use Prim.Native.Nat.{ℕ, zero, suc, ◌+◌, ◌-◌, ◌%◌, ◌≤◌, ◌<◌}
use mathlib.Core.Path.{◌≡◌}
use mathlib.Core.Bool.{Bool, true, false}
use native.Mathlib.Omega.{arith}
use cache.Prelude.Tests.{ltb, leb, if◌then◌else◌}

-- `negsuc n` is -(n + 1).
pub data ℤ : Type 0 where
  pos : ℕ → ℤ
  negsuc : ℕ → ℤ

abbrev pub pos_part : ℤ → ℕ
pos_part (pos n) = n
pos_part (negsuc n) = 0

abbrev pub neg_part : ℤ → ℕ
neg_part (pos n) = 0
neg_part (negsuc n) = suc n

-- a - b, as an integer.
abbrev pub sub_ℕ : ℕ → ℕ → ℤ
sub_ℕ a b = if leb b a then pos (a - b) else negsuc (b - a - 1)

infixl 65 ◌+ℤ◌
unfoldable pub ◌+ℤ◌ : ℤ → ℤ → ℤ
a +ℤ b = sub_ℕ (pos_part a + pos_part b) (neg_part a + neg_part b)

abbrev pub neg_ℤ : ℤ → ℤ
neg_ℤ a = sub_ℕ (neg_part a) (pos_part a)

-- a < b and a ≤ b.
abbrev pub ltb_ℤ : ℤ → ℤ → Bool
ltb_ℤ a b = ltb (pos_part a + neg_part b) (pos_part b + neg_part a)

abbrev pub leb_ℤ : ℤ → ℤ → Bool
leb_ℤ a b = leb (pos_part a + neg_part b) (pos_part b + neg_part a)

-- n > 0, the guard on durations and limits.
abbrev pub is_positive : ℤ → Bool
is_positive (pos zero) = false
is_positive (pos (suc n)) = true
is_positive (negsuc n) = false

abbrev pub two63 : ℕ
two63 = 9223372036854775808

abbrev pub two64 : ℕ
two64 = 18446744073709551616

abbrev pub IsInt64 : ℤ → Type 0
IsInt64 a = (pos_part a < two63) × (neg_part a ≤ two63)

-- The int64 whose two's complement bits are `n`, for n < 2^64.
abbrev pub signed64 : ℕ → ℤ
signed64 n = if ltb n two63 then pos n else negsuc (two64 - n - 1)

-- The bits of an integer modulo 2^64.
abbrev pub bits64 : ℤ → ℕ
bits64 a = (pos_part a % two64 + (two64 - neg_part a % two64)) % two64

-- Overflow of int64 arithmetic wraps round.
unfoldable pub wrap64 : ℤ → ℤ
wrap64 a = signed64 (bits64 a)

pub wrap64_of_IsInt64 : (a : ℤ) → IsInt64 a → wrap64 a ≡ a
unfolding wrap64
wrap64_of_IsInt64 (pos n) h = ground arith
wrap64_of_IsInt64 (negsuc n) h = ground arith

pub wrap64-IsInt64 : (a : ℤ) → IsInt64 (wrap64 a)
unfolding wrap64
wrap64-IsInt64 a = ground arith

unfoldable pub add64 : ℤ → ℤ → ℤ
unfolding wrap64 ◌+ℤ◌
add64 a b = wrap64 (a +ℤ b)

unfoldable pub neg64 : ℤ → ℤ
unfolding wrap64
neg64 a = wrap64 (neg_ℤ a)

-- Adding and then subtracting the same amount restores an int64, also across an overflow.
pub add64-neg64 : (a b : ℤ) → IsInt64 a → IsInt64 b → add64 (add64 a b) (neg64 b) ≡ a
unfolding add64 neg64
add64-neg64 a b h k = ground arith
