-- ===== src/Common/Int.antt =====
-- Signed integers over the native numbers, and their two's complement words of 64 bits.
use tensor_pool_c.Common.{ℕ, suc, ◌+◌, ◌-◌, ◌%◌, ◌^◌, ◌≤◌, ◌<◌, Bool}
use tensor_pool_c.Common.{leb}

-- `negsuc n` is -(n + 1).
pub data ℤ : Type 0 where
  pos : ℕ → ℤ
  negsuc : ℕ → ℤ

-- The sum of an unsigned and a signed 64-bit value, as a 64-bit word. (A signed overflow, which C
-- leaves undefined, wraps here.)
abbrev pub add_signed : ℕ → ℤ → ℕ
add_signed a (pos n) = (a + n) % 2 ^ 64
add_signed a (negsuc n) = (a + 2 ^ 64 - suc n) % 2 ^ 64

-- The test `< 0` of such a word.
abbrev pub is_negative : ℕ → Bool
is_negative w = leb (2 ^ 63) w

-- `k` is at least `a + z`, as integers.
abbrev pub Reaches : ℕ → ℕ → ℤ → Type 0
Reaches k a (pos n) = a + n ≤ k
Reaches k a (negsuc n) = a ≤ k + suc n

-- `a + z` is not negative.
abbrev pub NonNegative : ℕ → ℤ → Type 0
NonNegative a (pos n) = 0 ≤ a
NonNegative a (negsuc n) = suc n ≤ a

-- The values of int32_t.
abbrev pub Fits32 : ℤ → Type 0
Fits32 (pos n) = n < 2 ^ 31
Fits32 (negsuc n) = n < 2 ^ 31
