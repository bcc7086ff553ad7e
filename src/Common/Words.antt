-- ===== src/Common/Words.antt =====
-- Unsigned words with their wrap-around: `uint32_t` and `uint64_t` addition and subtraction.
use tensor_pool_c.Common.{ℕ, ◌+◌, ◌-◌, ◌*◌, ◌%◌, ◌^◌}

abbrev pub u8 : ℕ → ℕ
u8 n = n % 2 ^ 8

abbrev pub u32 : ℕ → ℕ
u32 n = n % 2 ^ 32

abbrev pub u64 : ℕ → ℕ
u64 n = n % 2 ^ 64

abbrev pub add64 : ℕ → ℕ → ℕ
add64 a b = (a + b) % 2 ^ 64

abbrev pub sub64 : ℕ → ℕ → ℕ
sub64 a b = (a + 2 ^ 64 - b) % 2 ^ 64

abbrev pub mul64 : ℕ → ℕ → ℕ
mul64 a b = a * b % 2 ^ 64

-- TP_NULL_U32 and TP_NULL_U64
abbrev pub null_u32 : ℕ
null_u32 = 2 ^ 32 - 1

abbrev pub null_u64 : ℕ
null_u64 = 2 ^ 64 - 1
