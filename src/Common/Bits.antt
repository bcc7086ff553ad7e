-- ===== src/Common/Bits.antt =====
-- `|` and `&` on the fields of a word, as sums and remainders.
use Prim.Native.Nat.{bit_and, bit_or, min, max, digits, bit_and-bitwise, bit_or-bitwise}
use native.Mathlib.Nat.{le_refl, pow-suc, one-le-pow}
use tensor_pool_c.Common.{
  ℕ, zero, suc, ◌+◌, ◌-◌, ◌*◌, ◌/◌, ◌%◌, ◌^◌, ◌<◌, ◌≤◌, ◌≡◌, refl, ap, arith,
}

module _ (z : ℕ → ℕ) (f : ℕ → ℕ → ℕ) where
  -- Enough fuel is as good as any other that is enough.
  digits_enough : (n m a b : ℕ) → a ≤ n → a ≤ m → digits z f n a b ≡ digits z f m a b
  digits_enough zero zero a b p q = refl
  digits_enough zero (suc m) zero b p q = refl
  digits_enough zero (suc m) (suc a) b p q = absurd (omega arith)
  digits_enough (suc n) zero zero b p q = refl
  digits_enough (suc n) zero (suc a) b p q = absurd (omega arith)
  digits_enough (suc n) (suc m) zero b p q = refl
  digits_enough (suc n) (suc m) (suc a) b p q =
      rw (digits_enough n m (suc a / 2) (b / 2) (omega arith) (omega arith))

-- The lowest digit of `|` and of `&`.
bit_or_lowest : (a b : ℕ) → bit_or a b ≡ bit_or (a / 2) (b / 2) * 2 + max (a % 2) (b % 2)
bit_or_lowest zero b = simp bit_or-bitwise (omega arith)
bit_or_lowest (suc a) b = omega (
  arith,
  bit_or-bitwise (suc a) b,
  bit_or-bitwise (suc a / 2) (b / 2),
  digits_enough (λ y. y) max a (suc a / 2) (suc a / 2) (b / 2) (omega arith) (le_refl _),
)

bit_and_lowest : (a b : ℕ) → bit_and a b ≡ bit_and (a / 2) (b / 2) * 2 + min (a % 2) (b % 2)
bit_and_lowest zero b = simp bit_and-bitwise (omega arith)
bit_and_lowest (suc a) b = omega (
  arith,
  bit_and-bitwise (suc a) b,
  bit_and-bitwise (suc a / 2) (b / 2),
  digits_enough (λ y. 0) min a (suc a / 2) (suc a / 2) (b / 2) (omega arith) (le_refl _),
)

bit_or-zero_within : (n a : ℕ) → a ≤ n → bit_or a 0 ≡ a
bit_or-zero_within n zero h = refl
bit_or-zero_within zero (suc a) h = absurd (omega arith)
bit_or-zero_within (suc n) (suc a) h =
    omega (arith, bit_or_lowest (suc a) 0, bit_or-zero_within n (suc a / 2) (omega arith))

bit_and-zero_within : (n a : ℕ) → a ≤ n → bit_and a 0 ≡ 0
bit_and-zero_within n zero h = refl
bit_and-zero_within zero (suc a) h = absurd (omega arith)
bit_and-zero_within (suc n) (suc a) h =
    omega (arith, bit_and_lowest (suc a) 0, bit_and-zero_within n (suc a / 2) (omega arith))

min_le : (x y : ℕ) → min x y ≤ y
min_le zero y = omega arith
min_le (suc x) zero = omega arith
min_le (suc x) (suc y) = omega (arith, min_le x y)

-- A mask leaves no more than itself.
pub bit_and_le : (n a b : ℕ) → b ≤ n → bit_and a b ≤ b
bit_and_le n a zero h = omega (arith, bit_and-zero_within a a (le_refl a))
bit_and_le zero a (suc b) h = absurd (omega arith)
bit_and_le (suc n) a (suc b) h = omega (
  arith,
  bit_and_lowest a (suc b),
  min_le (a % 2) (suc b % 2),
  bit_and_le n (a / 2) (suc b / 2) (omega arith),
)

shifted_twice : (t k : ℕ) → t * 2 ^ suc k ≡ 2 * (t * 2 ^ k)
shifted_twice t k = omega (arith, ap (λ (p : ℕ). t * p) (pow-suc 2 k))

-- A field above the lowest `k` digits leaves those digits alone.
pub bit_or_above :
    (k t r q : ℕ) → q < 2 ^ k → bit_or (t * 2 ^ k + q) (r * 2 ^ k) ≡ bit_or t r * 2 ^ k + q
bit_or_above zero t r q fits = ground arith
bit_or_above (suc k) t r q fits = ground (
  arith,
  bit_or_lowest (t * 2 ^ suc k + q) (r * 2 ^ suc k),
  shifted_twice t k,
  shifted_twice r k,
  shifted_twice (bit_or t r) k,
  pow-suc 2 k,
  bit_or_above k t r (q / 2) (omega (arith, pow-suc 2 k)),
)

-- A field of `k` digits under a shifted word.
pub bit_or_below : (k t r : ℕ) → r < 2 ^ k → bit_or (t * 2 ^ k) r ≡ t * 2 ^ k + r
bit_or_below zero t r fits = ground (arith, bit_or-zero_within t t (le_refl t))
bit_or_below (suc k) t r fits = ground (
  arith,
  bit_or_lowest (t * 2 ^ suc k) r,
  shifted_twice t k,
  pow-suc 2 k,
  bit_or_below k t (r / 2) (omega (arith, pow-suc 2 k)),
)

-- A mask of `k` ones.
pub bit_and_ones : (k t r : ℕ) → r < 2 ^ k → bit_and (t * 2 ^ k + r) (2 ^ k - 1) ≡ r
bit_and_ones zero t r fits =
    omega (arith, bit_and-zero_within (t * 2 ^ 0 + r) (t * 2 ^ 0 + r) (le_refl _))
bit_and_ones (suc k) t r fits = ground (
  arith,
  bit_and_lowest (t * 2 ^ suc k + r) (2 ^ suc k - 1),
  shifted_twice t k,
  pow-suc 2 k,
  one-le-pow k 2 (omega arith),
  bit_and_ones k t (r / 2) (omega (arith, pow-suc 2 k)),
)
