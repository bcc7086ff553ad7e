-- ===== src/CommandQueue/Slots.antt =====
-- The slots of a ring: its mask takes the remainder, and no two of `c` positions in a row share one.
use Prim.Native.Nat.{bit_and}
use native.Mathlib.Nat.{
  div-add-mod', mod-lt, mul-le-mul, add-mul, le_refl, one-le-pow, pow-le-pow_right,
}
use native.Mathlib.Decide.{dec_lt}
use tensor_pool_c.Common.{ℕ, ◌+◌, ◌-◌, ◌/◌, ◌%◌, ◌^◌, ◌<◌, ◌≤◌, ◌≡◌, ◌≢◌, sym, ap, ◌∙◌, arith}
use tensor_pool_c.Common.Bits.{bit_and_ones}

-- The slot of a position, where the capacity is 2 ^ k.
pub bit_and-mask : (k pos : ℕ) → bit_and pos (2 ^ k - 1) ≡ pos % 2 ^ k
bit_and-mask k pos =
    ap (λ (p : ℕ). bit_and p (2 ^ k - 1)) (sym (div-add-mod' pos (2 ^ k)))
    ∙ bit_and_ones k (pos / 2 ^ k) (pos % 2 ^ k) (mod-lt pos (one-le-pow k 2 (omega arith)))

-- Two positions with the same remainder are a multiple of `c` apart.
pub apart : (c i j : ℕ) → i < j → j < i + c → i % c ≢ j % c
apart c i j lt near same = elim (dec_lt (i / c) (j / c)) [
  | yes up ↦ omega (
    arith,
    div-add-mod' i c,
    div-add-mod' j c,
    add-mul (i / c) 1 c,
    mul-le-mul {n₁ = i / c + 1} {m₁ = c} {n₂ = j / c} {m₂ = c} (omega arith) (le_refl c),
  )
  | no down ↦ omega (
    arith,
    div-add-mod' i c,
    div-add-mod' j c,
    mul-le-mul {n₁ = j / c} {m₁ = c} {n₂ = i / c} {m₂ = c} (omega arith) (le_refl c),
  )
]

pub pow_two_slots : (k : ℕ) → 1 ≤ k → 2 ≤ 2 ^ k
pow_two_slots k le = pow-le-pow_right {n = 2} (omega arith) {i = 1} {j = k} le
