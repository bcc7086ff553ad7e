-- ===== src/Frames/Bytes.antt =====
-- The bytes of the payload slots (src/client/tp_producer.c and src/client/tp_consumer.c): what is
-- stored is what is loaded, and where slots do not meet.
use native.Mathlib.Nat.{mul-le-mul, le_refl, add-mul}
use native.Mathlib.Decide.{dec_lt}
use tensor_pool_c.Common.{
  ℕ, zero, suc, ◌+◌, ◌-◌, ◌*◌, ◌^◌, ◌<◌, ◌≤◌, ◌≡◌, ◌≢◌, ◌⊎◌, inl, inr, refl, ap, ◌∙◌, some, List,
  [], ◌∷◌, arith, ◌==◌, length, All, ==_refl, subst, some_cancel, Bool-cases,
}
use tensor_pool_c.Common.Bits.{bit_and_le}
use tensor_pool_c.Frames.Memory.{payload_start, store_bytes, load_bytes}
use tensor_pool_c.Frames.Publish.{Pool, Ring, header_index, find_pool}

-- A load depends on its own bytes only.
pub load_bytes_same :
    (start len : ℕ) (f g : ℕ → ℕ)
    → ((at : ℕ) → start ≤ at → at < start + len → f at ≡ g at)
    → load_bytes start len f ≡ load_bytes start len g
unfolding load_bytes
load_bytes_same start zero f g same = refl
load_bytes_same start (suc len) f g same =
    ap (λ x. x ∷ load_bytes (suc start) len f) (same start (omega arith) (omega arith))
    ∙ ap (λ xs. g start ∷ xs)
        (load_bytes_same (suc start) len f g
          (λ at low high. same at (omega (arith, low)) (omega (arith, high))))

pub store_bytes_outside :
    (start : ℕ) (xs : List ℕ) (bytes : ℕ → ℕ) (at : ℕ)
    → (at < start) ⊎ (start + length xs ≤ at)
    → store_bytes start xs bytes at ≡ bytes at
unfolding store_bytes
store_bytes_outside start [] bytes at out = refl
store_bytes_outside start (x ∷ xs) bytes at out =
    ground (arith, out, store_bytes_outside (suc start) xs bytes at)

pub load_bytes-store_bytes :
    (start : ℕ) (xs : List ℕ) (bytes : ℕ → ℕ)
    → load_bytes start (length xs) (store_bytes start xs bytes) ≡ xs
unfolding load_bytes store_bytes
load_bytes-store_bytes start [] bytes = refl
load_bytes-store_bytes start (x ∷ xs) bytes =
    ap (λ y. y ∷ load_bytes (suc start) (length xs) (store_bytes start (x ∷ xs) bytes)) first
    ∙ ap (λ ys. x ∷ ys)
        (load_bytes_same (suc start) (length xs) (store_bytes start (x ∷ xs) bytes)
            (store_bytes (suc start) xs bytes) (λ at low high. ground (arith, low))
          ∙ load_bytes-store_bytes (suc start) xs bytes)
  where
    first : store_bytes start (x ∷ xs) bytes start ≡ x
    first = unfold store_bytes in rw (==_refl start) refl

-- No payload slot of the pool starts beyond 32 bits.
abbrev pub IsAddressable : Ring → Type 0
IsAddressable ring = All (λ p. ring.header_nslots * p.stride_bytes ≤ 2 ^ 32) ring.pools

pub find_pool-All :
    (P : Pool → Type 0) (pools : List Pool) (id : ℕ) (pool : Pool)
    → All P pools
    → find_pool pools id ≡ some pool
    → P pool
find_pool-All P [] id pool all e = cc
find_pool-All P (p ∷ pools) id pool all e = elim (Bool-cases (p.pool_id == id)) [
  | inl here ↦ let same : p ≡ pool = some_cancel (ground (arith, here, e)) in subst P same all.0
  | inr other ↦ find_pool-All P pools id pool all.1 (ground (arith, other, e))
]

next_multiple : (s i j : ℕ) → i < j → i * s + s ≤ j * s
next_multiple s i j lt = omega (
  arith,
  mul-le-mul {n₁ = i + 1} {m₁ = s} {n₂ = j} {m₂ = s} (omega arith) (le_refl s),
  add-mul i 1 s,
)

-- The product of a slot within the ring does not wrap.
pub payload_start_fits : (i n s : ℕ) → i < n → n * s ≤ 2 ^ 32 → payload_start i s ≡ i * s
payload_start_fits i n zero lt fits = ground arith
payload_start_fits i n (suc s) lt fits = omega (arith, next_multiple (suc s) i n lt)

-- What lies in one slot lies outside of any other.
pub slots_apart :
    (s i j at len : ℕ)
    → i ≢ j
    → i * s ≤ at
    → at < i * s + s
    → len ≤ s
    → (at < j * s) ⊎ (j * s + len ≤ at)
slots_apart s i j at len other low high fits = elim (dec_lt i j) [
  | yes up ↦ inl (omega (arith, next_multiple s i j up))
  | no ge ↦ inr (omega (arith, next_multiple s j i (ground (arith, ge, other))))
]

pub header_index_bound : (n seq : ℕ) → 1 ≤ n → header_index n seq < n
header_index_bound n seq some_slot = omega (arith, bit_and_le (n - 1) seq (n - 1) (le_refl _))
