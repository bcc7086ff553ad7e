-- ===== src/Trace/Words.antt =====
-- The words of a generator: a time, no node, a sequence number. A round goes from such a word to a
-- greater one.
use Prim.Native.Nat.{bit_and}
use native.Mathlib.Nat.{
  le_refl, pow-suc, mul_assoc, add-mul, pow-le-pow_right, mul-le-mul, mul-add-div_right,
  div-eq_of_lt, one-le-pow,
}
use tensor_pool_c.Common.{
  ℕ, zero, suc, ◌+◌, ◌-◌, ◌*◌, ◌/◌, ◌^◌, ◌<◌, ◌≤◌, ◌≡◌, ◌⊎◌, inl, inr, sym, ap, ◌∙◌, some, arith,
}
use tensor_pool_c.Common.Words.{sub64}
use tensor_pool_c.Common.Bits.{bit_and_ones}
use tensor_pool_c.Trace.Generator.{Generator, proposal}

-- A generator for node `node` with fields of `n` and `s` bits.
pub record IsGenerator (n s node : ℕ) (g : Generator) : Type 0 where
  pub widths : n + s ≤ 22
  pub bits : g.node_id_and_sequence_bits ≡ n + s
  pub sequence_width : g.sequence_bits ≡ s
  pub node_mask : g.max_node_id ≡ 2 ^ n - 1
  pub sequence_mask : g.max_sequence ≡ 2 ^ s - 1
  pub fits : node < 2 ^ n
  pub node_field : g.node_bits ≡ node * 2 ^ s

-- A word with the time `t` and the sequence number `q`.
abbrev pub word_of : (n s t q : ℕ) → ℕ
word_of n s t q = t * 2 ^ n * 2 ^ s + q

pub record IsWord (n s w : ℕ) : Type 0 where
  pub t : ℕ
  pub q : ℕ
  pub time : t < 2 ^ 42
  pub sequence : q < 2 ^ s
  pub is : w ≡ word_of n s t q

two_pow_sum : (n s : ℕ) → 2 ^ (n + s) ≡ 2 ^ n * 2 ^ s
two_pow_sum n zero = ap (λ (k : ℕ). 2 ^ k) {x = n + zero} {y = n} (omega arith) ∙ omega arith
two_pow_sum n (suc s) =
    ap (λ (k : ℕ). 2 ^ k) {x = n + suc s} {y = suc (n + s)} (omega arith)
    ∙ pow-suc 2 (n + s)
    ∙ ap (λ (p : ℕ). p * 2) (two_pow_sum n s)
    ∙ mul_assoc (2 ^ n) (2 ^ s) 2
    ∙ ap (λ (p : ℕ). 2 ^ n * p) (sym (pow-suc 2 s))

pub two_fields : (n s t : ℕ) → t * 2 ^ (n + s) ≡ t * 2 ^ n * 2 ^ s
two_fields n s t = ap (λ (p : ℕ). t * p) (two_pow_sum n s) ∙ sym (mul_assoc t (2 ^ n) (2 ^ s))

-- 42 bits of time over 22 other bits.
pub time_fits : (n s t : ℕ) → n + s ≤ 22 → t < 2 ^ 42 → t * 2 ^ (n + s) + 2 ^ (n + s) ≤ 2 ^ 64
time_fits n s t widths time = omega (
  arith,
  mul-le-mul {n₁ = t + 1} {m₁ = 2 ^ (n + s)} {n₂ = 2 ^ 42} {m₂ = 2 ^ 22} (omega arith)
      (pow-le-pow_right {n = 2} (omega arith) widths),
  add-mul t 1 (2 ^ (n + s)),
)

-- The sequence number stays below the node field.
pub sequence_below : (n s q : ℕ) → q < 2 ^ s → q < 2 ^ (n + s)
sequence_below n s q h =
    omega (arith, pow-le-pow_right {n = 2} (omega arith) {i = s} {j = n + s} (omega arith))

-- The parts of a word.
module _ (n s t q : ℕ) (fits : q < 2 ^ s) where
  pub word_time : word_of n s t q / 2 ^ (n + s) ≡ t
  word_time =
      ap (λ (w : ℕ). (w + q) / 2 ^ (n + s)) (sym (two_fields n s t))
      ∙ mul-add-div_right (one-le-pow (n + s) 2 (omega arith)) t q
      ∙ omega (arith, div-eq_of_lt (sequence_below n s q fits))

  pub word_sequence : bit_and (word_of n s t q) (2 ^ s - 1) ≡ q
  word_sequence = bit_and_ones s (t * 2 ^ n) q fits

later_word : (n s t q ts : ℕ) → q < 2 ^ s → t < ts → word_of n s t q < ts * 2 ^ (n + s)
later_word n s t q ts fits lt = omega (
  arith,
  two_fields n s t,
  sequence_below n s q fits,
  add-mul t 1 (2 ^ (n + s)),
  mul-le-mul {n₁ = t + 1} {m₁ = 2 ^ (n + s)} {n₂ = ts} {m₂ = 2 ^ (n + s)} (omega arith) (le_refl _),
)

-- What a round stores: the new time with the sequence number 0, or the old time with the next one.
abbrev pub Proposed : (n s seen ts w : ℕ) → Type 0
Proposed n s seen ts w =
    ((seen / 2 ^ (n + s) < ts) × (w ≡ word_of n s ts 0))
    ⊎ ((ts ≤ seen / 2 ^ (n + s)) × (bit_and seen (2 ^ s - 1) < 2 ^ s - 1) × (w ≡ seen + 1))

-- Words fit 64 bits.
pub word-small : (n s t q : ℕ) → n + s ≤ 22 → t < 2 ^ 42 → q < 2 ^ s → word_of n s t q < 2 ^ 64
word-small n s t q widths time fits =
    omega (arith, two_fields n s t, sequence_below n s q fits, time_fits n s t widths time)

pub proposal-Proposed :
    (n s node : ℕ) (g : Generator) (seen now w : ℕ)
    → IsGenerator n s node g
    → (bit_and seen (2 ^ s - 1) < 2 ^ s - 1 → seen + 1 < 2 ^ 64)
    → sub64 now g.timestamp_offset_ms < 2 ^ 42
    → proposal g seen now ≡ some w
    → Proposed n s seen (sub64 now g.timestamp_offset_ms) w
unfolding proposal
proposal-Proposed n s node g seen now w is_g room small h = ground (
  arith,
  is_g.bits,
  is_g.sequence_mask,
  time_fits n s (sub64 now g.timestamp_offset_ms) is_g.widths small,
  two_fields n s (sub64 now g.timestamp_offset_ms),
  one-le-pow (n + s) 2 (omega arith),
)

-- A round that wants to store anything has a greater word, which is a word again.
pub Proposed-grows :
    (n s seen ts w : ℕ)
    → IsWord n s seen
    → ts < 2 ^ 42
    → Proposed n s seen ts w
    → (seen < w) × IsWord n s w
Proposed-grows n s seen ts w r small (inl (newer, is)) = (
  omega (arith, is, r.is, two_fields n s ts, later_word n s r.t r.q ts r.sequence newer_t),
  record { t = ts; q = 0; time = small; sequence = one-le-pow s 2 (omega arith); is = is },
)
  where
    newer_t : r.t < ts
    newer_t = omega (arith, ap (λ (x : ℕ). x / 2 ^ (n + s)) r.is, word_time n s r.t r.q r.sequence)
Proposed-grows n s seen ts w r small (inr (older, left, is)) = (
  omega (arith, is),
  record {
    t = r.t;
    q = r.q + 1;
    time = r.time;
    sequence =
        omega
          (arith, ap (λ (x : ℕ). bit_and x (2 ^ s - 1)) r.is, word_sequence n s r.t r.q r.sequence);
    is = omega (arith, is, r.is);
  },
)
