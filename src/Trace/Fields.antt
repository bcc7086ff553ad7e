-- ===== src/Trace/Fields.antt =====
-- The parts of an id of src/common/tp_trace.c are read back.
use Prim.Native.Nat.{bit_and, bit_or}
use native.Mathlib.Nat.{add-mul, one-le-pow, mul-add-div_right, div-eq_of_lt, mul-le-mul, le_refl}
use tensor_pool_c.Common.{
  ℕ, ◌+◌, ◌-◌, ◌*◌, ◌/◌, ◌^◌, ◌<◌, ◌≤◌, ◌≡◌, ◌⊎◌, inl, inr, sym, ap, ◌∙◌, subst, some, arith,
  some_cancel,
}
use tensor_pool_c.Common.Words.{sub64}
use tensor_pool_c.Common.Bits.{bit_or_above, bit_or_below, bit_and_ones}
use tensor_pool_c.Trace.Generator.{
  Generator, Attempt, round, extract_timestamp, extract_node_id, extract_sequence,
}
use tensor_pool_c.Trace.Words.{IsGenerator, word_of, two_fields, Proposed, word_time, word_sequence}
use tensor_pool_c.Trace.Order.{IsRunning, InTime, round-Rounded, proposal-running}

module _ (n s node : ℕ) (g : Generator) (is_g : IsGenerator n s node g) (t q : ℕ)
    (fits : q < 2 ^ s) where
  abbrev id : ℕ
  id = bit_or (word_of n s t q) g.node_bits

  -- The id as its upper fields and the sequence number.
  id_upper : id ≡ (t * 2 ^ n + node) * 2 ^ s + q
  id_upper =
      ap (bit_or (word_of n s t q)) is_g.node_field
      ∙ bit_or_above s (t * 2 ^ n) node q fits
      ∙ ap (λ (x : ℕ). x * 2 ^ s + q) (bit_or_below n t node is_g.fits)

  pub extract_sequence-id : extract_sequence g (bit_or (word_of n s t q) g.node_bits) ≡ q
  unfolding extract_sequence
  extract_sequence-id =
      ap (λ (m : ℕ). bit_and id m) is_g.sequence_mask
      ∙ ap (λ (x : ℕ). bit_and x (2 ^ s - 1)) id_upper
      ∙ bit_and_ones s (t * 2 ^ n + node) q fits

  upper : id / 2 ^ s ≡ t * 2 ^ n + node
  upper =
      ap (λ (x : ℕ). x / 2 ^ s) id_upper
      ∙ mul-add-div_right (one-le-pow s 2 (omega arith)) (t * 2 ^ n + node) q
      ∙ omega (arith, div-eq_of_lt fits)

  pub extract_node_id-id : extract_node_id g (bit_or (word_of n s t q) g.node_bits) ≡ node
  unfolding extract_node_id
  extract_node_id-id =
      ap (λ (k : ℕ). bit_and (id / 2 ^ k) g.max_node_id) is_g.sequence_width
      ∙ ap (λ (m : ℕ). bit_and (id / 2 ^ s) m) is_g.node_mask
      ∙ ap (λ (x : ℕ). bit_and x (2 ^ n - 1)) upper
      ∙ bit_and_ones n t node is_g.fits

  pub extract_timestamp-id : extract_timestamp g (bit_or (word_of n s t q) g.node_bits) ≡ t
  unfolding extract_timestamp
  extract_timestamp-id =
      ap (λ (k : ℕ). id / 2 ^ k) is_g.bits
      ∙ ap (λ (x : ℕ). x / 2 ^ (n + s)) whole
      ∙ mul-add-div_right (one-le-pow (n + s) 2 (omega arith)) t (node * 2 ^ s + q)
      ∙ omega (arith, div-eq_of_lt low)
    where
      whole : id ≡ t * 2 ^ (n + s) + (node * 2 ^ s + q)
      whole = omega (arith, id_upper, add-mul (t * 2 ^ n) node (2 ^ s), two_fields n s t)

      low : node * 2 ^ s + q < 2 ^ (n + s)
      low = omega (
        arith,
        two_fields n s 1,
        add-mul node 1 (2 ^ s),
        mul-le-mul {n₁ = node + 1} {m₁ = 2 ^ s} {n₂ = 1 * 2 ^ n} {m₂ = 2 ^ s}
            (omega (arith, is_g.fits)) (le_refl _),
      )

-- What is read from an id: the node, and the time `ts` and 0 if `ts` is later than the time `t` of
-- the word before, else `t` and the next sequence number.
abbrev pub Reads : Generator → (node t q ts : ℕ) → ℕ → Type 0
Reads g node t q ts trace_id =
    (extract_node_id g trace_id ≡ node)
    × (((t < ts) × (extract_timestamp g trace_id ≡ ts) × (extract_sequence g trace_id ≡ 0))
        ⊎ ((ts ≤ t) × (extract_timestamp g trace_id ≡ t) × (extract_sequence g trace_id ≡ q + 1)))

word-Reads :
    (n s node : ℕ) (g : Generator) (ts w : ℕ) (r : IsRunning n s node g)
    → ts < 2 ^ 42
    → Proposed n s g.timestamp_sequence ts w
    → Reads g node r.word.t r.word.q ts (bit_or w g.node_bits)
word-Reads n s node g ts w r small (inl (newer, is)) =
    subst (λ x. Reads g node r.word.t r.word.q ts (bit_or x g.node_bits)) (sym is)
      (
        extract_node_id-id n s node g r.generator ts 0 some_room,
        inl (
          omega (arith, newer, before),
          extract_timestamp-id n s node g r.generator ts 0 some_room,
          extract_sequence-id n s node g r.generator ts 0 some_room,
        ),
      )
  where
    some_room : 0 < 2 ^ s
    some_room = one-le-pow s 2 (omega arith)

    before : g.timestamp_sequence / 2 ^ (n + s) ≡ r.word.t
    before =
        ap (λ (x : ℕ). x / 2 ^ (n + s)) r.word.is ∙ word_time n s r.word.t r.word.q r.word.sequence
word-Reads n s node g ts w r small (inr (older, left, is)) =
    subst (λ x. Reads g node r.word.t r.word.q ts (bit_or x g.node_bits)) (sym next_word)
      (
        extract_node_id-id n s node g r.generator r.word.t (r.word.q + 1) room,
        inr (
          omega (arith, older, before),
          extract_timestamp-id n s node g r.generator r.word.t (r.word.q + 1) room,
          extract_sequence-id n s node g r.generator r.word.t (r.word.q + 1) room,
        ),
      )
  where
    next_word : w ≡ word_of n s r.word.t (r.word.q + 1)
    next_word = omega (arith, is, r.word.is)

    before : g.timestamp_sequence / 2 ^ (n + s) ≡ r.word.t
    before =
        ap (λ (x : ℕ). x / 2 ^ (n + s)) r.word.is ∙ word_time n s r.word.t r.word.q r.word.sequence

    room : r.word.q + 1 < 2 ^ s
    room = omega (
      arith,
      left,
      ap (λ (x : ℕ). bit_and x (2 ^ s - 1)) r.word.is,
      word_sequence n s r.word.t r.word.q r.word.sequence,
    )

-- An id reads back. Where a round of tp_trace_id_generator_next returns an id, the node taken from
-- it is the generator's, and the time and the sequence number taken from it are those of the round:
-- the time of its reading of the clock, if that is later than the time in the generator's word, and
-- the sequence number 0; else the word's time, and the word's sequence number and one more. The
-- reading fits 42 bits without the offset.
pub round-Reads :
    (n s node : ℕ) (g : Generator) (a : Attempt) (trace_id : ℕ) (r : IsRunning n s node g)
    → InTime g a
    → (round g a).1 ≡ some trace_id
    → Reads g node r.word.t r.word.q (sub64 a.now_ms g.timestamp_offset_ms) trace_id
round-Reads n s node g a trace_id r small h = elim (round-Rounded n s node g a) [
  | inl (_, silent) ↦ cc
  | inr (w, (proposed, (_, given))) ↦
      subst (Reads g node r.word.t r.word.q (sub64 a.now_ms g.timestamp_offset_ms))
        (some_cancel (sym given ∙ h))
        (word-Reads n s node g (sub64 a.now_ms g.timestamp_offset_ms) w r small
          (proposal-running n s node g a.now_ms w r small proposed))
]
