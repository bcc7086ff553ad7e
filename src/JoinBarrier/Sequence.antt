-- ===== src/JoinBarrier/Sequence.antt =====
-- What `tp_join_barrier_is_ready_sequence` decides, over the integers.
use tensor_pool_c.Common.{
  ℕ, ◌+◌, ◌^◌, ◌<◌, ◌≤◌, ◌≡◌, ◌↔◌, ◌⊎◌, refl, true, false, List, [], ◌∷◌, arith, ◌==◌,
  if◌then◌else◌, length, All,
}
use tensor_pool_c.Common.Int.{Reaches, NonNegative, Fits32}
use tensor_pool_c.JoinBarrier.State.{sequence, SequenceRule, Input, Barrier, is_stale}
use tensor_pool_c.JoinBarrier.Ready.{
  ready, has_reached, sequence_round, sequence_loop, is_ready_sequence,
}

-- The rule allows an output, and an input that has come to `k` is far enough for it.
abbrev pub Covers : SequenceRule → ℕ → ℕ → Type 0
Covers r out_seq k =
    if r.rule_type == 0
    then NonNegative out_seq r.offset × Reaches k out_seq r.offset
    else (0 < r.window_size) × (r.window_size ≤ out_seq + 1) × (out_seq ≤ k)

-- An input that is not stale must have been observed, and processed if the barrier asks for that,
-- as far as its rule needs.
abbrev pub InputReady : Barrier → SequenceRule → Input → ℕ → ℕ → Type 0
InputReady b r s out_seq now_ns =
    (is_stale b s now_ns ≡ true)
    ⊎ ((s.has_observed_seq ≡ true)
        × Covers r out_seq s.observed_seq
        × ((b.require_processed ≡ false)
            ⊎ ((s.has_processed_seq ≡ true) × Covers r out_seq s.processed_seq)))

-- What the merge map codec lets through.
abbrev pub RuleValid : SequenceRule → Type 0
RuleValid r = (r.rule_type ≤ 1) × Fits32 r.offset

sequence_round_iff :
    (b : Barrier) (r : SequenceRule) (s : Input) (out_seq now_ns : ℕ)
    → RuleValid r
    → out_seq + 2 ^ 31 < 2 ^ 63
    → (sequence_round b r s out_seq now_ns ≡ ready) ↔ InputReady b r s out_seq now_ns
unfolding sequence_round has_reached
sequence_round_iff b r s out_seq now_ns v small = (λ h. ground arith, λ h. ground arith)

-- All inputs are ready, each by its rule.
abbrev pub InputsReady : Barrier → List SequenceRule → List Input → ℕ → ℕ → Type 0
InputsReady b [] inputs out_seq now_ns = Unit
InputsReady b (r ∷ rules) [] out_seq now_ns = Unit
InputsReady b (r ∷ rules) (s ∷ inputs) out_seq now_ns =
    InputReady b r s out_seq now_ns × InputsReady b rules inputs out_seq now_ns

module _ (b : Barrier) (out_seq now_ns : ℕ) (small : out_seq + 2 ^ 31 < 2 ^ 63) where
  sequence_loop_sound :
      (rules : List SequenceRule) (inputs : List Input)
      → All RuleValid rules
      → sequence_loop b rules inputs out_seq now_ns ≡ ready
      → InputsReady b rules inputs out_seq now_ns
  unfolding sequence_loop
  sequence_loop_sound [] inputs v h = tt
  sequence_loop_sound (r ∷ rules) [] v h = tt
  sequence_loop_sound (r ∷ rules) (s ∷ inputs) v h = (
    (sequence_round_iff b r s out_seq now_ns v.0 small).0 (ground arith),
    sequence_loop_sound rules inputs v.1 (ground arith),
  )

  sequence_loop_complete :
      (rules : List SequenceRule) (inputs : List Input)
      → All RuleValid rules
      → InputsReady b rules inputs out_seq now_ns
      → sequence_loop b rules inputs out_seq now_ns ≡ ready
  unfolding sequence_loop
  sequence_loop_complete [] inputs v h = refl
  sequence_loop_complete (r ∷ rules) [] v h = refl
  sequence_loop_complete (r ∷ rules) (s ∷ inputs) v h =
      rw ((sequence_round_iff b r s out_seq now_ns v.0 small).1 h.0, sequence_loop)
        (sequence_loop_complete rules inputs v.1 h.1)

-- tp_join_barrier_is_ready_sequence answers 1 exactly if the barrier joins by sequence, has an
-- input, and every input is stale or has been observed (and processed, where that is asked) up to
-- what its rule needs: out_seq + offset for an OFFSET rule, where that is not negative, and out_seq
-- for a WINDOW rule, where out_seq + 1 frames fill the window. The rules are of those two types
-- with 32-bit offsets, and out_seq + 2^31 is below 2^63.
pub is_ready_sequence_iff :
    (b : Barrier) (out_seq now_ns : ℕ)
    → out_seq + 2 ^ 31 < 2 ^ 63
    → All RuleValid b.sequence_rules
    → (is_ready_sequence b out_seq now_ns ≡ ready) ↔ (
        (b.type ≡ sequence)
        × (0 < length b.inputs)
        × InputsReady b b.sequence_rules b.inputs out_seq now_ns)
unfolding is_ready_sequence
is_ready_sequence_iff b out_seq now_ns small v = (
  λ h. (
    ground arith,
    ground arith,
    sequence_loop_sound b out_seq now_ns small b.sequence_rules b.inputs v (ground arith),
  ),
  λ h. ground (
    arith,
    h.0,
    h.1,
    sequence_loop_complete b out_seq now_ns small b.sequence_rules b.inputs v h.2,
  ),
)
