-- ===== src/JoinBarrier/Fresh.antt =====
-- A merge map that has just been loaded into a barrier of src/common/tp_join_barrier.c.
use tensor_pool_c.Common.{
  ℕ, zero, suc, ◌≤◌, refl, ap, ◌∙◌, inl, inr, Bool-cases, ltb, ◌<◌, ◌≡◌, ◌≢◌, some, List, [], ◌∷◌,
  arith, length, map, length-map,
}
use tensor_pool_c.JoinBarrier.State.{
  SequenceRule, TimestampRule, Input, Barrier, fresh_input, is_stale, sequence, timestamp,
}
use tensor_pool_c.JoinBarrier.Maps.{
  SequenceMap, TimestampMap, clear, zeroed, load_each, load_sequence_rule, load_timestamp_rule,
  load_sequence_rules, load_timestamp_rules, apply_sequence_map, apply_timestamp_map,
}
use tensor_pool_c.JoinBarrier.Ready.{
  ready, not_ready, sequence_round, sequence_loop, is_ready_sequence, timestamp_ready_for_rule,
  timestamp_round, timestamp_loop, is_ready_timestamp, take_out_time,
}

sequence_round-fresh :
    (b : Barrier) (r : SequenceRule) (x source out_seq now_ns : ℕ)
    → sequence_round b r (fresh_input x source) out_seq now_ns ≡ not_ready
unfolding sequence_round is_stale
sequence_round-fresh b r x source out_seq now_ns = ground arith

timestamp_round-fresh :
    (b : Barrier) (r : TimestampRule) (x source out now_ns : ℕ)
    → timestamp_round b r (fresh_input x source) out now_ns ≡ not_ready
unfolding timestamp_round is_stale timestamp_ready_for_rule
timestamp_round-fresh b r x source out now_ns = ground arith

sequence_loop-fresh :
    (b : Barrier) (rules : List SequenceRule) (out_seq now_ns : ℕ)
    → 0 < length rules
    → sequence_loop b rules (map (λ r. fresh_input r.input_stream_id 0) rules) out_seq now_ns
      ≡ not_ready
unfolding sequence_loop
sequence_loop-fresh b [] out_seq now_ns h = absurd (omega arith)
sequence_loop-fresh b (r ∷ rules) out_seq now_ns h =
    rw (sequence_round-fresh b r r.input_stream_id 0 out_seq now_ns, sequence_loop)

timestamp_loop-fresh :
    (b : Barrier) (rules : List TimestampRule) (out now_ns : ℕ)
    → 0 < length rules
    → timestamp_loop b rules
        (map (λ r. fresh_input r.input_stream_id r.timestamp_source) rules)
        out
        now_ns
      ≡ not_ready
unfolding timestamp_loop
timestamp_loop-fresh b [] out now_ns h = absurd (omega arith)
timestamp_loop-fresh b (r ∷ rules) out now_ns h =
    rw (timestamp_round-fresh b r r.input_stream_id r.timestamp_source out now_ns, timestamp_loop)

-- Rules loaded into zeroed entries leave them blank.
load_each-zeroed :
    {R : Type 0} (load : R → Input → Input) (blank : R → Input)
    (is : (r : R) → load r (fresh_input 0 0) ≡ blank r) (rules : List R) (n : ℕ)
    → length rules ≤ n
    → load_each load rules (zeroed n) ≡ map blank rules
unfolding load_each zeroed
load_each-zeroed load blank is [] n fits = refl
load_each-zeroed load blank is (r ∷ rules) zero fits = absurd (omega arith)
load_each-zeroed load blank is (r ∷ rules) (suc n) fits =
    ap (λ s. s ∷ load_each load rules (zeroed n)) (is r)
    ∙ ap (λ rest. blank r ∷ rest) (load_each-zeroed load blank is rules n (omega arith))

-- What loading gives.
loaded_sequence :
    (b b' : Barrier) (m : SequenceMap)
    → apply_sequence_map b m ≡ some b'
    → (b'.inputs ≡ map (λ r. fresh_input r.input_stream_id 0) m.rules)
      × (b'.sequence_rules ≡ m.rules)
      × (b'.type ≡ sequence)
unfolding apply_sequence_map clear load_sequence_rules
loaded_sequence b b' m h = elim (Bool-cases (ltb b.rule_capacity (length m.rules))) [
  | inl many ↦ ground (arith, h, many)
  | inr fits ↦ ground (
    arith,
    h,
    fits,
    load_each-zeroed load_sequence_rule (λ r. fresh_input r.input_stream_id 0) (λ r. refl) m.rules
        b.rule_capacity (ground (arith, fits)),
  )
]

loaded_timestamp :
    (b b' : Barrier) (m : TimestampMap)
    → apply_timestamp_map b m ≡ some b'
    → (b'.inputs ≡ map (λ r. fresh_input r.input_stream_id r.timestamp_source) m.rules)
      × (b'.timestamp_rules ≡ m.rules)
      × (b'.type ≡ timestamp)
unfolding apply_timestamp_map clear load_timestamp_rules
loaded_timestamp b b' m h = elim (Bool-cases (ltb b.rule_capacity (length m.rules))) [
  | inl many ↦ ground (arith, h, many)
  | inr fits ↦ ground (
    arith,
    h,
    fits,
    load_each-zeroed load_timestamp_rule (λ r. fresh_input r.input_stream_id r.timestamp_source)
        (λ r. refl) m.rules b.rule_capacity (ground (arith, fits)),
  )
]

-- After tp_join_barrier_apply_sequence_map no output is ready until an input has been observed:
-- whatever was observed under the map before is gone, and staleness excuses no input that was
-- never observed.
pub apply_sequence_map-not_ready :
    (b b' : Barrier) (m : SequenceMap) (out_seq now_ns : ℕ)
    → apply_sequence_map b m ≡ some b'
    → is_ready_sequence b' out_seq now_ns ≡ not_ready
unfolding is_ready_sequence
apply_sequence_map-not_ready b b' m out_seq now_ns h =
    let l = loaded_sequence b b' m h in
    rw (l.0, l.1, l.2, length-map (λ r. fresh_input r.input_stream_id 0) m.rules)
      (ground (arith, sequence_loop-fresh b' m.rules out_seq now_ns))

-- After tp_join_barrier_apply_timestamp_map no output is ready until an input has been observed, for
-- any output time, in any clock domain and at any time.
apply_timestamp_map-not_ready :
    (b b' : Barrier) (m : TimestampMap) (out clock_domain now_ns : ℕ)
    → apply_timestamp_map b m ≡ some b'
    → (is_ready_timestamp b' out clock_domain now_ns).1 ≢ ready
unfolding is_ready_timestamp
apply_timestamp_map-not_ready b b' m out clock_domain now_ns h =
    let l = loaded_timestamp b b' m h in
    rw (l.0, l.1, l.2, length-map (λ r. fresh_input r.input_stream_id r.timestamp_source) m.rules)
      (ground (arith, timestamp_loop-fresh (take_out_time b' out) m.rules out now_ns))
