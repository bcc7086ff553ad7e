-- ===== src/JoinBarrier/Ready.antt =====
-- The questions that a barrier of src/common/tp_join_barrier.c answers: the three tests for
-- readiness, the stale inputs and the latest values.
use tensor_pool_c.Common.{
  ℕ, ◌+◌, Bool, true, false, not, ◌&&◌, ◌||◌, Option, none, some, List, [], ◌∷◌, ltb, ◌==◌,
  if◌then◌else◌, length,
}
use tensor_pool_c.Common.Words.{null_u64, add64}
use tensor_pool_c.Common.Int.{ℤ, pos, negsuc, add_signed, is_negative}
use tensor_pool_c.JoinBarrier.State.{
  sequence, timestamp, latest_value, by_sequence, by_timestamp, SequenceRule, TimestampRule, Input,
  Barrier, is_stale,
}
use tensor_pool_c.JoinBarrier.Maps.{is_type}

-- The results 1, 0 and -1.
pub data Verdict : Type 0 where
  ready not_ready invalid : Verdict

-- What an input has reached, against what the output needs of it: the end of the round of
-- `tp_join_barrier_is_ready_sequence`.
unfoldable pub has_reached : Barrier → Input → ℕ → Verdict
has_reached b s required =
    if ltb s.observed_seq required
    then not_ready
    else if b.require_processed && (not s.has_processed_seq || ltb s.processed_seq required)
    then not_ready
    else ready

-- One round of that loop; `ready` is its `continue`.
unfoldable pub sequence_round : Barrier → SequenceRule → Input → ℕ → ℕ → Verdict
sequence_round b rule s out_seq now_ns =
    if is_stale b s now_ns
    then ready
    else if not s.has_observed_seq
    then not_ready
    else if rule.rule_type == 0
    then (if is_negative (add_signed out_seq rule.offset)
        then not_ready
        else has_reached b s (add_signed out_seq rule.offset))
    else if rule.rule_type == 1
    then (if (rule.window_size == 0) || ltb (add64 out_seq 1) rule.window_size
        then not_ready
        else has_reached b s out_seq)
    else invalid

unfoldable pub sequence_loop : Barrier → List SequenceRule → List Input → ℕ → ℕ → Verdict
sequence_loop b [] inputs out_seq now_ns = ready
sequence_loop b (r ∷ rules) [] out_seq now_ns = ready
sequence_loop b (r ∷ rules) (s ∷ inputs) out_seq now_ns =
    let rest = sequence_loop b rules inputs out_seq now_ns in
    elim (sequence_round b r s out_seq now_ns) [
      | ready ↦ rest
      | not_ready ↦ not_ready
      | invalid ↦ invalid
    ]

unfoldable pub is_ready_sequence : Barrier → ℕ → ℕ → Verdict
is_ready_sequence b out_seq now_ns =
    if not (is_type b.type sequence)
    then invalid
    else if length b.inputs == 0
    then not_ready
    else sequence_loop b b.sequence_rules b.inputs out_seq now_ns

-- `-rule->offset_ns` of a negative offset, as a word.
abbrev pub magnitude : ℤ → ℕ
magnitude (pos n) = 0
magnitude (negsuc n) = n + 1

abbrev pub is_below_zero : ℤ → Bool
is_below_zero (pos n) = false
is_below_zero (negsuc n) = true

abbrev pub lateness_of : Barrier → ℕ
lateness_of b = if b.lateness_ns == null_u64 then 0 else b.lateness_ns

unfoldable pub has_reached_time : Barrier → Input → ℕ → Verdict
has_reached_time b s required =
    if ltb (add64 s.observed_time_ns (lateness_of b)) required
    then not_ready
    else if b.require_processed
        && (not s.has_processed_time || ltb (add64 s.processed_time_ns (lateness_of b)) required)
    then not_ready
    else ready

-- `tp_join_barrier_timestamp_ready_for_rule`
unfoldable pub timestamp_ready_for_rule : Barrier → Input → TimestampRule → ℕ → Verdict
timestamp_ready_for_rule b s rule out_time_ns =
    if not s.has_observed_time
    then not_ready
    else if rule.rule_type == 0
    then (if is_negative (add_signed out_time_ns rule.offset_ns)
        then (if ltb out_time_ns threshold then not_ready else has_reached_time b s 0)
        else has_reached_time b s (add_signed out_time_ns rule.offset_ns))
    else if rule.rule_type == 1
    then (if rule.window_ns == 0
        then invalid
        else if ltb out_time_ns rule.window_ns
        then not_ready
        else has_reached_time b s out_time_ns)
    else invalid
  where
    threshold : ℕ
    threshold =
        if is_below_zero rule.offset_ns
        then add64 (lateness_of b) (magnitude rule.offset_ns)
        else lateness_of b

unfoldable pub timestamp_round : Barrier → TimestampRule → Input → ℕ → ℕ → Verdict
timestamp_round b rule s out_time_ns now_ns =
    if is_stale b s now_ns then ready else timestamp_ready_for_rule b s rule out_time_ns

unfoldable pub timestamp_loop : Barrier → List TimestampRule → List Input → ℕ → ℕ → Verdict
timestamp_loop b [] inputs out_time_ns now_ns = ready
timestamp_loop b (r ∷ rules) [] out_time_ns now_ns = ready
timestamp_loop b (r ∷ rules) (s ∷ inputs) out_time_ns now_ns =
    let rest = timestamp_loop b rules inputs out_time_ns now_ns in
    elim (timestamp_round b r s out_time_ns now_ns) [
      | ready ↦ rest
      | not_ready ↦ not_ready
      | invalid ↦ invalid
    ]

abbrev pub take_out_time : Barrier → ℕ → Barrier
take_out_time b out_time_ns = record b { last_out_time_ns = out_time_ns; has_last_out_time = true }

-- The test moves the time of the last output on, whatever it finds.
unfoldable pub is_ready_timestamp : Barrier → ℕ → ℕ → ℕ → Barrier × Verdict
is_ready_timestamp b out_time_ns clock_domain now_ns =
    if not (is_type b.type timestamp)
    then (b, invalid)
    else if length b.inputs == 0
    then (b, not_ready)
    else if not (b.clock_domain == 0) && not (clock_domain == b.clock_domain)
    then (b, invalid)
    else if b.has_last_out_time && ltb out_time_ns b.last_out_time_ns
    then (b, invalid)
    else (
      take_out_time b out_time_ns,
      timestamp_loop (take_out_time b out_time_ns) b.timestamp_rules b.inputs out_time_ns now_ns,
    )

abbrev pub is_by_timestamp : Barrier → Bool
is_by_timestamp b = elim b.latest_ordering [ by_timestamp ↦ true | by_sequence ↦ false ]

abbrev pub has_ordered : Barrier → Input → Bool
has_ordered b s = if is_by_timestamp b then s.has_observed_time else s.has_observed_seq

-- One round of `tp_join_barrier_is_ready_latest`.
unfoldable pub latest_round : Barrier → Input → ℕ → ℕ → ℕ → Verdict
latest_round b s out_time_ns clock_domain now_ns =
    if is_stale b s now_ns
    then ready
    else if not (has_ordered b s)
    then not_ready
    else if not (b.clock_domain == 0) && not (clock_domain == b.clock_domain)
    then invalid
    else if is_by_timestamp b && (s.timestamp_source == 0)
    then invalid
    else if not s.latest_valid
    then not_ready
    else if not s.has_observed_seq && not s.has_observed_time
    then not_ready
    else if not (b.clock_domain == 0) && not s.has_observed_time
    then not_ready
    else if not s.has_min_seq_in_epoch
    then not_ready
    else if s.has_observed_seq && ltb s.observed_seq s.min_seq_in_epoch
    then not_ready
    else if s.has_observed_time && (ltb 0 s.observed_time_ns && (out_time_ns == 0))
    then not_ready
    else ready

unfoldable pub latest_loop : Barrier → List Input → ℕ → ℕ → ℕ → Verdict
latest_loop b [] out_time_ns clock_domain now_ns = ready
latest_loop b (s ∷ inputs) out_time_ns clock_domain now_ns =
    let rest = latest_loop b inputs out_time_ns clock_domain now_ns in
    elim (latest_round b s out_time_ns clock_domain now_ns) [
      | ready ↦ rest
      | not_ready ↦ not_ready
      | invalid ↦ invalid
    ]

unfoldable pub is_ready_latest : Barrier → ℕ → ℕ → ℕ → Barrier × Verdict
is_ready_latest b out_time_ns clock_domain now_ns =
    if not (is_type b.type latest_value)
    then (b, invalid)
    else if length b.inputs == 0
    then (b, not_ready)
    else if is_by_timestamp b
    then (if b.clock_domain == 0
        then (b, invalid)
        else if b.has_last_out_time && ltb out_time_ns b.last_out_time_ns
        then (b, invalid)
        else (
          take_out_time b out_time_ns,
          latest_loop (take_out_time b out_time_ns) b.inputs out_time_ns clock_domain now_ns,
        ))
    else (b, latest_loop b b.inputs out_time_ns clock_domain now_ns)

-- The ids of the stale inputs, in order: both loops of `tp_join_barrier_collect_stale_inputs`.
unfoldable pub stale_ids : Barrier → ℕ → List Input → List ℕ
stale_ids b now_ns [] = []
stale_ids b now_ns (s ∷ inputs) =
    if is_stale b s now_ns
    then s.stream_id ∷ stale_ids b now_ns inputs
    else stale_ids b now_ns inputs

-- The count, and what is written to `stream_ids`; `none` is the error. `capacity` is 0 too where
-- the caller gives no array.
unfoldable pub collect_stale_inputs : Barrier → ℕ → ℕ → Option (ℕ × List ℕ)
unfolding stale_ids
collect_stale_inputs b now_ns capacity =
    if not b.allow_stale || ((b.stale_timeout_ns == null_u64) || (length b.inputs == 0))
    then some (0, [])
    else if capacity == 0
    then some (length (stale_ids b now_ns b.inputs), [])
    else if ltb capacity (length (stale_ids b now_ns b.inputs))
    then none
    else some (length (stale_ids b now_ns b.inputs), stale_ids b now_ns b.inputs)

-- `tp_latest_selection_t`
pub record Selection : Type 0 where
  pub stream_id : ℕ
  pub seq : ℕ
  pub timestamp_ns : ℕ
  pub timestamp_source : ℕ

abbrev pub selection : Input → Selection
selection s = record {
  stream_id = s.stream_id;
  seq = s.observed_seq;
  timestamp_ns = s.observed_time_ns;
  timestamp_source = s.timestamp_source;
}

unfoldable pub can_select : Barrier → Input → Bool
can_select b s =
    (s.latest_valid && s.has_min_seq_in_epoch)
    && (has_ordered b s && not (is_by_timestamp b && (s.timestamp_source == 0)))

unfoldable pub select_loop : Barrier → List Input → Option (List Selection)
unfolding can_select
select_loop b [] = some []
select_loop b (s ∷ inputs) =
    let rest = select_loop b inputs in
    if can_select b s
    then elim rest [ none ↦ none | some found ↦ some (selection s ∷ found) ]
    else none

unfoldable pub collect_latest : Barrier → ℕ → Option (List Selection)
unfolding select_loop
collect_latest b capacity =
    if not (is_type b.type latest_value)
    then none
    else if ltb capacity (length b.inputs)
    then none
    else if is_by_timestamp b && (b.clock_domain == 0)
    then none
    else select_loop b b.inputs
