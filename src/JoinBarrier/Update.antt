-- ===== src/JoinBarrier/Update.antt =====
-- What a barrier of src/common/tp_join_barrier.c is told of its inputs. An error (`none`) leaves
-- the barrier as it was.
use tensor_pool_c.Common.{
  ℕ, Bool, true, false, not, ◌&&◌, Option, none, some, ltb, ◌==◌, if◌then◌else◌,
}
use tensor_pool_c.Common.Words.{null_u64}
use tensor_pool_c.JoinBarrier.State.{Input, Barrier, find_state, update_state}

abbrev on_state : Barrier → ℕ → (Input → Input) → Option Barrier
on_state b stream_id f = some (record b { inputs = update_state stream_id f b.inputs })

unfoldable pub observe_seq : ℕ → ℕ → Input → Input
observe_seq seq now_ns s = record s {
  observed_seq = seq;
  has_observed_seq = true;
  min_seq_in_epoch = if s.has_min_seq_in_epoch then s.min_seq_in_epoch else seq;
  has_min_seq_in_epoch = true;
  latest_valid = true;
  last_observed_update_ns = now_ns;
}

unfoldable pub process_seq : ℕ → ℕ → Input → Input
process_seq seq now_ns s = record s {
  processed_seq = seq;
  has_processed_seq = true;
  last_processed_update_ns = now_ns;
}

unfoldable pub observe_time : ℕ → ℕ → Input → Input
observe_time timestamp_ns now_ns s = record s {
  observed_time_ns = timestamp_ns;
  has_observed_time = true;
  latest_valid = true;
  last_observed_update_ns = now_ns;
}

unfoldable pub process_time : ℕ → ℕ → Input → Input
process_time timestamp_ns now_ns s = record s {
  processed_time_ns = timestamp_ns;
  has_processed_time = true;
  last_processed_update_ns = now_ns;
}

unfoldable pub update_observed_seq : Barrier → ℕ → ℕ → ℕ → Option Barrier
update_observed_seq b stream_id seq now_ns = elim (find_state b.inputs stream_id) [
  | none ↦ none
  | some s ↦
      if s.has_observed_seq && ltb seq s.observed_seq
      then none
      else on_state b stream_id (observe_seq seq now_ns)
]

unfoldable pub update_processed_seq : Barrier → ℕ → ℕ → ℕ → Option Barrier
update_processed_seq b stream_id seq now_ns = elim (find_state b.inputs stream_id) [
  | none ↦ none
  | some s ↦
      if s.has_processed_seq && ltb seq s.processed_seq
      then none
      else on_state b stream_id (process_seq seq now_ns)
]

-- `tp_join_barrier_validate_timestamp_update`: true where it returns 0.
unfoldable pub is_valid_timestamp_update : Barrier → Input → ℕ → ℕ → Bool
is_valid_timestamp_update b s source clock_domain =
    if not (b.clock_domain == 0) && not (clock_domain == b.clock_domain)
    then false
    else if not (s.timestamp_source == 0) && not (source == s.timestamp_source)
    then false
    else true

unfoldable pub update_observed_time : Barrier → ℕ → ℕ → ℕ → ℕ → ℕ → Option Barrier
update_observed_time b stream_id timestamp_ns source clock_domain now_ns =
    elim (find_state b.inputs stream_id) [
      | none ↦ none
      | some s ↦
          if not (is_valid_timestamp_update b s source clock_domain)
          then none
          else if timestamp_ns == null_u64
          then some b
          else if s.has_observed_time && ltb timestamp_ns s.observed_time_ns
          then none
          else on_state b stream_id (observe_time timestamp_ns now_ns)
    ]

unfoldable pub update_processed_time : Barrier → ℕ → ℕ → ℕ → ℕ → ℕ → Option Barrier
update_processed_time b stream_id timestamp_ns source clock_domain now_ns =
    elim (find_state b.inputs stream_id) [
      | none ↦ none
      | some s ↦
          if not (is_valid_timestamp_update b s source clock_domain)
          then none
          else if timestamp_ns == null_u64
          then some b
          else if s.has_processed_time && ltb timestamp_ns s.processed_time_ns
          then none
          else on_state b stream_id (process_time timestamp_ns now_ns)
    ]

unfoldable pub invalidate_latest : Barrier → ℕ → Option Barrier
invalidate_latest b stream_id = elim (find_state b.inputs stream_id) [
  | none ↦ none
  | some _ ↦ on_state b stream_id (λ s. record s { latest_valid = false })
]
