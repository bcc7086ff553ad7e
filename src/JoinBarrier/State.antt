-- ===== src/JoinBarrier/State.antt =====
-- The state of src/common/tp_join_barrier.c and include/tensor_pool/common/tp_join_barrier.h, and
-- the search for an input. The arrays of rules are lists of their first `rule_count` entries, which
-- are all that the code reads.
use tensor_pool_c.Common.{
  ℕ, Bool, false, not, ◌||◌, Option, List, ltb, ◌==◌, if◌then◌else◌, find_first, update_first,
}
use tensor_pool_c.Common.Words.{null_u64, sub64}
use tensor_pool_c.Common.Int.{ℤ}

pub data BarrierType : Type 0 where
  sequence timestamp latest_value : BarrierType

-- `tp_latest_ordering_t`
pub data Ordering : Type 0 where
  by_sequence by_timestamp : Ordering

-- `tp_sequence_merge_rule_t`. A rule type is 0 for OFFSET, 1 for WINDOW.
pub record SequenceRule : Type 0 where
  pub input_stream_id : ℕ
  pub rule_type : ℕ
  pub offset : ℤ
  pub window_size : ℕ

-- `tp_timestamp_merge_rule_t`. A timestamp source is 0 where none is given.
pub record TimestampRule : Type 0 where
  pub input_stream_id : ℕ
  pub rule_type : ℕ
  pub timestamp_source : ℕ
  pub offset_ns : ℤ
  pub window_ns : ℕ

-- `tp_join_input_state_t`
pub record Input : Type 0 where
  pub stream_id : ℕ
  pub timestamp_source : ℕ
  pub observed_seq : ℕ
  pub processed_seq : ℕ
  pub observed_time_ns : ℕ
  pub processed_time_ns : ℕ
  pub min_seq_in_epoch : ℕ
  pub last_observed_update_ns : ℕ
  pub last_processed_update_ns : ℕ
  pub has_observed_seq : Bool
  pub has_processed_seq : Bool
  pub has_observed_time : Bool
  pub has_processed_time : Bool
  pub has_min_seq_in_epoch : Bool
  pub latest_valid : Bool

-- `tp_join_barrier_t`. The array `state` is `inputs`, its first `rule_count` entries, and `spare`, the
-- others.
pub record Barrier : Type 0 where
  pub type : BarrierType
  pub out_stream_id : ℕ
  pub epoch : ℕ
  pub stale_timeout_ns : ℕ
  pub lateness_ns : ℕ
  pub last_out_time_ns : ℕ
  pub clock_domain : ℕ
  pub allow_stale : Bool
  pub require_processed : Bool
  pub has_last_out_time : Bool
  pub latest_ordering : Ordering
  pub rule_capacity : ℕ
  pub sequence_rules : List SequenceRule
  pub timestamp_rules : List TimestampRule
  pub inputs : List Input
  pub spare : List Input

-- A blank entry of `state` for a stream and a timestamp source.
abbrev pub fresh_input : ℕ → ℕ → Input
fresh_input stream_id source = record {
  stream_id = stream_id;
  timestamp_source = source;
  observed_seq = 0;
  processed_seq = 0;
  observed_time_ns = 0;
  processed_time_ns = 0;
  min_seq_in_epoch = 0;
  last_observed_update_ns = 0;
  last_processed_update_ns = 0;
  has_observed_seq = false;
  has_processed_seq = false;
  has_observed_time = false;
  has_processed_time = false;
  has_min_seq_in_epoch = false;
  latest_valid = false;
}

unfoldable pub find_state : List Input → ℕ → Option Input
find_state inputs stream_id = find_first (λ s. s.stream_id == stream_id) inputs

-- A write through the pointer that `tp_join_barrier_find_state` returned.
unfoldable pub update_state : ℕ → (Input → Input) → List Input → List Input
update_state stream_id f inputs = update_first (λ s. s.stream_id == stream_id) f inputs

-- `tp_join_barrier_is_stale`; the difference is a 64-bit word.
unfoldable pub is_stale : Barrier → Input → ℕ → Bool
is_stale b s now_ns =
    if not b.allow_stale || (b.stale_timeout_ns == null_u64)
    then false
    else if s.last_observed_update_ns == 0
    then false
    else ltb b.stale_timeout_ns (sub64 now_ns s.last_observed_update_ns)
