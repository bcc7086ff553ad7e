-- ===== src/JoinBarrier/Maps.antt =====
-- Opening, setting and loading a barrier of src/common/tp_join_barrier.c. An error is `none`, and
-- leaves the barrier as it was.
use tensor_pool_c.Common.{
  ℕ, zero, suc, ◌∷◌, ◌++◌, drop, Bool, true, false, Option, none, some, List, [], ltb, ◌==◌,
  if◌then◌else◌, length,
}
use tensor_pool_c.Common.Words.{null_u64}
use tensor_pool_c.JoinBarrier.State.{
  BarrierType, sequence, timestamp, latest_value, Ordering, by_sequence, SequenceRule,
  TimestampRule, Input, Barrier, fresh_input,
}

-- `tp_sequence_merge_map_t` and `tp_timestamp_merge_map_t`
pub record SequenceMap : Type 0 where
  pub out_stream_id : ℕ
  pub epoch : ℕ
  pub stale_timeout_ns : ℕ
  pub rules : List SequenceRule

pub record TimestampMap : Type 0 where
  pub out_stream_id : ℕ
  pub epoch : ℕ
  pub stale_timeout_ns : ℕ
  pub clock_domain : ℕ
  pub lateness_ns : ℕ
  pub rules : List TimestampRule

-- `tp_join_barrier_init`: `memory` is the array of inputs that the allocations give, none where one
-- of the three fails.
unfoldable pub init : Option (List Input) → BarrierType → ℕ → Option Barrier
init memory type rule_capacity = if rule_capacity == 0 then none else elim memory [
  | none ↦ none
  | some states ↦ some (record {
    type = type;
    out_stream_id = 0;
    epoch = 0;
    stale_timeout_ns = null_u64;
    lateness_ns = null_u64;
    last_out_time_ns = 0;
    clock_domain = 0;
    allow_stale = false;
    require_processed = false;
    has_last_out_time = false;
    latest_ordering = by_sequence;
    rule_capacity = rule_capacity;
    sequence_rules = [];
    timestamp_rules = [];
    inputs = [];
    spare = states;
  })
]

unfoldable pub set_allow_stale : Barrier → Bool → Barrier
set_allow_stale b allow_stale = record b { allow_stale = allow_stale }

unfoldable pub set_require_processed : Barrier → Bool → Barrier
set_require_processed b require_processed = record b { require_processed = require_processed }

unfoldable pub set_latest_ordering : Barrier → Ordering → Barrier
set_latest_ordering b ordering = record b { latest_ordering = ordering }

-- The entries of `state` after `memset`.
unfoldable pub zeroed : ℕ → List Input
zeroed zero = []
zeroed (suc n) = fresh_input 0 0 ∷ zeroed n

-- `tp_join_barrier_clear`: the type, the settings and the capacity stay.
unfoldable pub clear : Barrier → Barrier
unfolding zeroed
clear b = record b {
  out_stream_id = 0;
  epoch = 0;
  stale_timeout_ns = null_u64;
  lateness_ns = null_u64;
  last_out_time_ns = 0;
  clock_domain = 0;
  has_last_out_time = false;
  sequence_rules = [];
  timestamp_rules = [];
  inputs = [];
  spare = zeroed b.rule_capacity;
}

-- What a round of the loops below stores in the entry of its rule.
abbrev pub load_sequence_rule : SequenceRule → Input → Input
load_sequence_rule r s = record s { stream_id = r.input_stream_id; latest_valid = false }

abbrev pub load_timestamp_rule : TimestampRule → Input → Input
load_timestamp_rule r s = record s {
  stream_id = r.input_stream_id;
  timestamp_source = r.timestamp_source;
  latest_valid = false;
}

-- The loop over the rules and the entries from the first on. There are no more rules than entries.
unfoldable pub load_each : {R : Type 0} → (R → Input → Input) → List R → List Input → List Input
load_each load [] states = []
load_each load (r ∷ rules) [] = []
load_each load (r ∷ rules) (s ∷ states) = load r s ∷ load_each load rules states

-- `tp_join_barrier_load_sequence_rules` and `tp_join_barrier_load_timestamp_rules`, with the
-- `rule_count` that their callers set.
unfoldable pub load_sequence_rules : Barrier → SequenceMap → Barrier
unfolding load_each
load_sequence_rules b m =
    let states = b.inputs ++ b.spare in
    record b {
      sequence_rules = m.rules;
      inputs = load_each load_sequence_rule m.rules states;
      spare = drop (length m.rules) states;
    }

unfoldable pub load_timestamp_rules : Barrier → TimestampMap → Barrier
unfolding load_each
load_timestamp_rules b m =
    let states = b.inputs ++ b.spare in
    record b {
      timestamp_rules = m.rules;
      inputs = load_each load_timestamp_rule m.rules states;
      spare = drop (length m.rules) states;
    }

abbrev pub is_type : BarrierType → BarrierType → Bool
is_type sequence sequence = true
is_type timestamp timestamp = true
is_type latest_value latest_value = true
is_type _ _ = false

abbrev set_sequence_map : Barrier → SequenceMap → Barrier
set_sequence_map b m = record b {
  out_stream_id = m.out_stream_id;
  epoch = m.epoch;
  stale_timeout_ns = m.stale_timeout_ns;
  last_out_time_ns = 0;
  has_last_out_time = false;
}

abbrev set_timestamp_map : Barrier → TimestampMap → Barrier
set_timestamp_map b m = record b {
  out_stream_id = m.out_stream_id;
  epoch = m.epoch;
  stale_timeout_ns = m.stale_timeout_ns;
  lateness_ns = if m.lateness_ns == null_u64 then 0 else m.lateness_ns;
  clock_domain = m.clock_domain;
  last_out_time_ns = 0;
  has_last_out_time = false;
}

-- The four `tp_join_barrier_apply_…_map` check the capacity, then the type, and load.
abbrev apply_sequence_rules : BarrierType → Barrier → SequenceMap → Option Barrier
apply_sequence_rules type b m =
    if ltb b.rule_capacity (length m.rules)
    then none
    else if is_type b.type type
    then some (load_sequence_rules (set_sequence_map (clear b) m) m)
    else none

abbrev apply_timestamp_rules : BarrierType → Barrier → TimestampMap → Option Barrier
apply_timestamp_rules type b m =
    if ltb b.rule_capacity (length m.rules)
    then none
    else if is_type b.type type
    then some (load_timestamp_rules (set_timestamp_map (clear b) m) m)
    else none

unfoldable pub apply_sequence_map : Barrier → SequenceMap → Option Barrier
unfolding clear load_sequence_rules
apply_sequence_map = apply_sequence_rules sequence

unfoldable pub apply_timestamp_map : Barrier → TimestampMap → Option Barrier
unfolding clear load_timestamp_rules
apply_timestamp_map = apply_timestamp_rules timestamp

unfoldable pub apply_latest_value_sequence_map : Barrier → SequenceMap → Option Barrier
unfolding clear load_sequence_rules
apply_latest_value_sequence_map = apply_sequence_rules latest_value

unfoldable pub apply_latest_value_timestamp_map : Barrier → TimestampMap → Option Barrier
unfolding clear load_timestamp_rules
apply_latest_value_timestamp_map = apply_timestamp_rules latest_value
