-- ===== src/JoinBarrier/Tests.antt =====
-- Tests of the join barrier's model, and its theorems at concrete inputs.
use tensor_pool_c.Common.{
  length, ℕ, ◌<◌, ◌≤◌, ◌≡◌, ◌≢◌, ◌⊎◌, inl, ◌↔◌, refl, true, false, none, some, List, [], ◌∷◌, arith,
}
use tensor_pool_c.Common.Words.{null_u64}
use tensor_pool_c.Common.Int.{pos, negsuc}
use tensor_pool_c.JoinBarrier.State.{
  sequence, timestamp, by_sequence, SequenceRule, TimestampRule, Input, Barrier, fresh_input,
  find_state, update_state, is_stale,
}
use tensor_pool_c.JoinBarrier.Maps.{
  SequenceMap, TimestampMap, clear, zeroed, load_each, load_sequence_rules, load_timestamp_rules,
  apply_sequence_map, apply_timestamp_map,
}
use tensor_pool_c.JoinBarrier.Update.{update_observed_seq, observe_seq}
use tensor_pool_c.JoinBarrier.Ready.{
  invalid, ready, not_ready, is_ready_sequence, sequence_loop, sequence_round, has_reached,
  is_ready_timestamp,
}
use tensor_pool_c.JoinBarrier.Sequence.{InputsReady, is_ready_sequence_iff}
use tensor_pool_c.JoinBarrier.Timestamp.{
  TimesReady, is_ready_timestamp_iff, is_ready_timestamp_order,
}
use tensor_pool_c.JoinBarrier.Progress.{
  update_observed_seq_accepts, update_observed_seq_effect, update_observed_seq_keeps_ready,
}
use tensor_pool_c.JoinBarrier.Fresh.{apply_sequence_map-not_ready}

-- Stream 1 two frames behind the output, stream 2 by a window of three.
abbrev rules : List SequenceRule
rules =
    record { input_stream_id = 1; rule_type = 0; offset = negsuc 1; window_size = 0 }
    ∷ record { input_stream_id = 2; rule_type = 1; offset = pos 0; window_size = 3 }
    ∷ []

abbrev opened : Barrier
opened = record {
  type = sequence;
  out_stream_id = 0;
  epoch = 0;
  stale_timeout_ns = 0;
  lateness_ns = 0;
  last_out_time_ns = 0;
  clock_domain = 0;
  allow_stale = false;
  require_processed = false;
  has_last_out_time = false;
  latest_ordering = by_sequence;
  rule_capacity = 4;
  sequence_rules = [];
  timestamp_rules = [];
  inputs = [];
  spare = fresh_input 0 0 ∷ fresh_input 0 0 ∷ fresh_input 0 0 ∷ fresh_input 0 0 ∷ [];
}

abbrev seen : ℕ → Input → Input
seen n s = record s {
  observed_seq = n;
  has_observed_seq = true;
  min_seq_in_epoch = n;
  has_min_seq_in_epoch = true;
  latest_valid = true;
  last_observed_update_ns = 1000;
}

abbrev one : Input
one = seen 8 (fresh_input 1 0)

abbrev joined : Barrier
joined = record opened { sequence_rules = rules; inputs = one ∷ seen 10 (fresh_input 2 0) ∷ [] }

abbrev joined_later : Barrier
joined_later = record joined {
  inputs =
      record (seen 9 (fresh_input 1 0)) { min_seq_in_epoch = 8 } ∷ seen 10 (fresh_input 2 0) ∷ [];
}

joined_ready : is_ready_sequence joined 10 0 ≡ ready
unfolding is_ready_sequence sequence_loop sequence_round has_reached is_stale
joined_ready = refl

not_eleven : is_ready_sequence joined 11 0 ≡ not_ready
unfolding is_ready_sequence sequence_loop sequence_round has_reached is_stale
not_eleven = refl

nine : update_observed_seq joined 1 9 1000 ≡ some joined_later
unfolding update_observed_seq find_state update_state observe_seq
nine = refl

one_found : find_state joined.inputs 1 ≡ some one
unfolding find_state
one_found = refl

is_ready_sequence_iff_example :
    (is_ready_sequence joined 10 0 ≡ ready)
    ↔ ((sequence ≡ sequence) × (0 < 2) × InputsReady joined rules joined.inputs 10 0)
is_ready_sequence_iff_example =
    is_ready_sequence_iff joined 10 0 (omega arith)
      ((omega arith, omega arith), ((omega arith, omega arith), tt))

update_observed_seq_accepts_example : (update_observed_seq joined 1 9 1000 ≢ none) ↔ (
    (s : Input) × (find_state joined.inputs 1 ≡ some s)
    × ((s.has_observed_seq ≡ false) ⊎ (s.observed_seq ≤ 9)))
update_observed_seq_accepts_example = update_observed_seq_accepts joined 1 9 1000

update_observed_seq_effect_example :
    (find_state joined_later.inputs 1
      ≡ some (record (seen 9 (fresh_input 1 0)) { min_seq_in_epoch = 8 }))
    × (joined_later ≡ record joined { inputs = joined_later.inputs })
update_observed_seq_effect_example =
    update_observed_seq_effect joined joined_later 1 1 9 1000 one one_found nine

update_observed_seq_keeps_ready_example : is_ready_sequence joined_later 10 5 ≡ ready
update_observed_seq_keeps_ready_example =
    update_observed_seq_keeps_ready joined joined_later 1 9 1000 10 0 5 refl joined_ready nine

abbrev sequence_map : SequenceMap
sequence_map = record { out_stream_id = 3; epoch = 1; stale_timeout_ns = 0; rules = rules }

abbrev reloaded : Barrier
reloaded = record opened {
  lateness_ns = null_u64;
  out_stream_id = 3;
  epoch = 1;
  sequence_rules = rules;
  inputs = fresh_input 1 0 ∷ fresh_input 2 0 ∷ [];
  spare = fresh_input 0 0 ∷ fresh_input 0 0 ∷ [];
}

reload : apply_sequence_map joined sequence_map ≡ some reloaded
unfolding apply_sequence_map load_sequence_rules load_each zeroed clear
reload = refl

apply_sequence_map-not_ready_example : is_ready_sequence reloaded 10 0 ≡ not_ready
apply_sequence_map-not_ready_example =
    apply_sequence_map-not_ready joined reloaded sequence_map 10 0 reload

abbrev time_rules : List TimestampRule
time_rules =
    record {
      input_stream_id = 1;
      rule_type = 0;
      timestamp_source = 0;
      offset_ns = negsuc 99;
      window_ns = 0;
    }
    ∷ []

abbrev timed_input : Input
timed_input = record (fresh_input 1 0) { observed_time_ns = 900; has_observed_time = true }

abbrev timed : Barrier
timed = record opened {
  type = timestamp;
  clock_domain = 1;
  has_last_out_time = true;
  last_out_time_ns = 500;
  timestamp_rules = time_rules;
  inputs = timed_input ∷ [];
}

is_ready_timestamp_iff_example : ((is_ready_timestamp timed 1000 1 0).1 ≡ ready) ↔ (
    (timestamp ≡ timestamp)
    × (0 < 1)
    × ((timed.clock_domain ≡ 0) ⊎ (1 ≡ timed.clock_domain))
    × ((true ≡ false) ⊎ (500 ≤ 1000))
    × TimesReady timed time_rules timed.inputs 1000 0)
is_ready_timestamp_iff_example =
    is_ready_timestamp_iff timed 1000 1 0 ((omega arith, omega arith, inl refl), tt)
      ((omega arith, omega arith), tt) (omega arith) (omega arith)

is_ready_timestamp_order_example :
    (((is_ready_timestamp timed 1000 1 0).0 ≡ timed)
      ⊎ (((is_ready_timestamp timed 1000 1 0).0 ≡ record timed { last_out_time_ns = 1000 })
          × (500 ≤ 1000)))
    × ((500 ≤ 1000)
        ⊎ (((is_ready_timestamp timed 1000 1 0).0 ≡ timed)
            × (((is_ready_timestamp timed 1000 1 0).1 ≡ invalid)
                ⊎ ((length timed.inputs ≡ 0)
                    × ((is_ready_timestamp timed 1000 1 0).1 ≡ not_ready)))))
is_ready_timestamp_order_example = is_ready_timestamp_order timed 1000 1 0 refl

abbrev timestamp_map : TimestampMap
timestamp_map = record {
  out_stream_id = 3;
  epoch = 1;
  stale_timeout_ns = 0;
  clock_domain = 1;
  lateness_ns = 5;
  rules = time_rules;
}

abbrev retimed : Barrier
retimed = record opened {
  type = timestamp;
  out_stream_id = 3;
  epoch = 1;
  clock_domain = 1;
  lateness_ns = 5;
  timestamp_rules = time_rules;
  inputs = fresh_input 1 0 ∷ [];
  spare = fresh_input 0 0 ∷ fresh_input 0 0 ∷ fresh_input 0 0 ∷ [];
}

retime : apply_timestamp_map timed timestamp_map ≡ some retimed
unfolding apply_timestamp_map load_timestamp_rules load_each zeroed clear
retime = refl
