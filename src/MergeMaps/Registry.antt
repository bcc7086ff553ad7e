-- ===== src/MergeMaps/Registry.antt =====
-- `tp_merge_map_registry_t` and its functions, src/common/tp_merge_map.c. The registry is the list of
-- its entries, `capacity` its length; `memory` says whether an allocation succeeds. A result is the
-- return code, true for 0, and the registry. A map that is passed in has its rules, be they none.
use tensor_pool_c.Common.{
  ℕ, zero, suc, Bool, true, false, not, ◌&&◌, ◌||◌, Option, none, some, List, [], ◌∷◌, ◌==◌,
  if◌then◌else◌, length, any, find_first, update_first,
}
use tensor_pool_c.JoinBarrier.Maps.{SequenceMap, TimestampMap}

-- `TP_MERGE_MAP_SEQUENCE` and `TP_MERGE_MAP_TIMESTAMP`
abbrev pub sequence_kind : ℕ
sequence_kind = 1

abbrev pub timestamp_kind : ℕ
timestamp_kind = 2

-- `tp_merge_map_entry_t`; a map is none where its field is zero.
pub record Entry : Type 0 where
  pub in_use : Bool
  pub kind : ℕ
  pub out_stream_id : ℕ
  pub epoch : ℕ
  pub last_announce_ns : ℕ
  pub rule_count : ℕ
  pub sequence_map : Option SequenceMap
  pub timestamp_map : Option TimestampMap

-- `tp_merge_map_entry_clear`
abbrev pub cleared : Entry
cleared = record {
  in_use = false;
  kind = 0;
  out_stream_id = 0;
  epoch = 0;
  last_announce_ns = 0;
  rule_count = 0;
  sequence_map = none;
  timestamp_map = none;
}

abbrev blank : ℕ → List Entry
blank zero = []
blank (suc n) = cleared ∷ blank n

-- `tp_merge_map_registry_init`
unfoldable pub init : Bool → ℕ → Option (List Entry)
init memory capacity =
    if capacity == 0 then none else if memory then some (blank capacity) else none

abbrev pub is_entry : (kind out_stream_id epoch : ℕ) → Entry → Bool
is_entry kind out_stream_id epoch e =
    e.in_use && (e.kind == kind) && (e.out_stream_id == out_stream_id) && (e.epoch == epoch)

-- `tp_merge_map_registry_find_entry`
abbrev pub find_entry : (kind out_stream_id epoch : ℕ) → List Entry → Option Entry
find_entry kind out_stream_id epoch entries = find_first (is_entry kind out_stream_id epoch) entries

abbrev pub is_outdated : (kind out_stream_id epoch : ℕ) → Entry → Bool
is_outdated kind out_stream_id epoch e =
    e.in_use && (e.kind == kind) && (e.out_stream_id == out_stream_id) && not (e.epoch == epoch)

-- `tp_merge_map_registry_invalidate_stream`
unfoldable pub invalidate_stream : (kind out_stream_id epoch : ℕ) → List Entry → List Entry
invalidate_stream kind out_stream_id epoch [] = []
invalidate_stream kind out_stream_id epoch (e ∷ entries) =
    (if is_outdated kind out_stream_id epoch e then cleared else e)
    ∷ invalidate_stream kind out_stream_id epoch entries

abbrev pub is_unused : Entry → Bool
is_unused e = not e.in_use

-- The entry that `tp_merge_map_registry_find_slot` gives, overwritten; none if there is none.
unfoldable pub put_slot : (kind out_stream_id epoch : ℕ) → Entry → List Entry → Option (List Entry)
put_slot kind out_stream_id epoch new entries =
    if any (is_entry kind out_stream_id epoch) entries
    then some (update_first (is_entry kind out_stream_id epoch) (λ _. new) entries)
    else if any is_unused entries
    then some (update_first is_unused (λ _. new) entries)
    else none

-- Both upserts: `new` is the entry that they fill, and the memory is for its rules.
unfoldable pub upsert : Bool → Entry → List Entry → Bool × List Entry
upsert memory new entries =
    let valid = invalidate_stream new.kind new.out_stream_id new.epoch entries in
    let given = memory || (new.rule_count == 0) in
    elim (put_slot new.kind new.out_stream_id new.epoch (if given then new else cleared) valid) [
      | none ↦ (false, valid)
      | some entries' ↦ (given, entries')
    ]

abbrev pub sequence_entry : SequenceMap → ℕ → Entry
sequence_entry m now_ns = record {
  in_use = true;
  kind = sequence_kind;
  out_stream_id = m.out_stream_id;
  epoch = m.epoch;
  last_announce_ns = now_ns;
  rule_count = length m.rules;
  sequence_map = some m;
  timestamp_map = none;
}

abbrev pub timestamp_entry : TimestampMap → ℕ → Entry
timestamp_entry m now_ns = record {
  in_use = true;
  kind = timestamp_kind;
  out_stream_id = m.out_stream_id;
  epoch = m.epoch;
  last_announce_ns = now_ns;
  rule_count = length m.rules;
  sequence_map = none;
  timestamp_map = some m;
}

-- `tp_merge_map_registry_upsert_sequence` and `tp_merge_map_registry_upsert_timestamp`
unfoldable pub upsert_sequence : Bool → List Entry → SequenceMap → ℕ → Bool × List Entry
upsert_sequence memory entries m now_ns = upsert memory (sequence_entry m now_ns) entries

unfoldable pub upsert_timestamp : Bool → List Entry → TimestampMap → ℕ → Bool × List Entry
upsert_timestamp memory entries m now_ns = upsert memory (timestamp_entry m now_ns) entries

-- `tp_merge_map_registry_find_sequence` and `tp_merge_map_registry_find_timestamp`
unfoldable pub find_sequence : List Entry → ℕ → ℕ → Option SequenceMap
find_sequence entries out_stream_id epoch =
    elim (find_entry sequence_kind out_stream_id epoch entries) [
      | none ↦ none
      | some e ↦ e.sequence_map
    ]

unfoldable pub find_timestamp : List Entry → ℕ → ℕ → Option TimestampMap
find_timestamp entries out_stream_id epoch =
    elim (find_entry timestamp_kind out_stream_id epoch entries) [
      | none ↦ none
      | some e ↦ e.timestamp_map
    ]
