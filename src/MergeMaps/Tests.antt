-- ===== src/MergeMaps/Tests.antt =====
-- Runs of the registry of merge maps.
use tensor_pool_c.Common.{ℕ, ◌≡◌, refl, true, none, some, [], ◌∷◌}
use tensor_pool_c.JoinBarrier.Maps.{SequenceMap}
use tensor_pool_c.MergeMaps.Registry.{
  cleared, sequence_entry, init, invalidate_stream, put_slot, upsert, upsert_sequence,
  find_sequence, find_timestamp,
}
use tensor_pool_c.MergeMaps.Lookup

abbrev sums : ℕ → SequenceMap
sums epoch = record { out_stream_id = 9; epoch = epoch; stale_timeout_ns = 5; rules = [] }

init_test : init true 2 ≡ some (cleared ∷ cleared ∷ [])
unfolding init
init_test = refl

upsert_sequence-find_sequence_example :
    (find_sequence (sequence_entry (sums 4) 70 ∷ cleared ∷ []) 9 3 ≡ none)
    × (find_timestamp (sequence_entry (sums 4) 70 ∷ cleared ∷ []) 9 3
        ≡ find_timestamp (sequence_entry (sums 3) 60 ∷ cleared ∷ []) 9 3)
upsert_sequence-find_sequence_example =
    Lookup.upsert_sequence-find_sequence true (sequence_entry (sums 3) 60 ∷ cleared ∷ [])
      (sequence_entry (sums 4) 70 ∷ cleared ∷ []) (sums 4) 70 9 3
      (unfold upsert_sequence upsert invalidate_stream put_slot in refl)
