-- ===== src/Discovery/Tests.antt =====
-- Runs of the table of the discovery service.
use tensor_pool_c.Common.{
  ℕ, ◌≤◌, ◌≡◌, refl, true, false, none, some, List, [], ◌∷◌, arith, Distinct,
}
use tensor_pool_c.Common.Words.{null_u32, null_u64}
use tensor_pool_c.Discovery.Table.{
  prune_expired, prune_loop, Pool, Entry, Service, PoolAnnounce, find_entry, reserve,
  announce_entry, apply_announce, tag_entry, set_tags,
}
use tensor_pool_c.Discovery.Query.{
  Request, results, crashes, query, matches, match_count, fill_results,
}
use tensor_pool_c.Discovery.Search
use tensor_pool_c.Discovery.Search.{respond, wanted}
use tensor_pool_c.Discovery.Streams.{
  Event, announces, names, tags, asks, stream_ids, step, run_events,
}
use tensor_pool_c.Discovery.Streams

abbrev pool : Pool
pool = record { pool_id = 1; pool_nslots = 8; stride_bytes = 4096; region_uri = 115 ∷ 104 ∷ [] }

abbrev announce : ℕ → ℕ → PoolAnnounce
announce stream_id epoch = record {
  stream_id = stream_id;
  producer_id = 3;
  epoch = epoch;
  layout_version = 1;
  header_nslots = 8;
  header_slot_bytes = 256;
  header_region_uri = 115 ∷ 104 ∷ [];
  pools = pool ∷ [];
}

abbrev bare : Service
bare = record { announce_period_ms = 1; max_results = 10; entries = [] }

abbrev entry : Entry
entry = record {
  stream_id = 7;
  producer_id = 3;
  epoch = 4;
  layout_version = 1;
  header_nslots = 8;
  header_slot_bytes = 256;
  max_dims = 8;
  data_source_id = null_u64;
  header_region_uri = 115 ∷ 104 ∷ [];
  data_source_name = [];
  tags = [];
  pools = pool ∷ [];
  pool_count = 1;
  last_announce_ns = 500;
}

abbrev service : Service
service = record bare { entries = entry ∷ [] }

-- An announcement makes the entry, an older one leaves it, and one of other pools clears it.
announce_test :
    run_events bare
      (announces true true 500 (announce 7 4) ∷ announces true true 600 (announce 7 3) ∷ [])
    ≡ service
unfolding run_events step apply_announce announce_entry reserve
announce_test = refl

-- Tags do not outlive the next announcement.
tags_test :
    run_events service
      (tags true true 400 7 ((120 ∷ []) ∷ []) ∷ announces true true 500 (announce 7 4) ∷ [])
    ≡ service
unfolding run_events step apply_announce announce_entry reserve set_tags tag_entry
tags_test = refl

abbrev any_stream : Request
any_stream = record {
  stream_id = null_u32;
  producer_id = 3;
  data_source_id = null_u64;
  data_source_name = [];
  tags = [];
}

query-wanted_example :
    (query true 600 700 service any_stream).0 ≡ respond true 10 (wanted 700 service any_stream)
query-wanted_example = Search.query-wanted true 600 700 service any_stream (omega arith)

respond_test : respond true 10 (wanted 700 service any_stream) ≡ results service.entries
unfolding matches
respond_test = refl

-- Where the pools of a new announcement get no memory, a search for the entry crashes.
crash_test :
    (query true 600 700
      (run_events service (announces true false 600 (announce 7 5) ∷ []))
      any_stream).0
    ≡ crashes
unfolding query prune_expired match_count fill_results matches run_events step apply_announce
    announce_entry reserve prune_loop
crash_test = refl

abbrev events : List Event
events =
    announces true true 600 (announce 7 5)
    ∷ announces false true 650 (announce 8 5)
    ∷ names true 700 (record { stream_id = 7; producer_id = 3; epoch = 4; name = none })
    ∷ []

run_events_distinct_example : Distinct (stream_ids (run_events service events).entries)
run_events_distinct_example = Streams.run_events_distinct service events (refl, tt)

run_events_epoch_example :
    (e' : Entry) × ((find_entry (run_events service events) 7 ≡ some e') × (4 ≤ e'.epoch))
run_events_epoch_example =
    Streams.run_events_epoch service events 7 entry (refl, (refl, (refl, tt)))
      (unfold find_entry in refl)
