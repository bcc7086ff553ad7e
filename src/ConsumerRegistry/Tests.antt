-- ===== src/ConsumerRegistry/Tests.antt =====
-- Tests of the registry's model, and its theorems at concrete inputs.
use tensor_pool_c.Common.{
  contains, All, ℕ, ◌≡◌, ◌⊎◌, ◌↔◌, refl, true, false, none, some, List, [], ◌∷◌,
}
use tensor_pool_c.ConsumerRegistry.State.{Entry, Hello, Request, fresh_entry, find}
use tensor_pool_c.ConsumerRegistry.Update.{
  request_validate, copy_string_view, requested_channel, fill, place, update,
}
use tensor_pool_c.ConsumerRegistry.Sweep.{sweep, lowest, aggregate_progress}
use tensor_pool_c.ConsumerRegistry.Lookup.{IsRegistry, HalfAsked, ids, update-lookup, update_fails}
use tensor_pool_c.ConsumerRegistry.Sweeps.{hello_at, sweep_at, run, sweep-lookup, run-IsRegistry}
use tensor_pool_c.ConsumerRegistry.Wishes.{LeastWish, aggregate_progress-least}

abbrev unused : Entry
unused = record (fresh_entry 0) { in_use = false }

abbrev blank : List Entry
blank = unused ∷ unused ∷ []

-- Consumer `c` wants its progress every `interval` us, and a descriptor stream of its own.
abbrev hello : ℕ → ℕ → Hello
hello c interval = record {
  consumer_id = c;
  supports_progress = true;
  mode = 1;
  max_rate_hz = 0;
  progress_interval_us = interval;
  progress_bytes_delta = 4294967295;
  progress_major_delta_units = 4294967295;
  descriptor_stream_id = 44;
  control_stream_id = 0;
  descriptor_channel = 97 ∷ 98 ∷ [];
  control_channel = [];
}

abbrev request : Request
request = record { descriptor_requested = true; control_requested = false }

abbrev entry_of : ℕ → ℕ → ℕ → Entry
entry_of c interval now_ns = record (fresh_entry c) {
  last_seen_ns = now_ns;
  mode = 1;
  supports_progress = true;
  progress_interval_us = interval;
  progress_bytes_delta = 4294967295;
  progress_major_delta_units = 4294967295;
  descriptor_stream_id = 44;
  descriptor_channel = 97 ∷ 98 ∷ [];
}

abbrev both : List Entry
both = entry_of 5 100 10 ∷ entry_of 6 90 20 ∷ []

asked : request_validate (hello 6 90) ≡ some request
unfolding request_validate
asked = refl

second : update (entry_of 5 100 10 ∷ unused ∷ []) (hello 6 90) 20 ≡ some (both, 1)
unfolding update place request_validate fill requested_channel copy_string_view
second = refl

filled : run blank (hello_at (hello 5 100) 10 ∷ hello_at (hello 6 90) 20 ∷ []) ≡ both
unfolding run update place request_validate fill requested_channel copy_string_view
filled = refl

update-lookup_example : find both 6 ≡ some (entry_of 6 90 20)
unfolding fill requested_channel copy_string_view find
update-lookup_example =
    update-lookup (entry_of 5 100 10 ∷ unused ∷ []) (hello 6 90) request 20 6 (both, 1) asked second

update_fails_example : (update both (hello 7 80) 30 ≡ none) ↔ (
    HalfAsked (hello 7 80).descriptor_channel (hello 7 80).descriptor_stream_id
    ⊎ HalfAsked (hello 7 80).control_channel (hello 7 80).control_stream_id
    ⊎ ((contains 7 (ids both) ≡ false) × All (λ e. e.in_use ≡ true) both))
update_fails_example = update_fails both (hello 7 80) 30

sweep-lookup_example : find (sweep both 1015 1000).0 5 ≡ none
unfolding find
sweep-lookup_example = sweep-lookup both 1015 1000 5 (refl, (refl, tt))

run-IsRegistry_example :
    IsRegistry
      (run blank (hello_at (hello 5 100) 10 ∷ sweep_at 5000 1000 ∷ hello_at (hello 5 70) 5001 ∷ []))
run-IsRegistry_example =
    run-IsRegistry blank
      (hello_at (hello 5 100) 10 ∷ sweep_at 5000 1000 ∷ hello_at (hello 5 70) 5001 ∷ [])
      (refl, (refl, tt))

ninety : (aggregate_progress both).interval_us ≡ 90
unfolding aggregate_progress lowest
ninety = refl

aggregate_progress-least_example :
    LeastWish (λ e. e.progress_interval_us) 250 both (aggregate_progress both).interval_us
    × LeastWish (λ e. e.progress_bytes_delta) 65536 both (aggregate_progress both).bytes_delta
    × LeastWish
        (λ e. e.progress_major_delta_units)
        0
        both
        (aggregate_progress both).major_delta_units
aggregate_progress-least_example = aggregate_progress-least both
