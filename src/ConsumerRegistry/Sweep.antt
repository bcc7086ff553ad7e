-- ===== src/ConsumerRegistry/Sweep.antt =====
-- `tp_consumer_registry_init`, `tp_consumer_registry_close`, `tp_consumer_registry_sweep` and
-- `tp_consumer_registry_aggregate_progress`.
use tensor_pool_c.Common.{
  ℕ, suc, Bool, true, false, ◌&&◌, Option, none, List, [], ◌∷◌, map, ltb, ◌==◌, if◌then◌else◌,
}
use tensor_pool_c.Common.Words.{sub64, null_u32}
use tensor_pool_c.ConsumerRegistry.State.{Entry, Policy}

-- `tp_consumer_registry_init`: `allocate n` is what the allocator gives for `n` entries.
unfoldable pub init : (ℕ → Option (List Entry)) → ℕ → Option (List Entry)
init allocate capacity = if capacity == 0 then none else allocate capacity

-- `tp_publication_close` on both publications.
abbrev pub close_publications : Entry → Entry
close_publications e = record e { descriptor_publication = none; control_publication = none }

-- `tp_consumer_registry_close`: the entries as they are when the array is freed.
unfoldable pub close : List Entry → List Entry
close entries = map close_publications entries

-- The time since the last hello is a 64-bit difference.
abbrev pub is_stale : ℕ → ℕ → Entry → Bool
is_stale now_ns stale_ns e = e.in_use && ltb stale_ns (sub64 now_ns e.last_seen_ns)

-- `tp_consumer_registry_sweep`: the entries, and how many were given up.
unfoldable pub sweep : List Entry → ℕ → ℕ → List Entry × ℕ
sweep [] now_ns stale_ns = ([], 0)
sweep (e ∷ entries) now_ns stale_ns =
    let rest = sweep entries now_ns stale_ns in
    if is_stale now_ns stale_ns e
    then (record (close_publications e) { in_use = false } ∷ rest.0, suc rest.1)
    else (e ∷ rest.0, rest.1)

-- One of the three running minima: the value, and whether an entry has set it.
abbrev pub lower : ℕ → ℕ × Bool → ℕ × Bool
lower wish acc =
    if wish == null_u32
    then acc
    else if acc.1
    then (if ltb wish acc.0 then wish else acc.0, true)
    else (wish, true)

-- The loop, for the field that `wish` reads.
unfoldable pub lowest : (Entry → ℕ) → List Entry → ℕ × Bool → ℕ × Bool
lowest wish [] acc = acc
lowest wish (e ∷ entries) acc =
    let next = if e.in_use && e.supports_progress then lower (wish e) acc else acc in
    lowest wish entries next

unfoldable pub aggregate_progress : List Entry → Policy
aggregate_progress entries = record {
  interval_us = (lowest (λ e. e.progress_interval_us) entries (250, false)).0;
  bytes_delta = (lowest (λ e. e.progress_bytes_delta) entries (65536, false)).0;
  major_delta_units = (lowest (λ e. e.progress_major_delta_units) entries (0, false)).0;
}
