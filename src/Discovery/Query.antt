-- ===== src/Discovery/Query.antt =====
-- `tp_discovery_service_query` of src/discovery/tp_discovery_service.c. A result is the entry that
-- `tp_discovery_result_fill` copies; what it adds of the configuration is left out, and the copies of
-- an entry's pools and tags are taken to succeed.
use mathlib.Core.Option
use tensor_pool_c.Common.{
  ℕ, Option, none, some, suc, Bool, true, false, not, ◌&&◌, ◌||◌, List, [], ◌∷◌, ltb, ◌==◌,
  if◌then◌else◌, length, any,
}
use tensor_pool_c.Common.Words.{null_u32, null_u64, add64}
use tensor_pool_c.Discovery.Table.{Entry, Service, expiry_ns, prune_expired}

-- `tp_discovery_request_t`; an empty name and a name that is missing are the same.
pub record Request : Type 0 where
  pub stream_id : ℕ
  pub producer_id : ℕ
  pub data_source_id : ℕ
  pub data_source_name : List ℕ
  pub tags : List (List ℕ)

-- `strcmp` says 0
abbrev pub same_text : List ℕ → List ℕ → Bool
same_text [] [] = true
same_text [] (y ∷ ys) = false
same_text (x ∷ xs) [] = false
same_text (x ∷ xs) (y ∷ ys) = (x == y) && same_text xs ys

unfoldable pub has_tag : Entry → List ℕ → Bool
has_tag e tag = any (λ t. same_text t tag) e.tags

-- The loop over the tags that are asked for.
abbrev pub has_tags : Entry → List (List ℕ) → Bool
has_tags e [] = true
has_tags e (tag ∷ tags) = if has_tag e tag then has_tags e tags else false

-- `tp_discovery_entry_matches`
unfoldable pub matches : Entry → Request → Bool
matches e request =
    if not (request.stream_id == null_u32) && not (request.stream_id == e.stream_id)
    then false
    else if not (request.producer_id == null_u32) && not (request.producer_id == e.producer_id)
    then false
    else if not (request.data_source_id == null_u64)
        && not (request.data_source_id == e.data_source_id)
    then false
    else if ltb 0 (length request.data_source_name)
        && not (same_text request.data_source_name e.data_source_name)
    then false
    else has_tags e request.tags

-- Both loops pass over an entry that was never announced or is too old.
abbrev pub is_live : ℕ → ℕ → Entry → Bool
is_live now expiry e = not ((e.last_announce_ns == 0) || ltb (add64 e.last_announce_ns expiry) now)

unfoldable pub match_count : ℕ → ℕ → Request → List Entry → ℕ
match_count now expiry request [] = 0
match_count now expiry request (e ∷ entries) =
    let rest = match_count now expiry request entries in
    if is_live now expiry e && matches e request then suc rest else rest

-- The entry counts pools but has none: what a failed `calloc` of
-- `tp_discovery_service_apply_announce` leaves.
abbrev pub lacks_pools : Entry → Bool
lacks_pools e = ltb (length e.pools) e.pool_count

-- The results; none where `tp_discovery_result_fill` copies from pools that are not there.
unfoldable pub fill_results : ℕ → ℕ → Request → List Entry → Option (List Entry)
fill_results now expiry request [] = some []
fill_results now expiry request (e ∷ entries) =
    let rest = fill_results now expiry request entries in
    if is_live now expiry e && matches e request
    then (if lacks_pools e then none else Option.map (◌∷◌ e) rest)
    else rest

-- A response, or a read through a null pointer.
pub data Response : Type 0 where
  results : List Entry → Response
  limit_exceeded failed crashes : Response

-- The clock is read at `prune_ns` and at `now`.
unfoldable pub query : Bool → (prune_ns now : ℕ) → Service → Request → Response × Service
query memory prune_ns now s request =
    let pruned = prune_expired prune_ns s in
    let count = match_count now (expiry_ns pruned) request pruned.entries in
    if ltb pruned.max_results count
    then (limit_exceeded, pruned)
    else if count == 0
    then (results [], pruned)
    else if not memory
    then (failed, pruned)
    else elim (fill_results now (expiry_ns pruned) request pruned.entries) [
      | none ↦ (crashes, pruned)
      | some found ↦ (results found, pruned)
    ]
