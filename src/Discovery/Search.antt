-- ===== src/Discovery/Search.antt =====
-- What a search of the discovery service finds (src/discovery/tp_discovery_service.c).
use tensor_pool_c.Common.{
  ℕ, ◌≤◌, ◌≡◌, refl, leb, Option, none, some, Bool, true, false, not, ◌&&◌, ◌||◌, List, [], ◌∷◌,
  arith, ltb, ◌==◌, if◌then◌else◌, length, any,
}
use tensor_pool_c.Common.Words.{null_u32, null_u64, add64}
use tensor_pool_c.Discovery.Table.{Entry, Service, expiry_ns, is_expired, prune_loop, prune_expired}
use tensor_pool_c.Discovery.Query.{
  Request, lacks_pools, crashes, same_text, has_tag, has_tags, matches, is_live, match_count,
  fill_results, Response, results, limit_exceeded, failed, query,
}

-- The elements that pass.
abbrev pub select {ℓ} : {A : Type ℓ} → (A → Bool) → List A → List A
select p [] = []
select p (x ∷ xs) = if p x then x ∷ select p xs else select p xs

-- The request leaves a number open, or it is the entry's.
abbrev agrees : ℕ → ℕ → ℕ → Bool
agrees any_value asked found = (asked == any_value) || (asked == found)

-- The entry is what the request asks for, and has each of its tags.
abbrev pub is_asked_for : Request → Entry → Bool
is_asked_for request e =
    agrees null_u32 request.stream_id e.stream_id
    && agrees null_u32 request.producer_id e.producer_id
    && agrees null_u64 request.data_source_id e.data_source_id
    && ((length request.data_source_name == 0)
        || same_text request.data_source_name e.data_source_name)
    && not (any (λ tag. not (has_tag e tag)) request.tags)

has_tags-any :
    (e : Entry) (tags : List (List ℕ))
    → has_tags e tags ≡ not (any (λ tag. not (has_tag e tag)) tags)
has_tags-any e [] = refl
has_tags-any e (tag ∷ tags) = ground (arith, has_tags-any e tags)

matches-is_asked_for : (e : Entry) (request : Request) → matches e request ≡ is_asked_for request e
unfolding matches
matches-is_asked_for e request = ground (arith, has_tags-any e request.tags)

-- The entry has been announced, named or tagged, and that was no longer ago than `expiry`.
abbrev pub is_recent : ℕ → ℕ → Entry → Bool
is_recent now expiry e = ltb 0 e.last_announce_ns && leb now (add64 e.last_announce_ns expiry)

is_live-is_recent : (now expiry : ℕ) (e : Entry) → is_live now expiry e ≡ is_recent now expiry e
is_live-is_recent now expiry e = ground arith

-- The entries that a search is for.
abbrev pub wanted : ℕ → Service → Request → List Entry
wanted now s request =
    select (λ e. is_recent now (expiry_ns s) e && is_asked_for request e) s.entries

-- The response for them.
abbrev pub respond : Bool → ℕ → List Entry → Response
respond memory max_results found =
    if ltb max_results (length found)
    then limit_exceeded
    else if (length found == 0) || memory
    then (if any lacks_pools found then crashes else results found)
    else failed

-- An entry that is pruned is not live, then or later.
expired-not_live :
    (prune_ns now expiry : ℕ) (e : Entry)
    → prune_ns ≤ now
    → is_expired prune_ns expiry e ≡ true
    → is_live now expiry e ≡ false
expired-not_live prune_ns now expiry e le h = ground (arith, h, le)

-- What the second loop gives for the entries that it selects.
abbrev filled_with : List Entry → Option (List Entry)
filled_with found = if any lacks_pools found then none else some found

fill_results-select :
    (now expiry : ℕ) (request : Request) (entries : List Entry)
    → fill_results now expiry request entries
      ≡ filled_with (select (λ e. is_live now expiry e && matches e request) entries)
unfolding fill_results
fill_results-select now expiry request [] = refl
fill_results-select now expiry request (e ∷ entries) =
    ground (arith, fill_results-select now expiry request entries)

match_count-select :
    (now expiry : ℕ) (request : Request) (entries : List Entry)
    → match_count now expiry request entries
      ≡ length (select (λ e. is_live now expiry e && matches e request) entries)
unfolding match_count
match_count-select now expiry request [] = refl
match_count-select now expiry request (e ∷ entries) =
    ground (arith, match_count-select now expiry request entries)

-- The search finds after the pruning what it would find before.
select-prune_loop :
    (prune_ns now expiry : ℕ) (request : Request) (entries : List Entry)
    → prune_ns ≤ now
    → select (λ e. is_live now expiry e && matches e request) (prune_loop prune_ns expiry entries)
      ≡ select (λ e. is_recent now expiry e && is_asked_for request e) entries
unfolding prune_loop
select-prune_loop prune_ns now expiry request [] le = refl
select-prune_loop prune_ns now expiry request (e ∷ entries) le = ground (
  arith,
  is_live-is_recent now expiry e,
  matches-is_asked_for e request,
  expired-not_live prune_ns now expiry e le,
  select-prune_loop prune_ns now expiry request entries le,
)

-- The tests of the search on what its loops find.
abbrev answer : Bool → Service → List Entry → Response × Service
answer memory s found =
    if ltb s.max_results (length found)
    then (limit_exceeded, s)
    else if length found == 0
    then (results [], s)
    else if not memory
    then (failed, s)
    else elim (filled_with found) [ none ↦ (crashes, s) | some out ↦ (results out, s) ]

answer-respond :
    (memory : Bool) (s : Service) (found : List Entry)
    → (answer memory s found).0 ≡ respond memory s.max_results found
answer-respond memory s [] = ground arith
answer-respond memory s (e ∷ found) = ground arith

-- A search answers for exactly the entries that it is for: those of the table, as it stands before
-- the search, that were announced, named or tagged no longer before the second reading of the clock
-- than the expiry time, and have all that the request asks for. It gives them in their order; or an
-- error where they are more than the limit, or where they are not none and there is no memory for
-- them; and it crashes where it would give an entry that counts pools but has lost them. The first
-- reading of the clock is not later than the second.
pub query-wanted :
    (memory : Bool) (prune_ns now : ℕ) (s : Service) (request : Request)
    → prune_ns ≤ now
    → (query memory prune_ns now s request).0 ≡ respond memory s.max_results (wanted now s request)
unfolding query prune_expired
query-wanted memory prune_ns now s request le =
    rw
      (
        match_count-select now (expiry_ns s) request (prune_loop prune_ns (expiry_ns s) s.entries),
        fill_results-select now (expiry_ns s) request (prune_loop prune_ns (expiry_ns s) s.entries),
        select-prune_loop prune_ns now (expiry_ns s) request s.entries le,
      )
      (answer-respond memory (prune_expired prune_ns s) (wanted now s request))
