-- ===== src/Discovery/Table.antt =====
-- The entries of src/discovery/tp_discovery_service.c and what changes them. A text is the list of
-- its bytes; `memory` says whether an allocation succeeds. A result is the return code, true for 0,
-- and the service.
use tensor_pool_c.Common.{
  ℕ, ◌*◌, Bool, true, false, not, ◌&&◌, ◌||◌, Option, none, some, List, [], ◌∷◌, ◌++◌, map, ltb,
  ◌==◌, if◌then◌else◌, length, take, any, find_first, update_first,
}
use tensor_pool_c.Common.Words.{null_u64, add64}

-- `tp_discovery_pool_entry_t`, and the pools of a `tp_shm_pool_announce_t`
pub record Pool : Type 0 where
  pub pool_id : ℕ
  pub pool_nslots : ℕ
  pub stride_bytes : ℕ
  pub region_uri : List ℕ

-- `tp_discovery_entry_t`
pub record Entry : Type 0 where
  pub stream_id : ℕ
  pub producer_id : ℕ
  pub epoch : ℕ
  pub layout_version : ℕ
  pub header_nslots : ℕ
  pub header_slot_bytes : ℕ
  pub max_dims : ℕ
  pub data_source_id : ℕ
  pub header_region_uri : List ℕ
  pub data_source_name : List ℕ
  pub tags : List (List ℕ)
  pub pools : List Pool
  pub pool_count : ℕ
  pub last_announce_ns : ℕ

-- `tp_discovery_service_t` with what it uses of its configuration.
pub record Service : Type 0 where
  pub announce_period_ms : ℕ
  pub max_results : ℕ
  pub entries : List Entry

-- `tp_shm_pool_announce_t`
pub record PoolAnnounce : Type 0 where
  pub stream_id : ℕ
  pub producer_id : ℕ
  pub epoch : ℕ
  pub layout_version : ℕ
  pub header_nslots : ℕ
  pub header_slot_bytes : ℕ
  pub header_region_uri : List ℕ
  pub pools : List Pool

-- `tp_data_source_announce_t`
pub record DataSourceAnnounce : Type 0 where
  pub stream_id : ℕ
  pub producer_id : ℕ
  pub epoch : ℕ
  pub name : Option (List ℕ)

abbrev pub is_stream : ℕ → Entry → Bool
is_stream stream_id e = e.stream_id == stream_id

-- `tp_discovery_find_entry`
unfoldable pub find_entry : Service → ℕ → Option Entry
find_entry s stream_id = if stream_id == 0 then none else find_first (is_stream stream_id) s.entries

-- The entry that `tp_discovery_entry_reserve` adds.
abbrev pub fresh_entry : ℕ → Entry
fresh_entry stream_id = record {
  stream_id = stream_id;
  producer_id = 0;
  epoch = 0;
  layout_version = 0;
  header_nslots = 0;
  header_slot_bytes = 0;
  max_dims = 8;
  data_source_id = null_u64;
  header_region_uri = [];
  data_source_name = [];
  tags = [];
  pools = [];
  pool_count = 0;
  last_announce_ns = 0;
}

-- `tp_discovery_entry_reserve`, of a stream id that is not 0; the entry is the first of the stream.
unfoldable pub reserve : Bool → Service → ℕ → Option Service
reserve memory s stream_id =
    if any (is_stream stream_id) s.entries
    then some s
    else if memory
    then some (record s { entries = s.entries ++ (fresh_entry stream_id ∷ []) })
    else none

-- `tp_discovery_entry_clear`
abbrev pub clear : Entry → Entry
clear e = record e { pools = []; pool_count = 0; tags = [] }

-- `strncpy` into a buffer of `size` bytes that ends with a NUL.
abbrev pub copy_text : ℕ → List ℕ → List ℕ
copy_text size text = take size text

abbrev pub copy_pool : Pool → Pool
copy_pool p = record p { region_uri = copy_text 4095 p.region_uri }

-- A result for the reserved entry, written back.
abbrev pub on_entry : Option Service → ℕ → (Entry → Bool × Entry) → Service → Bool × Service
on_entry none stream_id f s = (false, s)
on_entry (some s) stream_id f _ = elim (find_first (is_stream stream_id) s.entries) [
  | none ↦ (false, s)
  | some e ↦
      ((f e).0, record s { entries = update_first (is_stream stream_id) (λ e. (f e).1) s.entries })
]

-- What an announcement writes before it comes to the pools.
abbrev pub announced : PoolAnnounce → Entry → Entry
announced a e = record (clear e) {
  producer_id = a.producer_id;
  epoch = a.epoch;
  layout_version = a.layout_version;
  header_nslots = a.header_nslots;
  header_slot_bytes = a.header_slot_bytes;
  max_dims = 8;
  header_region_uri = copy_text 4095 a.header_region_uri;
  pool_count = length a.pools;
}

abbrev pub is_older : ℕ → Entry → Bool
is_older epoch e = not (e.epoch == 0) && ltb epoch e.epoch

unfoldable pub announce_entry : Bool → ℕ → PoolAnnounce → Entry → Bool × Entry
announce_entry memory now a e =
    if is_older a.epoch e
    then (true, e)
    else if not memory
    then (false, announced a e)
    else if any (λ p. not (p.pool_nslots == a.header_nslots)) a.pools
    then (false, clear (announced a e))
    else (true, record (announced a e) { pools = map copy_pool a.pools; last_announce_ns = now })

-- `tp_discovery_service_apply_announce`: `memory` for the entry, `pool_memory` for its pools.
unfoldable pub apply_announce :
    (memory pool_memory : Bool) → ℕ → Service → PoolAnnounce → Bool × Service
apply_announce memory pool_memory now s a =
    if (a.stream_id == 0)
      || not (a.header_slot_bytes == 256)
      || (length a.pools == 0)
      || (a.header_nslots == 0)
    then (false, s)
    else on_entry (reserve memory s a.stream_id) a.stream_id (announce_entry pool_memory now a) s

unfoldable pub data_source_entry : ℕ → DataSourceAnnounce → Entry → Bool × Entry
data_source_entry now a e = if is_older a.epoch e then (true, e) else (
  true,
  record e {
    producer_id = a.producer_id;
    epoch = a.epoch;
    data_source_name = elim a.name [ none ↦ e.data_source_name | some name ↦ copy_text 255 name ];
    last_announce_ns = now;
  },
)

-- `tp_discovery_service_apply_data_source`
unfoldable pub apply_data_source : Bool → ℕ → Service → DataSourceAnnounce → Bool × Service
apply_data_source memory now s a =
    if a.stream_id == 0
    then (false, s)
    else on_entry (reserve memory s a.stream_id) a.stream_id (data_source_entry now a) s

unfoldable pub tag_entry : Bool → ℕ → List (List ℕ) → Entry → Bool × Entry
tag_entry memory now tags e =
    if length tags == 0
    then (true, record e { tags = []; last_announce_ns = now })
    else if not memory
    then (false, record e { tags = [] })
    else (true, record e { tags = tags; last_announce_ns = now })

-- `tp_discovery_service_set_tags`: `tag_memory` for all the copies.
unfoldable pub set_tags :
    (memory tag_memory : Bool) → ℕ → Service → ℕ → List (List ℕ) → Bool × Service
set_tags memory tag_memory now s stream_id tags =
    if stream_id == 0
    then (false, s)
    else on_entry (reserve memory s stream_id) stream_id (tag_entry tag_memory now tags) s

-- `tp_discovery_expiry_ns`; 3 times 1000000 times a uint32_t fits in 64 bits.
abbrev pub expiry_ns : Service → ℕ
expiry_ns s =
    (if s.announce_period_ms == 0 then 1000 * 1000000 else s.announce_period_ms * 1000000) * 3

abbrev pub is_expired : ℕ → ℕ → Entry → Bool
is_expired now expiry e = not (e.last_announce_ns == 0) && ltb (add64 e.last_announce_ns expiry) now

-- The `while` of `tp_discovery_prune_expired`.
unfoldable pub prune_loop : ℕ → ℕ → List Entry → List Entry
prune_loop now expiry [] = []
prune_loop now expiry (e ∷ entries) =
    let rest = prune_loop now expiry entries in if is_expired now expiry e then rest else e ∷ rest

unfoldable pub prune_expired : ℕ → Service → Service
prune_expired now s = record s { entries = prune_loop now (expiry_ns s) s.entries }
