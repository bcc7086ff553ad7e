-- ===== src/Driver/State.antt =====
-- The driver's state, and the operations of src/driver/tp_driver.c on one table of it: streams,
-- leases, epochs and the lease counter. What the operating system answers during one call (clocks,
-- random seeds, allocations, file creation) is the record `Env`.
use tensor_pool_c.Common.{
  ℕ, ◌+◌, ◌-◌, ◌*◌, ◌%◌, ◌^◌, Bool, true, false, Option, none, some, List, [], ◌∷◌, ◌++◌, ltb, leb,
  ◌==◌, if◌then◌else◌, length, remove_at, find_first, update_first, any,
}
use tensor_pool_c.Common.Words.{add64}

-- `tp_driver_profile_t`. A name is its bytes; the pools stand for `pools` with `pool_count`.
pub record PoolDef : Type 0 where
  pub pool_id : ℕ
  pub stride_bytes : ℕ

pub record Profile : Type 0 where
  pub name : List ℕ
  pub header_nslots : ℕ
  pub pools : List PoolDef

-- `tp_driver_id_range_t`
pub record IdRange : Type 0 where
  pub start : ℕ
  pub end : ℕ
  pub next : ℕ

-- `tp_driver_stream_def_t`, without the name, which the driver does not read.
pub record StreamDef : Type 0 where
  pub stream_id : ℕ
  pub profile : Option Profile

-- The fields of `tp_driver_config_t` that the lease logic reads.
pub record Config : Type 0 where
  pub require_hugepages : Bool
  pub allow_dynamic_streams : Bool
  pub default_profile : List ℕ
  pub announce_period_ms : ℕ
  pub lease_keepalive_interval_ms : ℕ
  pub lease_expiry_grace_intervals : ℕ
  pub node_id_reuse_cooldown_ms : ℕ
  pub stream_id_ranges : List IdRange
  pub profiles : List Profile
  pub streams : List StreamDef

-- `tp_driver_lease_t`
pub record Lease : Type 0 where
  pub lease_id : ℕ
  pub expiry_ns : ℕ
  pub issued_ns : ℕ
  pub stream_id : ℕ
  pub client_id : ℕ
  pub node_id : ℕ
  pub role : ℕ

-- `tp_driver_node_id_cooldown_t`
pub record Cooldown : Type 0 where
  pub node_id : ℕ
  pub expires_ns : ℕ

-- `tp_driver_stream_state_t`. `last_announce_ns` is written by nothing here.
pub record Stream : Type 0 where
  pub stream_id : ℕ
  pub profile : Option Profile
  pub epoch : ℕ
  pub epoch_created_ns : ℕ
  pub producer_lease_id : ℕ
  pub producer_client_id : ℕ
  pub require_hugepages : Bool

-- `tp_driver_t`. A table is a list, whose length is the count; the capacities are those of the
-- arrays behind it.
pub record Driver : Type 0 where
  pub config : Config
  pub streams : List Stream
  pub leases : List Lease
  pub lease_capacity : ℕ
  pub lease_counter : ℕ
  pub next_announce_ns : ℕ
  pub cooldowns : List Cooldown
  pub cooldown_capacity : ℕ

-- What one call of the driver gets from outside: the readings of `tp_clock_now_ns`, by place; the
-- bits behind `tp_driver_seed_u64`, by draw; whether `realloc` gives memory; whether the region
-- files of an epoch could be created, and whether the base directory lies on hugetlbfs. Where a
-- loop asks more than once, the answers are indexed by the rounds that it has left.
pub record Env : Type 0 where
  pub now : ℕ
  pub check_ns : ℕ
  pub node_ns : ℕ
  pub epoch_ns : ℕ → ℕ
  pub created_ns : ℕ → ℕ
  pub entropy : ℕ → ℕ
  pub stream_memory : Bool
  pub lease_memory : Bool
  pub cooldown_memory : ℕ → Bool
  pub files_created : ℕ → Bool
  pub hugepages_dir : Bool

-- `tensor_pool_role`, and the null value of a node id (schemas/driver-schema.xml)
abbrev pub producer : ℕ
producer = 1

abbrev pub consumer : ℕ
consumer = 2

abbrev pub null_node_id : ℕ
null_node_id = 2 ^ 32 - 1

-- `tensor_pool_responseCode`
pub data Code : Type 0 where
  ok invalid_params rejected internal_error : Code

-- `tensor_pool_leaseRevokeReason`
pub data Reason : Type 0 where
  detached expired : Reason

-- What an accepting `tp_driver_send_attach_response` carries of the stream and of the lease.
pub record Grant : Type 0 where
  pub lease : Lease
  pub epoch : ℕ
  pub require_hugepages : Bool

-- The messages that a call hands to the `tp_driver_send_…` functions, in order. Their error texts
-- are left out.
pub data Message : Type 0 where
  attach_response : (correlation_id : ℕ) → Code → Option Grant → Message
  detach_response : (correlation_id : ℕ) → Code → Message
  lease_revoked : Lease → Reason → Message
  announce : (stream_id producer_id epoch : ℕ) → Message

-- `tp_driver_seed_u64` from the 64 bits that it has drawn: `& 0x7fffffffffffffff`, and never 0.
unfoldable pub seed_u64 : ℕ → ℕ
seed_u64 bits = let seed = bits % 2 ^ 63 in if seed == 0 then 1 else seed

-- The common start of `tp_driver_next_lease_id` and `tp_driver_next_node_id`.
unfoldable pub seed_counter : Env → Driver → ℕ
unfolding seed_u64
seed_counter env d = if d.lease_counter == 0 then seed_u64 (env.entropy 0) else d.lease_counter

-- The new value of the counter, which is also the id.
unfoldable pub next_lease_id : Env → Driver → ℕ
unfolding seed_counter
next_lease_id env d =
    let counter = add64 (seed_counter env d) 1 in if counter == 0 then add64 counter 1 else counter

unfoldable pub find_stream : List Stream → ℕ → Option Stream
find_stream streams stream_id =
    if stream_id == 0 then none else find_first (λ s. s.stream_id == stream_id) streams

-- A write through the pointer that `tp_driver_find_stream` returned.
unfoldable pub update_stream : ℕ → (Stream → Stream) → List Stream → List Stream
update_stream stream_id f streams =
    if stream_id == 0 then streams else update_first (λ s. s.stream_id == stream_id) f streams

unfoldable pub client_id_in_use : List Lease → ℕ → Bool
client_id_in_use leases client_id =
    if client_id == 0 then true else any (λ l. l.client_id == client_id) leases

unfoldable pub node_id_in_use : List Lease → ℕ → Bool
node_id_in_use leases node_id =
    if node_id == null_node_id then false else any (λ l. l.node_id == node_id) leases

unfoldable pub find_lease : List Lease → ℕ → Option Lease
find_lease leases lease_id =
    if lease_id == 0 then none else find_first (λ l. l.lease_id == lease_id) leases

unfoldable pub add_stream : Env → Driver → ℕ → Profile → Option Driver
add_stream env d stream_id profile =
    if env.stream_memory then some (record d { streams = d.streams ++ (fresh ∷ []) }) else none
  where
    fresh : Stream
    fresh = record {
      stream_id = stream_id;
      profile = some profile;
      epoch = 0;
      epoch_created_ns = 0;
      producer_lease_id = 0;
      producer_client_id = 0;
      require_hugepages = d.config.require_hugepages;
    }

-- The array grows by doubling, from 8; `none` is a `realloc` that fails.
unfoldable pub add_lease : Env → Driver → Lease → Option Driver
add_lease env d lease =
    if ltb d.lease_capacity (length d.leases + 1)
    then (if env.lease_memory
        then some (record d { leases = grown; lease_capacity = new_capacity })
        else none)
    else some (record d { leases = grown })
  where
    grown : List Lease
    grown = d.leases ++ (lease ∷ [])

    new_capacity : ℕ
    new_capacity = if d.lease_capacity == 0 then 8 else d.lease_capacity * 2

-- `remove_at` past the end changes nothing, as the code's check.
unfoldable pub remove_lease : ℕ → Driver → Driver
remove_lease index d = record d { leases = remove_at index d.leases }

-- `now <= stream->epoch` steps by one, else the clock is taken.
unfoldable pub bump_epoch : ℕ → Stream → Stream
bump_epoch now s =
    if leb now s.epoch then record s { epoch = add64 s.epoch 1 } else record s { epoch = now }

unfoldable pub release_producer : ℕ → Stream → Stream
release_producer lease_id s =
    if s.producer_lease_id == lease_id
    then record s { producer_lease_id = 0; producer_client_id = 0 }
    else s

-- The files are the environment's; what stays of them in the state is the time of creation.
-- The stream's new state and whether the call returned 0.
unfoldable pub create_shm_epoch : Env → ℕ → Stream → Stream × Bool
create_shm_epoch env k s = elim s.profile [
  | none ↦ (s, false)
  | some _ ↦
      if env.files_created k
      then (record s { epoch_created_ns = env.created_ns k }, true)
      else (s, false)
]
