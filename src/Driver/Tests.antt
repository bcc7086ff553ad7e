-- ===== src/Driver/Tests.antt =====
-- Tests of the driver's model, and its theorems at concrete inputs.
use tensor_pool_c.Common.{
  ℕ, ◌+◌, ◌<◌, ◌≡◌, refl, true, false, none, some, List, [], ◌∷◌, arith, get_elem?,
}
use tensor_pool_c.Driver.State.{
  Profile, Config, Lease, Cooldown, Stream, Driver, Env, producer, consumer, next_lease_id,
  find_stream, update_stream, client_id_in_use, node_id_in_use, add_lease, bump_epoch,
  create_shm_epoch,
}
use tensor_pool_c.Driver.Cooldowns.{prune, prune_loop, record_cooldown, node_id_in_cooldown}
use tensor_pool_c.Driver.Cooldowns.Expiry.{
  Use, records, asks, use_cooldowns, record_cooldown-blocks,
}
use tensor_pool_c.Driver.Ids.{next_node_id}
use tensor_pool_c.Driver.Ids.Fresh.{Chosen, next_node_id-Chosen}
use tensor_pool_c.Driver.Ownership.Answer.{IsAnswer, attach-IsAnswer}
use tensor_pool_c.Driver.Attach.{
  AttachRequest, attach, resolve_stream, attach_resolved, attach_to_stream, check_node_id,
  hugepages_refused, should_require_hugepages, open_epoch, grant, assign_node_id, new_lease,
  lease_expiry, record_lease, take_stream,
}
use tensor_pool_c.Driver.Leases.{DetachRequest, detach, expire_lease, handle_expired_leases}
use tensor_pool_c.Driver.Run.{init, Event, attach_request, run}
use tensor_pool_c.Driver.Ownership.Attach.{IsOwned}
use tensor_pool_c.Driver.Ownership.Run.{run-IsOwned, run_one_producer}
use tensor_pool_c.Driver.Epochs.Attach.{epoch_of, detach_keeps_epoch, expire_lease_grows_epoch}
use tensor_pool_c.Driver.Epochs.Sweep.{live, handle_expired_leases-live}

abbrev profile : Profile
profile = record {
  name = 112 ∷ [];
  header_nslots = 8;
  pools = record { pool_id = 1; stride_bytes = 4096 } ∷ [];
}

abbrev config : Config
config = record {
  require_hugepages = false;
  allow_dynamic_streams = false;
  default_profile = [];
  announce_period_ms = 0;
  lease_keepalive_interval_ms = 1;
  lease_expiry_grace_intervals = 3;
  node_id_reuse_cooldown_ms = 10;
  stream_id_ranges = [];
  profiles = profile ∷ [];
  streams = record { stream_id = 7; profile = some profile } ∷ [];
}

-- The world at time `t`.
abbrev at : ℕ → Env
at t = record {
  now = t;
  check_ns = t;
  node_ns = t;
  epoch_ns = λ _. t;
  created_ns = λ _. t;
  entropy = λ k. 1000 + k;
  stream_memory = true;
  lease_memory = true;
  cooldown_memory = λ _. true;
  files_created = λ _. true;
  hugepages_dir = false;
}

abbrev join : ℕ → ℕ → ℕ → AttachRequest
join role client node = record {
  correlation_id = 1;
  stream_id = 7;
  client_id = client;
  role = some role;
  expected_layout_version = 1;
  publish_mode = none;
  require_hugepages = none;
  desired_node_id = node;
}

-- A producer and a consumer attach.
abbrev events : List Event
events =
    attach_request (at 100) (join producer 11 501)
    ∷ attach_request (at 200) (join consumer 12 502)
    ∷ []

abbrev attached : Driver
attached = run (init config) events

abbrev leases_of : Driver → List ℕ
leases_of d = mathlib.Core.List.map (λ l. l.lease_id) d.leases

abbrev lease_one : Lease
lease_one = record {
  lease_id = 1001;
  expiry_ns = 3000100;
  issued_ns = 100;
  stream_id = 7;
  client_id = 11;
  node_id = 501;
  role = 1;
}

two_leases : leases_of attached ≡ 1001 ∷ 1002 ∷ []
unfolding run init attach find_stream client_id_in_use resolve_stream attach_resolved
    attach_to_stream check_node_id node_id_in_use node_id_in_cooldown prune hugepages_refused
    should_require_hugepages open_epoch create_shm_epoch bump_epoch update_stream grant
    assign_node_id next_lease_id new_lease lease_expiry record_lease add_lease take_stream
two_leases = refl

first_lease : get_elem? attached.leases 0 ≡ some lease_one
unfolding run init attach find_stream client_id_in_use resolve_stream attach_resolved
    attach_to_stream check_node_id node_id_in_use node_id_in_cooldown prune hugepages_refused
    should_require_hugepages open_epoch create_shm_epoch bump_epoch update_stream grant
    assign_node_id next_lease_id new_lease lease_expiry record_lease add_lease take_stream
first_lease = refl

run-IsOwned_example : IsOwned attached
run-IsOwned_example = run-IsOwned config events (omega arith)

run_one_producer_example : ◌≡◌ {A = ℕ} 0 0
run_one_producer_example =
    run_one_producer config events 0 0 lease_one lease_one (omega arith) first_lease first_lease
      refl refl refl

-- The cooldown of node 501, given up at 100, ends at 10000100.
abbrev cooling : List Cooldown
cooling =
    record { node_id = 501; expires_ns = 10000100 }
    ∷ record { node_id = 502; expires_ns = 300 }
    ∷ []

given_up :
    (record_cooldown true 100 501 (init config)).cooldowns
    ≡ record { node_id = 501; expires_ns = 10000100 } ∷ []
unfolding record_cooldown prune prune_loop init
given_up = refl

-- Meanwhile 502 is given up and asked for, and 501 is given up once more.
abbrev uses : List Use
uses = records true 200 502 ∷ asks 300 502 ∷ records false 400 501 ∷ []

record_cooldown-blocks_example :
    (node_id_in_cooldown 5000 501
      (use_cooldowns (record_cooldown true 100 501 (init config)) uses).cooldowns).1
    ≡ true
unfolding init
record_cooldown-blocks_example =
    record_cooldown-blocks 100 5000 501 (init config) uses (omega arith) (omega arith) (omega arith)
      (omega arith) (omega arith) (omega arith)
      ((omega arith, omega arith), ((omega arith, omega arith), ((omega arith, omega arith), tt)))

next_node_id-Chosen_example : Chosen attached (next_node_id (at 300) attached)
next_node_id-Chosen_example = next_node_id-Chosen (at 300) attached

-- A driver that may make streams of its own.
abbrev dynamic : Driver
dynamic = init (record config { stream_id_ranges = record { start = 7; end = 9; next = 7 } ∷ [] })

abbrev after_allocation : Driver
after_allocation =
    init (record config { stream_id_ranges = record { start = 7; end = 9; next = 9 } ∷ [] })

-- The producer's lease runs out first.
handle_expired_leases-live_example :
    (handle_expired_leases (at 3000150) attached).0.leases ≡ live 3000150 attached.leases
handle_expired_leases-live_example = handle_expired_leases-live (at 3000150) attached

abbrev taken : Stream
taken = record {
  stream_id = 7;
  epoch = 100;
  epoch_created_ns = 100;
  producer_lease_id = 1001;
  producer_client_id = 11;
  profile = some profile;
  require_hugepages = false;
}

stream_taken : find_stream attached.streams 7 ≡ some taken
unfolding run init attach find_stream client_id_in_use resolve_stream attach_resolved
    attach_to_stream check_node_id node_id_in_use node_id_in_cooldown prune hugepages_refused
    should_require_hugepages open_epoch create_shm_epoch bump_epoch update_stream grant
    assign_node_id next_lease_id new_lease lease_expiry record_lease add_lease take_stream
stream_taken = refl

expire_lease_grows_epoch_example :
    epoch_of attached.streams 7
    < epoch_of (expire_lease (at 3000150) 2 0 lease_one attached).0.streams 7
expire_lease_grows_epoch_example =
    expire_lease_grows_epoch (at 3000150) 2 0 lease_one attached taken refl stream_taken
      (omega arith)

-- The producer leaves, and the epoch stays.
abbrev leave : DetachRequest
leave = record {
  correlation_id = 2;
  lease_id = 1001;
  stream_id = 7;
  client_id = 11;
  role = some producer;
}

detach_keeps_epoch_example :
    epoch_of (detach (at 400) leave attached).0.streams 7 ≡ epoch_of attached.streams 7
detach_keeps_epoch_example = detach_keeps_epoch (at 400) leave attached 7

attach-IsAnswer_example :
    IsAnswer
      (join consumer 12 502)
      attached.leases
      (attach (at 200) (join consumer 12 502) attached)
attach-IsAnswer_example = attach-IsAnswer (at 200) (join consumer 12 502) attached
