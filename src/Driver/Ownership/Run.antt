-- ===== src/Driver/Ownership/Run.antt =====
-- The invariant of the lease table over whole runs of the driver, and what it means for streams.
use tensor_pool_c.Common.{
  ℕ, ◌≢◌, ◌⊎◌, inr, suc, ◌+◌, ◌-◌, ◌^◌, ◌<◌, ◌≤◌, ◌≡◌, inl, sym, ap, ◌∙◌, some, List, [], ◌∷◌,
  arith, map, length, get_elem?, get_elem?-map, All-get_elem?, Distinct-get_elem?,
}
use tensor_pool_c.Driver.State.{Config, StreamDef, Lease, Driver, Env, producer, find_stream}
use tensor_pool_c.Driver.Run.{
  init, init_stream, Event, attach_request, detach_request, lease_keepalive, work, step, run,
  do_work, announce_due,
}
use tensor_pool_c.Driver.Leases.{handle_expired_leases}
use tensor_pool_c.Driver.Ownership.Holder.{holder}
use tensor_pool_c.Driver.Ownership.Inv.{lease_ids}
use tensor_pool_c.Driver.Ownership.Attach.{IsOwned, attach-IsOwned}
use tensor_pool_c.Driver.Ownership.Numbers.{next_lease_id_bounds}
use tensor_pool_c.Driver.Ownership.Leases.{
  detach-IsOwned, keepalive-IsOwned, handle_expired_leases-IsOwned,
}
use tensor_pool_c.Driver.Ownership.Counter.{
  attach-counter, detach-counter, keepalive-counter, handle_expired_leases-counter,
}

holder-init :
    (config : Config) (defs : List StreamDef) (x : ℕ) → holder (map (init_stream config) defs) x ≡ 0
unfolding init_stream find_stream
holder-init config [] x = ground arith
holder-init config (def ∷ defs) x = ground (arith, holder-init config defs x)

init-IsOwned : (config : Config) → IsOwned (init config)
unfolding init
init-IsOwned config = record {
  ids = tt;
  clients = tt;
  each = tt;
  held = λ x. inl (holder-init config config.streams x);
}

announce_due-same :
    (env : Env) (d : Driver)
    → ((announce_due env d).0.streams ≡ d.streams)
      × ((announce_due env d).0.leases ≡ d.leases)
      × ((announce_due env d).0.lease_counter ≡ d.lease_counter)
unfolding announce_due
announce_due-same env d = ground arith

do_work-IsOwned : (env : Env) (d : Driver) → IsOwned d → IsOwned (do_work env d).0
unfolding do_work
do_work-IsOwned env d inv =
    let same = announce_due-same env (handle_expired_leases env d).0 in
    rw (same.0, same.1, same.2) (handle_expired_leases-IsOwned env d inv)

-- Every event keeps the invariant.
pub step-IsOwned :
    (d : Driver) (e : Event) → IsOwned d → d.lease_counter < 2 ^ 64 - 1 → IsOwned (step d e).0
unfolding step
step-IsOwned d (attach_request env req) inv small = attach-IsOwned env req d inv small
step-IsOwned d (detach_request env req) inv small = detach-IsOwned env req d inv
step-IsOwned d (lease_keepalive env req) inv small = keepalive-IsOwned env req d inv
step-IsOwned d (work env) inv small = do_work-IsOwned env d inv

-- An event moves the counter by one at most, once it has left the seeds behind.
step-counter :
    (d : Driver) (e : Event) (n : ℕ)
    → d.lease_counter < 2 ^ 64 - 1
    → d.lease_counter ≤ 2 ^ 63 + n
    → (step d e).0.lease_counter ≤ 2 ^ 63 + suc n
unfolding step do_work
step-counter d (attach_request env req) n small h =
    ground (arith, attach-counter env req d small, (next_lease_id_bounds env d small).1)
step-counter d (detach_request env req) n small h = omega (arith, detach-counter env req d)
step-counter d (lease_keepalive env req) n small h = omega (arith, keepalive-counter env req d)
step-counter d (work env) n small h = omega (
  arith,
  (announce_due-same env (handle_expired_leases env d).0).2,
  handle_expired_leases-counter env d,
)

run-IsOwned_from :
    (events : List Event) (d : Driver) (n : ℕ)
    → IsOwned d
    → d.lease_counter ≤ 2 ^ 63 + n
    → n + length events < 2 ^ 63 - 1
    → IsOwned (run d events)
unfolding run
run-IsOwned_from [] d n inv h few = inv
run-IsOwned_from (e ∷ events) d n inv h few =
    run-IsOwned_from events (step d e).0 (suc n) (step-IsOwned d e inv (omega arith))
      (step-counter d e n (omega arith) h) (omega arith)

-- In every state that the driver reaches from its start by fewer than 2^63 - 1 events, whatever
-- the clocks, the seeds, the allocations and the file system answer: lease ids and client ids do
-- not repeat, no lease has the id or the client 0, a producer's lease is the one that its stream
-- records, and what a stream records is a live producer's lease on it.
pub run-IsOwned :
    (config : Config) (events : List Event)
    → length events < 2 ^ 63 - 1
    → IsOwned (run (init config) events)
run-IsOwned config events few =
    run-IsOwned_from events (init config) 0 (init-IsOwned config) (init_counter config)
      (omega arith)
  where
    init_counter : (c : Config) → (init c).lease_counter ≤ 2 ^ 63 + 0
    init_counter c = unfold init in omega arith

is_owner : {role x y : ℕ} → role ≡ producer → (role ≢ producer) ⊎ (x ≡ y) → x ≡ y
is_owner r (inl other) = absurd (other r)
is_owner r (inr same) = same

-- With the invariant, two producer leases on one stream stand at the same index.
one_producer :
    (d : Driver) (i j : ℕ) (k l : Lease)
    → IsOwned d
    → get_elem? d.leases i ≡ some k
    → get_elem? d.leases j ≡ some l
    → k.role ≡ producer
    → l.role ≡ producer
    → k.stream_id ≡ l.stream_id
    → i ≡ j
one_producer d i j k l inv at_i at_j rk rl same =
    Distinct-get_elem? (lease_ids d.leases) i j l.lease_id inv.ids
      (get_elem?-map (λ m. m.lease_id) d.leases i k at_i ∙ ap some (sym same_id))
      (get_elem?-map (λ m. m.lease_id) d.leases j l at_j)
  where
    owns_k : holder d.streams k.stream_id ≡ k.lease_id
    owns_k = is_owner rk (All-get_elem? _ d.leases i k inv.each at_i).owns

    owns_l : holder d.streams l.stream_id ≡ l.lease_id
    owns_l = is_owner rl (All-get_elem? _ d.leases j l inv.each at_j).owns

    same_id : l.lease_id ≡ k.lease_id
    same_id = sym owns_l ∙ ap (holder d.streams) (sym same) ∙ owns_k

-- At most one producer per stream: after any run of fewer than 2^63 - 1 events, two producer leases
-- on one stream are the same entry of the lease table.
pub run_one_producer :
    (config : Config) (events : List Event) (i j : ℕ) (k l : Lease)
    → length events < 2 ^ 63 - 1
    → get_elem? (run (init config) events).leases i ≡ some k
    → get_elem? (run (init config) events).leases j ≡ some l
    → k.role ≡ producer
    → l.role ≡ producer
    → k.stream_id ≡ l.stream_id
    → i ≡ j
run_one_producer config events i j k l few =
    one_producer (run (init config) events) i j k l (run-IsOwned config events few)
