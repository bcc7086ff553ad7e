-- ===== src/Driver/Ownership/Numbers.antt =====
-- The lease ids and node ids that `tp_driver_handle_attach` takes, and the lease that it adds.
use tensor_pool_c.Common.{
  ℕ, ◌+◌, ◌-◌, ◌^◌, ◌<◌, ◌≤◌, ◌≡◌, ◌⊎◌, some, [], ◌∷◌, ◌++◌, arith, ◌==◌, if◌then◌else◌,
}
use tensor_pool_c.Driver.State.{
  Lease, Driver, Env, null_node_id, next_lease_id, seed_counter, add_lease,
}
use tensor_pool_c.Driver.Ids.Fresh.{next_node_id-Chosen, next_node_id-counter}
use tensor_pool_c.Driver.Attach.{assign_node_id}

pub next_lease_id_bounds :
    (env : Env) (d : Driver)
    → d.lease_counter < 2 ^ 64 - 1
    → (d.lease_counter < next_lease_id env d)
      × ((next_lease_id env d ≤ d.lease_counter + 1) ⊎ (next_lease_id env d ≤ 2 ^ 63))
unfolding next_lease_id
next_lease_id_bounds env d h = ground arith

pub assign_node_id-same :
    (env : Env) (desired : ℕ) (d : Driver)
    → ((assign_node_id env desired d).0.streams ≡ d.streams)
      × ((assign_node_id env desired d).0.leases ≡ d.leases)
      × ((assign_node_id env desired d).0.lease_counter
          ≡ (if desired == null_node_id then seed_counter env d else d.lease_counter))
unfolding assign_node_id
assign_node_id-same env desired d = ground (
  arith,
  (next_node_id-Chosen env d).same.streams,
  (next_node_id-Chosen env d).same.leases,
  next_node_id-counter env d,
)

seed_counter_of_pos :
    (env : Env) (d : Driver) → 0 < d.lease_counter → seed_counter env d ≡ d.lease_counter
unfolding seed_counter
seed_counter_of_pos env d h = ground arith

pub assign_node_id-counter :
    (env : Env) (desired : ℕ) (d : Driver)
    → d.lease_counter < 2 ^ 64 - 1
    → (assign_node_id env desired
        (record d { lease_counter = next_lease_id env d })).0.lease_counter
      ≡ next_lease_id env d
assign_node_id-counter env desired d small = ground (
  arith,
  assign_node_id-same env desired (record d { lease_counter = next_lease_id env d }),
  seed_counter_of_pos env (record d { lease_counter = next_lease_id env d }),
  (next_lease_id_bounds env d small).0,
)

pub record Added (d : Driver) (l : Lease) (e : Driver) : Type 0 where
  pub streams : e.streams ≡ d.streams
  pub leases : e.leases ≡ d.leases ++ (l ∷ [])
  pub counter : e.lease_counter ≡ d.lease_counter

pub add_lease-Added :
    (env : Env) (d : Driver) (l : Lease) (e : Driver) → add_lease env d l ≡ some e → Added d l e
unfolding add_lease
add_lease-Added env d l e h = ground arith

pub add_lease-counter :
    (env : Env) (d : Driver) (l : Lease) (e : Driver)
    → add_lease env d l ≡ some e
    → e.lease_counter ≡ d.lease_counter
add_lease-counter env d l e h = (add_lease-Added env d l e h).counter
