-- ===== src/Driver/Ownership/Counter.antt =====
-- How far one call moves the lease counter of src/driver/tp_driver.c.
use tensor_pool_c.Common.{
  ℕ, zero, suc, ◌+◌, ◌-◌, ◌^◌, ◌<◌, ◌≡◌, ◌⊎◌, inl, inr, refl, ◌∙◌, Bool, arith, ◌==◌, Bool-cases,
  Option-cases, get_elem?, length,
}
use tensor_pool_c.Driver.State.{
  Lease, Stream, Driver, Env, Code, next_lease_id, null_node_id, update_stream, add_lease,
  remove_lease, create_shm_epoch, bump_epoch,
}
use tensor_pool_c.Driver.Cooldowns.{record_cooldown}
use tensor_pool_c.Driver.Attach.{
  AttachRequest, assign_node_id, record_lease, grant, open_epoch, check_node_id, attach_to_stream,
  attach_resolved, attach,
}
use tensor_pool_c.Driver.Leases.{
  DetachRequest, Keepalive, end_lease, advance_epoch, detach_lease, detach, keepalive, expire_lease,
  expire_loop, handle_expired_leases,
}
use tensor_pool_c.Driver.Ownership.Numbers.{assign_node_id-counter, add_lease-counter}
use tensor_pool_c.Driver.Ownership.Resolve.{resolve_stream-counter}
use tensor_pool_c.Driver.Ownership.Attach.{attach_to_stream-cases, attach-cases, pages_of}

-- The counter stands, or has gone to the next id.
abbrev CounterStep : Env → Driver → Driver → Type 0
CounterStep env d e = (e.lease_counter ≡ d.lease_counter) ⊎ (e.lease_counter ≡ next_lease_id env d)

module _ (env : Env) (req : AttachRequest) where
  record_lease-counter :
      (s : Stream) (huge : Bool) (l : Lease) (d : Driver)
      → (record_lease env req s huge l d).0.lease_counter ≡ d.lease_counter
  unfolding record_lease
  record_lease-counter s huge l d = elim (Option-cases (add_lease env d l)) [
    | inl e ↦ rw (e, record_lease)
    | inr (d', e) ↦ rw (e, record_lease) (add_lease-counter env d l d' e)
  ]

  grant-counter :
      (role : ℕ) (s : Stream) (huge : Bool) (d : Driver)
      → d.lease_counter < 2 ^ 64 - 1
      → (grant env req role s huge d).0.lease_counter ≡ next_lease_id env d
  unfolding grant
  grant-counter role s huge d small = elim (Bool-cases (node.1 == null_node_id)) [
    | inl e ↦ rw e counter
    | inr e ↦ rw e (record_lease-counter s huge _ node.0 ∙ counter)
  ]
    where
      node : Driver × ℕ
      node =
          assign_node_id env req.desired_node_id (record d { lease_counter = next_lease_id env d })

      counter : node.0.lease_counter ≡ next_lease_id env d
      counter = assign_node_id-counter env req.desired_node_id d small

  open_epoch-counter :
      (role : ℕ) (s : Stream) (huge : Bool) (d : Driver)
      → d.lease_counter < 2 ^ 64 - 1
      → CounterStep env d (open_epoch env req role s huge d).0
  unfolding open_epoch next_lease_id
  open_epoch-counter role s huge d small = ground (
    arith,
    grant-counter role s huge d small,
    grant-counter role
        (create_shm_epoch env 0
          (record (bump_epoch (env.epoch_ns 0) s) { require_hugepages = huge })).0
        huge
        (record d {
          streams =
              update_stream s.stream_id
                (λ _.
                  (create_shm_epoch env 0
                    (record (bump_epoch (env.epoch_ns 0) s) { require_hugepages = huge })).0)
                d.streams;
        })
        small,
  )

  check_node_id-counter :
      (desired : ℕ) (d : Driver) → (check_node_id env desired d).0.lease_counter ≡ d.lease_counter
  unfolding check_node_id
  check_node_id-counter desired d = ground arith

  -- The id depends on the counter alone.
  next_lease_id-eq :
      (d e : Driver) → e.lease_counter ≡ d.lease_counter → next_lease_id env e ≡ next_lease_id env d
  unfolding next_lease_id
  next_lease_id-eq d e h = ground arith

  attach_to_stream-counter :
      (role : ℕ) (s : Stream) (d : Driver)
      → d.lease_counter < 2 ^ 64 - 1
      → CounterStep env d (attach_to_stream env req role s d).0
  attach_to_stream-counter role s d small = ground (
    arith,
    attach_to_stream-cases env req role s d,
    check_node_id-counter req.desired_node_id d,
    next_lease_id-eq d (check_node_id env req.desired_node_id d).0,
    open_epoch-counter role s (pages_of env req s d) (check_node_id env req.desired_node_id d).0,
  )

  attach_resolved-counter :
      (role : ℕ) (d e : Driver) (found : Code ⊎ Stream)
      → d.lease_counter < 2 ^ 64 - 1
      → e.lease_counter ≡ d.lease_counter
      → CounterStep env d (attach_resolved env req role (e, found)).0
  unfolding attach_resolved
  attach_resolved-counter role d e (inl code) small same = inl same
  attach_resolved-counter role d e (inr s) small same =
      ground (arith, next_lease_id-eq d e same, attach_to_stream-counter role s e)

  pub attach-counter :
      (d : Driver) → d.lease_counter < 2 ^ 64 - 1 → CounterStep env d (attach env req d).0
  attach-counter d small = elim (attach-cases env req d) [
    | inl e ↦ inl (rw e)
    | inr (role, e, _) ↦
        rw e (attach_resolved-counter role d _ _ small (resolve_stream-counter env req d))
  ]

end_lease-counter :
    (memory : Bool) (now i : ℕ) (l : Lease) (d : Driver)
    → (end_lease memory now i l d).lease_counter ≡ d.lease_counter
unfolding end_lease remove_lease record_cooldown
end_lease-counter memory now i l d = ground arith

advance_epoch-counter :
    (env : Env) (k x : ℕ) (d : Driver) → (advance_epoch env k x d).0.lease_counter ≡ d.lease_counter
unfolding advance_epoch
advance_epoch-counter env k x d = ground arith

pub detach-counter :
    (env : Env) (req : DetachRequest) (d : Driver)
    → (detach env req d).0.lease_counter ≡ d.lease_counter
unfolding detach detach_lease end_lease remove_lease record_cooldown
detach-counter env req d = ground arith

pub keepalive-counter :
    (env : Env) (req : Keepalive) (d : Driver)
    → (keepalive env req d).lease_counter ≡ d.lease_counter
unfolding keepalive
keepalive-counter env req d = ground arith

expire_lease-counter :
    (env : Env) (k i : ℕ) (l : Lease) (d : Driver)
    → (expire_lease env k i l d).0.lease_counter ≡ d.lease_counter
unfolding expire_lease
expire_lease-counter env k i l d = ground (
  arith,
  end_lease-counter (env.cooldown_memory k) env.now i l d,
  advance_epoch-counter env k l.stream_id (end_lease (env.cooldown_memory k) env.now i l d),
)

expire_loop-counter :
    (k i : ℕ) (env : Env) (d : Driver) → (expire_loop k i env d).0.lease_counter ≡ d.lease_counter
unfolding expire_loop
expire_loop-counter zero i env d = refl
expire_loop-counter (suc k) i env d = elim (Option-cases (get_elem? d.leases i)) [
  | inl e ↦ rw (e, expire_loop)
  | inr (l, e) ↦ ground (
    arith,
    expire_lease-counter env k i l d,
    expire_loop-counter k i env (expire_lease env k i l d).0,
    expire_loop-counter k (i + 1) env d,
  )
]

pub handle_expired_leases-counter :
    (env : Env) (d : Driver) → (handle_expired_leases env d).0.lease_counter ≡ d.lease_counter
unfolding handle_expired_leases
handle_expired_leases-counter env d = expire_loop-counter (length d.leases) 0 env d
