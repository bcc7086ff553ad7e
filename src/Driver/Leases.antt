-- ===== src/Driver/Leases.antt =====
-- The end of a lease and its renewal in src/driver/tp_driver.c: `tp_driver_handle_detach`,
-- `tp_driver_handle_keepalive` and `tp_driver_handle_expired_leases`.
use tensor_pool_c.Common.{
  ℕ, zero, suc, ◌+◌, Bool, ◌&&◌, not, Option, none, some, [], ◌∷◌, ◌++◌, ltb, ◌==◌, if◌then◌else◌,
  length, get_elem?, find_index, update_first,
}
use tensor_pool_c.Driver.State.{
  Lease, Driver, Env, producer, Code, ok, invalid_params, rejected, detach_response, lease_revoked,
  announce, detached, expired, find_stream, update_stream, find_lease, remove_lease, bump_epoch,
  release_producer, create_shm_epoch,
}
use tensor_pool_c.Driver.Cooldowns.{record_cooldown}
use tensor_pool_c.Driver.Attach.{Outcome, lease_expiry}

-- A decoded `ShmDetachRequest`.
pub record DetachRequest : Type 0 where
  pub correlation_id : ℕ
  pub lease_id : ℕ
  pub stream_id : ℕ
  pub client_id : ℕ
  pub role : Option ℕ

-- A decoded `ShmLeaseKeepalive`.
pub record Keepalive : Type 0 where
  pub lease_id : ℕ
  pub stream_id : ℕ
  pub client_id : ℕ
  pub role : Option ℕ

-- What both ends of a lease do: the node id goes into its cooldown, the stream is released, and
-- the lease at `index` goes.
unfoldable pub end_lease : Bool → ℕ → ℕ → Lease → Driver → Driver
end_lease memory now index l d = remove_lease index released
  where
    cooled : Driver
    cooled = record_cooldown memory now l.node_id d

    released : Driver
    released = record cooled {
      streams = update_stream l.stream_id (release_producer l.lease_id) cooled.streams;
    }

-- A new epoch for a stream that lost its producer, announced if its files could be created.
unfoldable pub advance_epoch : Env → ℕ → ℕ → Driver → Outcome
advance_epoch env k stream_id d = elim (find_stream d.streams stream_id) [
  | none ↦ (d, [])
  | some s ↦
      let created = create_shm_epoch env k (bump_epoch (env.epoch_ns k) s) in
      (
        record d { streams = update_stream stream_id (λ _. created.0) d.streams },
        if created.1
            then announce stream_id created.0.producer_client_id created.0.epoch ∷ []
            else [],
      )
]

-- The test for the new epoch reads `role` before it is assigned: it is 0 there.
abbrev pub detach_bumps_epoch : Bool
detach_bumps_epoch = 0 == producer

abbrev pub is_named_by : Lease → ℕ → ℕ → ℕ → Bool
is_named_by l stream_id client_id role =
    (l.stream_id == stream_id) && ((l.client_id == client_id) && (l.role == role))

unfoldable pub detach_lease : Env → DetachRequest → Lease → Driver → Outcome
detach_lease env req l d =
    (after.0, lease_revoked l detached ∷ (after.1 ++ (detach_response req.correlation_id ok ∷ [])))
  where
    ended : Driver
    ended =
        end_lease (env.cooldown_memory 0) env.now
          (find_index (λ k. k.lease_id == l.lease_id) d.leases) l d

    after : Outcome
    after = if detach_bumps_epoch then advance_epoch env 0 l.stream_id ended else (ended, [])

abbrev pub refuse_detach : DetachRequest → Code → Driver → Outcome
refuse_detach req code d = (d, detach_response req.correlation_id code ∷ [])

unfoldable pub detach : Env → DetachRequest → Driver → Outcome
detach env req d = elim req.role [
  | none ↦ refuse_detach req invalid_params d
  | some role ↦ elim (find_lease d.leases req.lease_id) [
    | none ↦ refuse_detach req rejected d
    | some l ↦
        if is_named_by l req.stream_id req.client_id role
        then detach_lease env req l d
        else refuse_detach req rejected d
  ]
]

-- A keepalive that names its lease right sets a new expiry; any other is ignored.
unfoldable pub keepalive : Env → Keepalive → Driver → Driver
keepalive env req d = elim req.role [
  | none ↦ d
  | some role ↦ elim (find_lease d.leases req.lease_id) [
    | none ↦ d
    | some l ↦
        if is_named_by l req.stream_id req.client_id role
        then record d { leases = update_first (λ k. k.lease_id == req.lease_id) renew d.leases }
        else d
  ]
]
  where
    renew : Lease → Lease
    renew k = record k { expiry_ns = lease_expiry d.config env.now }

abbrev pub is_expired : ℕ → Lease → Bool
is_expired now l = not (l.expiry_ns == 0) && ltb l.expiry_ns now

-- One round of the loop at an expired lease: the new epoch is a producer's.
unfoldable pub expire_lease : Env → ℕ → ℕ → Lease → Driver → Outcome
expire_lease env k i l d = (after.0, lease_revoked l expired ∷ after.1)
  where
    ended : Driver
    ended = end_lease (env.cooldown_memory k) env.now i l d

    after : Outcome
    after = if l.role == producer then advance_epoch env k l.stream_id ended else (ended, [])

-- The `while` of `tp_driver_handle_expired_leases` from index `i` on, by the rounds left.
unfoldable pub expire_loop : ℕ → ℕ → Env → Driver → Outcome
expire_loop zero i env d = (d, [])
expire_loop (suc k) i env d = elim (get_elem? d.leases i) [
  | none ↦ (d, [])
  | some l ↦
      if is_expired env.now l
      then (let step = expire_lease env k i l d in
          let rest = expire_loop k i env step.0 in (rest.0, step.1 ++ rest.1))
      else (let rest = expire_loop k (i + 1) env d in rest)
]

-- Each round drops a lease or passes one by, so the number of leases is enough.
unfoldable pub handle_expired_leases : Env → Driver → Outcome
unfolding expire_loop
handle_expired_leases env d = expire_loop (length d.leases) 0 env d
