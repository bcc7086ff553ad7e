-- ===== src/Driver/Epochs/Attach.antt =====
-- What an accepted attach request gives, and what it does to the epoch of its stream.
use tensor_pool_c.Common.{
  ℕ, ◌-◌, ◌^◌, ◌<◌, ◌≡◌, inl, inr, ◌∙◌, Bool, none, some, List, [], ◌∷◌, arith,
}
use tensor_pool_c.Driver.State.{
  Lease, Stream, Driver, Env, producer, find_stream, update_stream, bump_epoch, create_shm_epoch,
  release_producer, remove_lease,
}
use tensor_pool_c.Driver.Cooldowns.{record_cooldown}
use tensor_pool_c.Driver.Leases.{
  DetachRequest, detach, detach_lease, end_lease, advance_epoch, expire_lease,
}
use tensor_pool_c.Driver.Ownership.Leases.{detach-cases}
use tensor_pool_c.Driver.Ownership.Holder.{
  find_stream-stream_id, find_stream-update_stream, bump_epoch-same, create_shm_epoch-same,
}

-- The epoch of a stream, 0 where the stream is not there.
abbrev pub epoch_of : List Stream → ℕ → ℕ
epoch_of streams x = elim (find_stream streams x) [ none ↦ 0 | some s ↦ s.epoch ]

-- tp_driver_bump_epoch gives a greater epoch, unless the old one is the last 64-bit value.
pub bump_epoch_grows :
    (now : ℕ) (s : Stream) → s.epoch < 2 ^ 64 - 1 → s.epoch < (bump_epoch now s).epoch
unfolding bump_epoch
bump_epoch_grows now s h = ground arith

epoch_of-release :
    (streams : List Stream) (y id x : ℕ)
    → epoch_of (update_stream y (release_producer id) streams) x ≡ epoch_of streams x
unfolding update_stream find_stream release_producer
epoch_of-release [] y id x = ground arith
epoch_of-release (s ∷ streams) y id x = ground (arith, epoch_of-release streams y id x)

record_cooldown-streams :
    (memory : Bool) (now n : ℕ) (d : Driver) → (record_cooldown memory now n d).streams ≡ d.streams
unfolding record_cooldown
record_cooldown-streams memory now n d = ground arith

end_lease-epoch :
    (memory : Bool) (now i : ℕ) (l : Lease) (d : Driver) (x : ℕ)
    → epoch_of (end_lease memory now i l d).streams x ≡ epoch_of d.streams x
unfolding end_lease remove_lease
end_lease-epoch memory now i l d x =
    epoch_of-release (record_cooldown memory now l.node_id d).streams l.stream_id l.lease_id x
    ∙ rw (record_cooldown-streams memory now l.node_id d)

-- tp_driver_handle_detach leaves the epoch of every stream as it was, also where it ends a
-- producer's lease: the test for the new epoch reads `role` before the request's role is in it.
pub detach_keeps_epoch :
    (env : Env) (req : DetachRequest) (d : Driver) (x : ℕ)
    → epoch_of (detach env req d).0.streams x ≡ epoch_of d.streams x
unfolding detach_lease
detach_keeps_epoch env req d x = elim (detach-cases env req d) [
  | inl e ↦ rw e
  | inr (l, found, e) ↦ rw e (end_lease-epoch (env.cooldown_memory 0) env.now _ l d x)
]

advance_epoch_grows :
    (env : Env) (k x : ℕ) (d : Driver) (s : Stream)
    → find_stream d.streams x ≡ some s
    → s.epoch < 2 ^ 64 - 1
    → s.epoch < epoch_of (advance_epoch env k x d).0.streams x
unfolding advance_epoch
advance_epoch_grows env k x d s found small = ground (
  arith,
  found,
  bump_epoch_grows (env.epoch_ns k) s small,
  bump_epoch-same (env.epoch_ns k) s,
  create_shm_epoch-same env k (bump_epoch (env.epoch_ns k) s),
  find_stream-stream_id d.streams x s found,
  find_stream-update_stream d.streams x x
      (λ _. (create_shm_epoch env k (bump_epoch (env.epoch_ns k) s)).0) s found,
)

release_producer-same :
    (id : ℕ) (s : Stream)
    → ((release_producer id s).stream_id ≡ s.stream_id) × ((release_producer id s).epoch ≡ s.epoch)
unfolding release_producer
release_producer-same id s = ground arith

end_lease-find_stream :
    (memory : Bool) (now i : ℕ) (l : Lease) (d : Driver) (s : Stream)
    → find_stream d.streams l.stream_id ≡ some s
    → find_stream (end_lease memory now i l d).streams l.stream_id
      ≡ some (release_producer l.lease_id s)
unfolding end_lease remove_lease
end_lease-find_stream memory now i l d s found =
    rw (record_cooldown-streams memory now l.node_id d) (
      ground (
        arith,
        release_producer-same l.lease_id s,
        find_stream-stream_id d.streams l.stream_id s found,
        find_stream-update_stream d.streams l.stream_id l.stream_id (release_producer l.lease_id) s
            found,
      ))

-- The end of a producer's lease by expiry starts a new epoch of its stream: the stream's epoch
-- grows, if the stream is there and its old epoch is not the last 64-bit value.
pub expire_lease_grows_epoch :
    (env : Env) (k i : ℕ) (l : Lease) (d : Driver) (s : Stream)
    → l.role ≡ producer
    → find_stream d.streams l.stream_id ≡ some s
    → s.epoch < 2 ^ 64 - 1
    → epoch_of d.streams l.stream_id < epoch_of (expire_lease env k i l d).0.streams l.stream_id
unfolding expire_lease
expire_lease_grows_epoch env k i l d s r found small = ground (
  arith,
  release_producer-same l.lease_id s,
  advance_epoch_grows env k l.stream_id (end_lease (env.cooldown_memory k) env.now i l d)
      (release_producer l.lease_id s)
      (end_lease-find_stream (env.cooldown_memory k) env.now i l d s found),
)
