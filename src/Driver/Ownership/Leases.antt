-- ===== src/Driver/Ownership/Leases.antt =====
-- Detaching, keepalives and expiry keep the invariant of the lease table.
use tensor_pool_c.Common.{
  ℕ, zero, suc, ◌+◌, ◌≡◌, ◌⊎◌, inl, inr, refl, Bool, some, List, [], ◌∷◌, arith, ◌==◌, length,
  get_elem?, find_index, update_first, any, Bool-cases, Option-cases, All,
}
use tensor_pool_c.Driver.State.{
  Lease, Stream, Driver, Env, producer, find_stream, find_lease, remove_lease, bump_epoch,
  create_shm_epoch,
}
use tensor_pool_c.Driver.Cooldowns.{record_cooldown}
use tensor_pool_c.Driver.Attach.{lease_expiry}
use tensor_pool_c.Driver.Leases.{
  DetachRequest, Keepalive, end_lease, advance_epoch, detach_lease, detach, keepalive, is_expired,
  expire_lease, expire_loop, handle_expired_leases, is_named_by,
}
use tensor_pool_c.Driver.Ownership.Holder.{
  holder, find_stream-stream_id, update_stream-SameHolders, bump_epoch-same, create_shm_epoch-same,
}
use tensor_pool_c.Driver.Ownership.Inv.{
  Inv, Inv-SameHolders, IsIssued, is_claim, lease_ids, client_ids,
}
use tensor_pool_c.Driver.Ownership.Tables.{remove_lease-Inv}
use tensor_pool_c.Driver.Ownership.Attach.{IsOwned}

record_cooldown-same :
    (memory : Bool) (now node_id : ℕ) (d : Driver)
    → ((record_cooldown memory now node_id d).streams ≡ d.streams)
      × ((record_cooldown memory now node_id d).leases ≡ d.leases)
      × ((record_cooldown memory now node_id d).lease_counter ≡ d.lease_counter)
unfolding record_cooldown
record_cooldown-same memory now node_id d = ground arith

end_lease-IsOwned :
    (memory : Bool) (now i : ℕ) (l : Lease) (d : Driver)
    → IsOwned d
    → get_elem? d.leases i ≡ some l
    → IsOwned (end_lease memory now i l d)
unfolding end_lease remove_lease
end_lease-IsOwned memory now i l d inv at =
    let same = record_cooldown-same memory now l.node_id d in
    rw (same.0, same.1, same.2) (remove_lease-Inv d.streams d.leases d.lease_counter i l inv at)

advance_epoch-IsOwned :
    (env : Env) (k x : ℕ) (d : Driver) → IsOwned d → IsOwned (advance_epoch env k x d).0
unfolding advance_epoch
advance_epoch-IsOwned env k x d inv = elim (Option-cases (find_stream d.streams x)) [
  | inl e ↦ rw (e, advance_epoch) inv
  | inr (s, e) ↦
      rw (e, advance_epoch)
        (Inv-SameHolders
          (update_stream-SameHolders d.streams x
            (λ _. (create_shm_epoch env k (bump_epoch (env.epoch_ns k) s)).0) s e
            (ground (
              arith,
              create_shm_epoch-same env k (bump_epoch (env.epoch_ns k) s),
              bump_epoch-same (env.epoch_ns k) s,
              find_stream-stream_id d.streams x s e,
            ))
            (ground (
              arith,
              create_shm_epoch-same env k (bump_epoch (env.epoch_ns k) s),
              bump_epoch-same (env.epoch_ns k) s,
            )))
          (omega arith) inv)
]

find_lease-index :
    (leases : List Lease) (x : ℕ) (l : Lease)
    → find_lease leases x ≡ some l
    → (get_elem? leases (find_index (λ k. k.lease_id == l.lease_id) leases) ≡ some l)
      × (l.lease_id ≡ x)
unfolding find_lease
find_lease-index [] x l h = ground arith
find_lease-index (k ∷ leases) x l h = ground (arith, find_lease-index leases x l)

module _ (x t : ℕ) where
  renewed : List Lease → List Lease
  renewed leases = update_first (λ k. k.lease_id == x) (λ k. record k { expiry_ns = t }) leases

  lease_ids-renewed : (leases : List Lease) → lease_ids (renewed leases) ≡ lease_ids leases
  unfolding renewed
  lease_ids-renewed [] = refl
  lease_ids-renewed (l ∷ leases) = ground (arith, lease_ids-renewed leases)

  client_ids-renewed : (leases : List Lease) → client_ids (renewed leases) ≡ client_ids leases
  unfolding renewed
  client_ids-renewed [] = refl
  client_ids-renewed (l ∷ leases) = ground (arith, client_ids-renewed leases)

  claims-renewed :
      (y h : ℕ) (leases : List Lease)
      → any (is_claim y h) (renewed leases) ≡ any (is_claim y h) leases
  unfolding renewed
  claims-renewed y h [] = refl
  claims-renewed y h (l ∷ leases) = ground (arith, claims-renewed y h leases)

  each-renewed :
      (streams : List Stream) (n : ℕ) (leases : List Lease)
      → All (IsIssued streams n) leases
      → All (IsIssued streams n) (renewed leases)
  unfolding renewed
  each-renewed streams n [] h = h
  each-renewed streams n (l ∷ leases) h = elim (Bool-cases (l.lease_id == x)) [
    | inl e ↦ rw e (
      record { positive = h.0.positive; issued = h.0.issued; client = h.0.client; owns = h.0.owns },
      h.1,
    )
    | inr e ↦ rw e (h.0, each-renewed streams n leases h.1)
  ]

  renewed-Inv :
      (streams : List Stream) (leases : List Lease) (n : ℕ)
      → Inv streams leases n
      → Inv streams (renewed leases) n
  renewed-Inv streams leases n inv = record {
    ids = rw (lease_ids-renewed leases) inv.ids;
    clients = rw (client_ids-renewed leases) inv.clients;
    each = each-renewed streams n leases inv.each;
    held = λ y. rw (claims-renewed y (holder streams y) leases) (inv.held y);
  }

keepalive-cases :
    (env : Env) (req : Keepalive) (d : Driver)
    → (keepalive env req d ≡ d)
      ⊎ (keepalive env req d
          ≡ record d { leases = renewed req.lease_id (lease_expiry d.config env.now) d.leases })
unfolding keepalive renewed
keepalive-cases env req d = ground arith

-- tp_driver_handle_keepalive keeps the invariant.
pub keepalive-IsOwned :
    (env : Env) (req : Keepalive) (d : Driver) → IsOwned d → IsOwned (keepalive env req d)
keepalive-IsOwned env req d inv = elim (keepalive-cases env req d) [
  | inl e ↦ rw e inv
  | inr e ↦ rw e (
      renewed-Inv req.lease_id (lease_expiry d.config env.now) d.streams d.leases d.lease_counter
        inv)
]

pub detach-cases :
    (env : Env) (req : DetachRequest) (d : Driver)
    → ((detach env req d).0 ≡ d)
      ⊎ ((l : Lease) × (find_lease d.leases req.lease_id ≡ some l)
          × ((detach env req d).0 ≡ (detach_lease env req l d).0))
unfolding detach
detach-cases env req d = elim (Option-cases (find_lease d.leases req.lease_id)) [
  | inl e ↦ inl (ground arith)
  | inr (l, e) ↦ elim (Option-cases req.role) [
    | inl none_given ↦ inl (ground arith)
    | inr (role, given) ↦ elim (Bool-cases (is_named_by l req.stream_id req.client_id role)) [
      | inl named ↦ inr (l, e, ground arith)
      | inr other ↦ inl (ground arith)
    ]
  ]
]

-- tp_driver_handle_detach keeps the invariant.
pub detach-IsOwned :
    (env : Env) (req : DetachRequest) (d : Driver) → IsOwned d → IsOwned (detach env req d).0
unfolding detach_lease
detach-IsOwned env req d inv = elim (detach-cases env req d) [
  | inl e ↦ rw e inv
  | inr (l, found, e) ↦ rw e (
      end_lease-IsOwned (env.cooldown_memory 0) env.now _ l d inv
        (find_lease-index d.leases req.lease_id l found).0)
]

expire_lease-IsOwned :
    (env : Env) (k i : ℕ) (l : Lease) (d : Driver)
    → IsOwned d
    → get_elem? d.leases i ≡ some l
    → IsOwned (expire_lease env k i l d).0
unfolding expire_lease
expire_lease-IsOwned env k i l d inv at = elim (Bool-cases (l.role == producer)) [
  | inl e ↦ rw e (
      advance_epoch-IsOwned env k l.stream_id _
        (end_lease-IsOwned (env.cooldown_memory k) env.now i l d inv at))
  | inr e ↦ rw e (end_lease-IsOwned (env.cooldown_memory k) env.now i l d inv at)
]

expire_loop-IsOwned :
    (k i : ℕ) (env : Env) (d : Driver) → IsOwned d → IsOwned (expire_loop k i env d).0
unfolding expire_loop
expire_loop-IsOwned zero i env d inv = inv
expire_loop-IsOwned (suc k) i env d inv = elim (Option-cases (get_elem? d.leases i)) [
  | inl e ↦ rw (e, expire_loop) inv
  | inr (l, e) ↦ elim (Bool-cases (is_expired env.now l)) [
    | inl over ↦
        rw (e, expire_loop, over)
          (expire_loop-IsOwned k i env (expire_lease env k i l d).0
            (expire_lease-IsOwned env k i l d inv e))
    | inr runs ↦ rw (e, expire_loop, runs) (expire_loop-IsOwned k (i + 1) env d inv)
  ]
]

-- tp_driver_handle_expired_leases keeps the invariant.
pub handle_expired_leases-IsOwned :
    (env : Env) (d : Driver) → IsOwned d → IsOwned (handle_expired_leases env d).0
unfolding handle_expired_leases
handle_expired_leases-IsOwned env d inv = expire_loop-IsOwned (length d.leases) 0 env d inv
