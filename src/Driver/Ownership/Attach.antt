-- ===== src/Driver/Ownership/Attach.antt =====
-- `tp_driver_handle_attach` keeps the invariant of the lease table.
use tensor_pool_c.Common.{
  ℕ, ◌-◌, ◌^◌, ◌<◌, ◌≤◌, ◌≡◌, ◌⊎◌, inl, inr, refl, Bool, false, ◌&&◌, ◌||◌, not, some, arith, ◌==◌,
  if◌then◌else◌, Bool-cases, Option-cases,
}
use tensor_pool_c.Driver.State.{
  Lease, Stream, Driver, Env, producer, null_node_id, Code, next_lease_id, seed_counter,
  find_stream, update_stream, client_id_in_use, add_lease, bump_epoch, create_shm_epoch,
}
use tensor_pool_c.Driver.Attach.{
  AttachRequest, assign_node_id, new_lease, record_lease, grant, open_epoch, check_node_id,
  attach_to_stream, resolve_stream, attach_resolved, attach, should_require_hugepages, policy_of,
}
use tensor_pool_c.Driver.Ownership.Holder.{
  find_stream-update_stream, update_stream-SameHolders, bump_epoch-same, create_shm_epoch-same,
}
use tensor_pool_c.Driver.Ownership.Inv.{Inv, Inv-SameHolders, client_id_in_use-contains}
use tensor_pool_c.Driver.Ownership.Tables.{add_lease-Inv}
use tensor_pool_c.Driver.Ownership.Numbers.{
  next_lease_id_bounds, assign_node_id-same, assign_node_id-counter, Added, add_lease-Added,
}
use tensor_pool_c.Driver.Ownership.Resolve.{Resolved, resolve_stream-Resolved}

abbrev pub IsOwned : Driver → Type 0
IsOwned d = Inv d.streams d.leases d.lease_counter

-- A refusal keeps the tables, and the counter may have grown.
refuse-IsOwned :
    (d e : Driver)
    → e.streams ≡ d.streams
    → e.leases ≡ d.leases
    → d.lease_counter ≤ e.lease_counter
    → IsOwned d
    → IsOwned e
refuse-IsOwned d e p q r inv = rw (p, q) (Inv-SameHolders (λ x. refl) r inv)

-- The pages of the epoch that `attach_to_stream` opens.
abbrev pub pages_of : Env → AttachRequest → Stream → Driver → Bool
pages_of env req s d =
    if s.epoch == 0 then should_require_hugepages d.config (policy_of req) else s.require_hugepages

-- The ways out of `attach_to_stream`.
pub attach_to_stream-cases :
    (env : Env) (req : AttachRequest) (role : ℕ) (s : Stream) (d : Driver)
    → (((attach_to_stream env req role s d).0 ≡ d)
        ⊎ ((attach_to_stream env req role s d).0 ≡ (check_node_id env req.desired_node_id d).0))
      ⊎ ((attach_to_stream env req role s d
            ≡ open_epoch env req role s
                (pages_of env req s d)
                (check_node_id env req.desired_node_id d).0)
          × (role ≡ producer → s.producer_lease_id ≡ 0))
unfolding attach_to_stream
attach_to_stream-cases env req role s d = ground arith

module _ (env : Env) (req : AttachRequest) where
  record_lease-IsOwned :
      (s : Stream) (huge : Bool) (l : Lease) (d : Driver) (n : ℕ)
      → Inv d.streams d.leases n
      → n < l.lease_id
      → d.lease_counter ≡ l.lease_id
      → client_id_in_use d.leases l.client_id ≡ false
      → l.stream_id ≡ s.stream_id
      → find_stream d.streams s.stream_id ≡ some s
      → (l.role ≡ producer → s.producer_lease_id ≡ 0)
      → IsOwned (record_lease env req s huge l d).0
  unfolding record_lease
  record_lease-IsOwned s huge l d n inv next now unused same found vacant =
      elim (Option-cases (add_lease env d l)) [
        | inl e ↦ rw (e, record_lease) (Inv-SameHolders (λ x. refl) (omega arith) inv)
        | inr r ↦
            let a : Added d l r.0 = add_lease-Added env d l r.0 r.1 in
            rw (r.1, record_lease, a.streams, a.leases, a.counter, now, ← same)
              (add_lease-Inv d.streams d.leases n l s inv next unused (rw same found) vacant)
      ]

  grant-IsOwned :
      (role : ℕ) (s : Stream) (huge : Bool) (d : Driver)
      → IsOwned d
      → d.lease_counter < 2 ^ 64 - 1
      → client_id_in_use d.leases req.client_id ≡ false
      → find_stream d.streams s.stream_id ≡ some s
      → (role ≡ producer → s.producer_lease_id ≡ 0)
      → IsOwned (grant env req role s huge d).0
  unfolding grant new_lease
  grant-IsOwned role s huge d inv small unused found vacant =
      elim (Bool-cases (node.1 == null_node_id)) [
        | inl e ↦ rw e (
            refuse-IsOwned d node.0 same.0 same.1
              (omega (arith, (next_lease_id_bounds env d small).0, counter)) inv)
        | inr e ↦ rw e (
            record_lease-IsOwned s huge (new_lease env req role lease_id node.1 d s) node.0
              d.lease_counter (rw (same.0, same.1) inv) (next_lease_id_bounds env d small).0 counter
              (rw same.1 unused) refl (rw same.0 found) vacant)
      ]
    where
      lease_id : ℕ
      lease_id = next_lease_id env d

      issued : Driver
      issued = record d { lease_counter = lease_id }

      node : Driver × ℕ
      node = assign_node_id env req.desired_node_id issued

      same :
          (node.0.streams ≡ d.streams)
          × (node.0.leases ≡ d.leases)
          × (node.0.lease_counter
              ≡ (if req.desired_node_id == null_node_id then seed_counter env issued else lease_id))
      same = assign_node_id-same env req.desired_node_id issued

      counter : node.0.lease_counter ≡ lease_id
      counter = assign_node_id-counter env req.desired_node_id d small

  open_epoch-IsOwned :
      (role : ℕ) (s : Stream) (huge : Bool) (d : Driver)
      → IsOwned d
      → d.lease_counter < 2 ^ 64 - 1
      → client_id_in_use d.leases req.client_id ≡ false
      → find_stream d.streams s.stream_id ≡ some s
      → (role ≡ producer → s.producer_lease_id ≡ 0)
      → IsOwned (open_epoch env req role s huge d).0
  unfolding open_epoch
  open_epoch-IsOwned role s huge d inv small unused found vacant =
      elim (Bool-cases ((role == producer) || (s.epoch == 0))) [
        | inr e ↦ rw e (grant-IsOwned role s huge d inv small unused found vacant)
        | inl e ↦ rw e (elim (Bool-cases created.1) [
          | inl ok ↦ rw ok (
              grant-IsOwned role created.0 huge opened kept small unused there
                (λ r. rw same.1 (vacant r)))
          | inr bad ↦ rw bad kept
        ])
      ]
    where
      fresh : Stream
      fresh = record (bump_epoch (env.epoch_ns 0) s) { require_hugepages = huge }

      created : Stream × Bool
      created = create_shm_epoch env 0 fresh

      opened : Driver
      opened = record d { streams = update_stream s.stream_id (λ _. created.0) d.streams }

      same :
          (created.0.stream_id ≡ s.stream_id) × (created.0.producer_lease_id ≡ s.producer_lease_id)
      same = ground (arith, create_shm_epoch-same env 0 fresh, bump_epoch-same (env.epoch_ns 0) s)

      kept : IsOwned opened
      kept =
          Inv-SameHolders
            (update_stream-SameHolders d.streams s.stream_id (λ _. created.0) s found same.0 same.1)
            (omega arith) inv

      there : find_stream opened.streams created.0.stream_id ≡ some created.0
      there = rw same.0 (
          ground (
            arith,
            find_stream-update_stream d.streams s.stream_id s.stream_id (λ _. created.0) s found
                same.0,
          ))

  check_node_id-same :
      (desired : ℕ) (d : Driver)
      → ((check_node_id env desired d).0.streams ≡ d.streams)
        × ((check_node_id env desired d).0.leases ≡ d.leases)
        × ((check_node_id env desired d).0.lease_counter ≡ d.lease_counter)
  unfolding check_node_id
  check_node_id-same desired d = ground arith

  attach_to_stream-IsOwned :
      (role : ℕ) (s : Stream) (d : Driver)
      → IsOwned d
      → d.lease_counter < 2 ^ 64 - 1
      → client_id_in_use d.leases req.client_id ≡ false
      → find_stream d.streams s.stream_id ≡ some s
      → IsOwned (attach_to_stream env req role s d).0
  attach_to_stream-IsOwned role s d inv small unused found =
      elim (attach_to_stream-cases env req role s d) [
        | inl (inl e) ↦ rw e inv
        | inl (inr e) ↦ rw e checked_owned
        | inr r ↦ rw r.0 (
            open_epoch-IsOwned role s (pages_of env req s d) checked.0 checked_owned
              (rw same.2 small) (rw same.1 unused) (rw same.0 found) r.1)
      ]
    where
      checked : Driver × Bool
      checked = check_node_id env req.desired_node_id d

      same :
          (checked.0.streams ≡ d.streams)
          × (checked.0.leases ≡ d.leases)
          × (checked.0.lease_counter ≡ d.lease_counter)
      same = check_node_id-same req.desired_node_id d

      checked_owned : IsOwned checked.0
      checked_owned = refuse-IsOwned d checked.0 same.0 same.1 (omega (arith, same.2)) inv

attach_resolved-IsOwned :
    (env : Env) (req : AttachRequest) (role : ℕ) (d e : Driver) (found : Code ⊎ Stream)
    → IsOwned d
    → d.lease_counter < 2 ^ 64 - 1
    → client_id_in_use d.leases req.client_id ≡ false
    → Resolved d (e, found)
    → IsOwned (attach_resolved env req role (e, found)).0
unfolding attach_resolved
attach_resolved-IsOwned env req role d e (inl code) inv small unused r =
    rw r.leases (Inv-SameHolders r.holders (omega (arith, r.counter)) inv)
attach_resolved-IsOwned env req role d e (inr s) inv small unused r =
    attach_to_stream-IsOwned env req role s e
      (rw r.leases (Inv-SameHolders r.holders (omega (arith, r.counter)) inv)) (rw r.counter small)
      (rw r.leases unused) (r.found s refl)

-- The ways out of `attach`.
pub attach-cases :
    (env : Env) (req : AttachRequest) (d : Driver)
    → ((attach env req d).0 ≡ d)
      ⊎ ((role : ℕ) × (attach env req d ≡ attach_resolved env req role (resolve_stream env req d))
          × (client_id_in_use d.leases req.client_id ≡ false))
unfolding attach
attach-cases env req d = elim (Option-cases req.role) [
  | inl e ↦ inl (rw (e, attach))
  | inr r ↦ elim (Bool-cases (client_id_in_use d.leases req.client_id)) [
    | inl used ↦ inl (ground (arith, r.1))
    | inr unused ↦
        elim (Bool-cases
          (not (req.expected_layout_version == 0) && not (req.expected_layout_version == 1))) [
            | inl bad ↦ inl (ground (arith, r.1))
            | inr good ↦ inr (
              r.0,
              ground (arith, r.1, client_id_in_use-contains d.leases req.client_id unused),
              unused,
            )
          ]
  ]
]

-- tp_driver_handle_attach keeps the invariant of the lease table on every path, refusals and
-- failures half-way included, as long as the 64-bit lease counter has not reached its end.
pub attach-IsOwned :
    (env : Env) (req : AttachRequest) (d : Driver)
    → IsOwned d
    → d.lease_counter < 2 ^ 64 - 1
    → IsOwned (attach env req d).0
attach-IsOwned env req d inv small = elim (attach-cases env req d) [
  | inl e ↦ rw e inv
  | inr (role, e, unused) ↦ rw e (
      attach_resolved-IsOwned env req role d _ _ inv small unused
        (resolve_stream-Resolved env req d))
]
