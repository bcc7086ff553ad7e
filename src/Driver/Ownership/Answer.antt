-- ===== src/Driver/Ownership/Answer.antt =====
-- What `tp_driver_handle_attach` answers, against what it does to the lease table.
use tensor_pool_c.Common.{
  ℕ, ◌≡◌, ◌⊎◌, inl, inr, refl, subst, Bool, true, false, ◌&&◌, ◌||◌, not, none, some, List, [], ◌∷◌,
  ◌++◌, arith, ltb, ◌==◌, if◌then◌else◌, length, Bool-cases, Option-cases, if_both,
}
use tensor_pool_c.Driver.State.{
  Lease, Stream, Driver, Env, Grant, producer, null_node_id, Code, ok, internal_error,
  invalid_params, rejected, announce, attach_response, next_lease_id, client_id_in_use, add_lease,
  create_shm_epoch, bump_epoch, update_stream,
}
use tensor_pool_c.Driver.Attach.{
  AttachRequest, Outcome, refuse, assign_node_id, new_lease, take_stream, record_lease, grant,
  open_epoch, check_node_id, attach_to_stream, resolve_stream, attach_resolved, attach, policy_of,
  hugepages_refused,
}
use tensor_pool_c.Driver.Ownership.Attach.{pages_of}
use tensor_pool_c.Driver.Ownership.Numbers.{assign_node_id-same, add_lease-Added}
use tensor_pool_c.Driver.Ownership.Resolve.{resolve_stream-Resolved}

-- A refusal with the leases as they were, or a grant whose lease has joined them.
abbrev pub IsAnswer : AttachRequest → List Lease → Outcome → Type 0
IsAnswer req leases out =
    ((out.0.leases ≡ leases)
      × ((code : Code) × (out.1 ≡ attach_response req.correlation_id code none ∷ [])))
    ⊎ ((g : Grant) × ((p : ℕ) × ((out.0.leases ≡ leases ++ (g.lease ∷ []))
            × (g.lease.client_id ≡ req.client_id)
            × (out.1
                ≡ announce g.lease.stream_id p g.epoch
                  ∷ attach_response req.correlation_id ok (some g)
                  ∷ []))))

module _ (env : Env) (req : AttachRequest) where
  refuse-IsAnswer :
      (leases : List Lease) (code : Code) (d : Driver)
      → d.leases ≡ leases
      → IsAnswer req leases (refuse req code d)
  refuse-IsAnswer leases code d same = inl (same, (code, refl))

  guard :
      (out : Outcome) (leases : List Lease) (b : Bool) (code : Code) (d : Driver)
      → d.leases ≡ leases
      → IsAnswer req leases out
      → IsAnswer req leases (if b then refuse req code d else out)
  guard out leases true code d same answer = refuse-IsAnswer leases code d same
  guard out leases false code d same answer = answer

  record_lease-IsAnswer :
      (s : Stream) (huge : Bool) (l : Lease) (d : Driver)
      → l.client_id ≡ req.client_id
      → l.stream_id ≡ s.stream_id
      → IsAnswer req d.leases (record_lease env req s huge l d)
  unfolding record_lease
  record_lease-IsAnswer s huge l d client stream = elim (Option-cases (add_lease env d l)) [
    | inl e ↦ rw (e, record_lease) (refuse-IsAnswer d.leases internal_error d refl)
    | inr (e, h) ↦
        rw (h, record_lease)
          (inr (
            record { lease = l; epoch = s.epoch; require_hugepages = huge },
            (
              (take_stream l s).producer_client_id,
              ((add_lease-Added env d l e h).leases, client, rw stream refl),
            ),
          ))
  ]

  grant-IsAnswer :
      (role : ℕ) (s : Stream) (huge : Bool) (d : Driver)
      → IsAnswer req d.leases (grant env req role s huge d)
  unfolding grant new_lease
  grant-IsAnswer role s huge d = elim (Bool-cases (node.1 == null_node_id)) [
    | inl e ↦ rw e (refuse-IsAnswer d.leases internal_error node.0 same)
    | inr e ↦ rw e (
        subst (λ leases. IsAnswer req leases (record_lease env req s huge lease node.0)) same
          (record_lease-IsAnswer s huge lease node.0 refl refl))
  ]
    where
      lease_id : ℕ
      lease_id = next_lease_id env d

      node : Driver × ℕ
      node = assign_node_id env req.desired_node_id (record d { lease_counter = lease_id })

      lease : Lease
      lease = new_lease env req role lease_id node.1 d s

      same : node.0.leases ≡ d.leases
      same = (assign_node_id-same env req.desired_node_id (record d { lease_counter = lease_id })).1

  open_epoch-IsAnswer :
      (role : ℕ) (s : Stream) (huge : Bool) (d : Driver)
      → IsAnswer req d.leases (open_epoch env req role s huge d)
  unfolding open_epoch
  open_epoch-IsAnswer role s huge d =
      if_both (IsAnswer req d.leases) ((role == producer) || (s.epoch == 0))
        (λ _.
          if_both (IsAnswer req d.leases) created.1 {x = grant env req role created.0 huge opened}
            {y = refuse req internal_error opened} (λ _. grant-IsAnswer role created.0 huge opened)
            (λ _. refuse-IsAnswer d.leases internal_error opened refl))
        (λ _. grant-IsAnswer role s huge d)
    where
      created : Stream × Bool
      created =
          create_shm_epoch env 0
            (record (bump_epoch (env.epoch_ns 0) s) { require_hugepages = huge })

      opened : Driver
      opened = record d { streams = update_stream s.stream_id (λ _. created.0) d.streams }

  check_node_id-leases : (n : ℕ) (d : Driver) → (check_node_id env n d).0.leases ≡ d.leases
  unfolding check_node_id
  check_node_id-leases n d = ground arith

  attach_to_stream-IsAnswer :
      (role : ℕ) (s : Stream) (d : Driver)
      → IsAnswer req d.leases (attach_to_stream env req role s d)
  unfolding attach_to_stream
  attach_to_stream-IsAnswer role s d =
      guard _ d.leases (elim s.profile [ none ↦ true | some p ↦ length p.pools == 0 ])
        invalid_params d refl
        (guard _ d.leases ((role == producer) && not (s.producer_lease_id == 0)) rejected d refl (
          guard _ d.leases (ltb 2 (policy_of req)) invalid_params d refl (
            guard _ d.leases (hugepages_refused env d.config (policy_of req)) rejected d refl
              (granted checked.1))))
    where
      checked : Driver × Bool
      checked = check_node_id env req.desired_node_id d

      same : checked.0.leases ≡ d.leases
      same = check_node_id-leases req.desired_node_id d

      granted :
          (b : Bool)
          → IsAnswer req d.leases (
              if b
              then open_epoch env req role s (pages_of env req s d) checked.0
              else refuse req rejected checked.0)
      granted true =
          subst
            (λ leases.
              IsAnswer req leases (open_epoch env req role s (pages_of env req s d) checked.0))
            same (open_epoch-IsAnswer role s (pages_of env req s d) checked.0)
      granted false = refuse-IsAnswer d.leases rejected checked.0 same

  attach_resolved-IsAnswer :
      (role : ℕ) (leases : List Lease) (e : Driver) (found : Code ⊎ Stream)
      → e.leases ≡ leases
      → IsAnswer req leases (attach_resolved env req role (e, found))
  unfolding attach_resolved
  attach_resolved-IsAnswer role leases e (inl code) same = refuse-IsAnswer leases code e same
  attach_resolved-IsAnswer role leases e (inr s) same =
      subst (λ ls. IsAnswer req ls (attach_to_stream env req role s e)) same
        (attach_to_stream-IsAnswer role s e)

  -- tp_driver_handle_attach answers every request by exactly one response: without a grant, and
  -- then the lease table is as it was, or with one, and then the table has grown at its end by the
  -- granted lease, which is the requesting client's, and the stream's announcement with the
  -- granted epoch goes before the response.
  pub attach-IsAnswer : (d : Driver) → IsAnswer req d.leases (attach env req d)
  unfolding attach
  attach-IsAnswer d = elim (Option-cases req.role) [
    | inl e ↦ rw (e, attach) (refuse-IsAnswer d.leases invalid_params d refl)
    | inr (role, e) ↦
        rw (e, attach)
          (guard _ d.leases (req.client_id == 0) invalid_params d refl (
            guard _ d.leases (client_id_in_use d.leases req.client_id) rejected d refl (
              guard _ d.leases
                (not (req.expected_layout_version == 0) && not (req.expected_layout_version == 1))
                rejected d refl
                (attach_resolved-IsAnswer role d.leases (resolve_stream env req d).0
                  (resolve_stream env req d).1 (resolve_stream-Resolved env req d).leases))))
  ]
