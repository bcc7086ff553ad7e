-- ===== src/Driver/Attach.antt =====
-- `tp_driver_handle_attach` of src/driver/tp_driver.c, in the order of its steps: the checks of the
-- request (`attach`), the stream (`resolve_stream`), the checks against the stream
-- (`attach_to_stream`), the epoch (`open_epoch`) and the lease (`grant`).
use tensor_pool_c.Common.{
  ℕ, Bool, true, false, ◌&&◌, ◌||◌, not, Option, none, some, ◌⊎◌, inl, inr, List, [], ◌∷◌, ltb,
  ◌==◌, if◌then◌else◌, length, find_first,
}
use tensor_pool_c.Common.Words.{add64, mul64}
use tensor_pool_c.Driver.State.{
  Profile, Config, Lease, Cooldown, Stream, Driver, Env, producer, null_node_id, Code, ok,
  invalid_params, rejected, internal_error, Message, attach_response, announce, next_lease_id,
  find_stream, update_stream, client_id_in_use, node_id_in_use, add_stream, add_lease, bump_epoch,
  create_shm_epoch,
}
use tensor_pool_c.Driver.Cooldowns.{node_id_in_cooldown}
use tensor_pool_c.Driver.Ids.{next_node_id, allocate_stream_id}

-- A decoded `ShmAttachRequest`. An enum is `none` where the generated accessor returns false.
pub record AttachRequest : Type 0 where
  pub correlation_id : ℕ
  pub stream_id : ℕ
  pub client_id : ℕ
  pub role : Option ℕ
  pub expected_layout_version : ℕ
  pub publish_mode : Option ℕ
  pub require_hugepages : Option ℕ
  pub desired_node_id : ℕ

-- A handler's result: the driver, and what it has sent.
abbrev pub Outcome : Type 0
Outcome = Driver × List Message

abbrev pub refuse : AttachRequest → Code → Driver → Outcome
refuse req code d = (d, attach_response req.correlation_id code none ∷ [])

-- `strcmp(a, b) == 0`
abbrev pub same_text : List ℕ → List ℕ → Bool
same_text [] [] = true
same_text [] (y ∷ ys) = false
same_text (x ∷ xs) [] = false
same_text (x ∷ xs) (y ∷ ys) = x == y && same_text xs ys

unfoldable pub default_profile : Config → Option Profile
default_profile config =
    if length config.default_profile == 0
    then none
    else find_first (λ p. same_text p.name config.default_profile) config.profiles

unfoldable pub lease_expiry : Config → ℕ → ℕ
lease_expiry config now =
    add64 now
      (mul64 (mul64 config.lease_keepalive_interval_ms 1000000) config.lease_expiry_grace_intervals)

-- `tp_driver_should_require_hugepages`; STANDARD is 1 and HUGEPAGES 2.
unfoldable pub should_require_hugepages : Config → ℕ → Bool
should_require_hugepages config policy =
    if policy == 2 then true else if policy == 1 then false else config.require_hugepages

-- The last part: lease id, node id, lease, ownership, announcement, response.
unfoldable pub assign_node_id : Env → ℕ → Driver → Driver × ℕ
assign_node_id env desired d = if desired == null_node_id then next_node_id env d else (d, desired)

unfoldable pub new_lease : Env → AttachRequest → ℕ → ℕ → ℕ → Driver → Stream → Lease
new_lease env req role lease_id node_id d s = record {
  lease_id = lease_id;
  expiry_ns = lease_expiry d.config env.now;
  issued_ns = env.now;
  stream_id = s.stream_id;
  client_id = req.client_id;
  node_id = node_id;
  role = role;
}

unfoldable pub take_stream : Lease → Stream → Stream
take_stream lease s =
    if lease.role == producer
    then record s { producer_lease_id = lease.lease_id; producer_client_id = lease.client_id }
    else s

unfoldable pub record_lease : Env → AttachRequest → Stream → Bool → Lease → Driver → Outcome
record_lease env req s huge lease d = elim (add_lease env d lease) [
  | none ↦ refuse req internal_error d
  | some e ↦ (
    record e { streams = update_stream s.stream_id (take_stream lease) e.streams },
    announce s.stream_id (take_stream lease s).producer_client_id s.epoch
        ∷ attach_response req.correlation_id ok
            (some (record { lease = lease; epoch = s.epoch; require_hugepages = huge }))
        ∷ [],
  )
]

unfoldable pub grant : Env → AttachRequest → ℕ → Stream → Bool → Driver → Outcome
grant env req role s huge d =
    if node.1 == null_node_id
    then refuse req internal_error node.0
    else record_lease env req s huge (new_lease env req role lease_id node.1 d s) node.0
  where
    lease_id : ℕ
    lease_id = next_lease_id env d

    node : Driver × ℕ
    node = assign_node_id env req.desired_node_id (record d { lease_counter = lease_id })

-- A producer, or the first lease of a stream, starts a new epoch.
unfoldable pub open_epoch : Env → AttachRequest → ℕ → Stream → Bool → Driver → Outcome
open_epoch env req role s huge d =
    if (role == producer) || (s.epoch == 0)
    then (if created.1
        then grant env req role created.0 huge opened
        else refuse req internal_error opened)
    else grant env req role s huge d
  where
    created : Stream × Bool
    created =
        create_shm_epoch env 0 (record (bump_epoch (env.epoch_ns 0) s) { require_hugepages = huge })

    opened : Driver
    opened = record d { streams = update_stream s.stream_id (λ _. created.0) d.streams }

-- The desired node id: whether it may be had, and the driver, whose cooldowns the question prunes.
unfoldable pub check_node_id : Env → ℕ → Driver → Driver × Bool
check_node_id env desired d =
    if desired == null_node_id
    then (d, true)
    else if node_id_in_use d.leases desired
    then (d, false)
    else (record d { cooldowns = asked.0 }, not asked.1)
  where
    asked : List Cooldown × Bool
    asked = node_id_in_cooldown env.check_ns desired d.cooldowns

-- Whether the pages that the request and the settings ask for are what the base directory gives.
unfoldable pub hugepages_refused : Env → Config → ℕ → Bool
hugepages_refused env config policy =
    if should_require_hugepages config policy
    then not env.hugepages_dir
    else (policy == 1) && env.hugepages_dir

abbrev pub policy_of : AttachRequest → ℕ
policy_of req = elim req.require_hugepages [ none ↦ 0 | some p ↦ p ]

unfoldable pub attach_to_stream : Env → AttachRequest → ℕ → Stream → Driver → Outcome
attach_to_stream env req role s d =
    if elim s.profile [ none ↦ true | some p ↦ length p.pools == 0 ]
    then refuse req invalid_params d
    else if (role == producer) && not (s.producer_lease_id == 0)
    then refuse req rejected d
    else if ltb 2 (policy_of req)
    then refuse req invalid_params d
    else if hugepages_refused env d.config (policy_of req)
    then refuse req rejected d
    else if checked.1
    then open_epoch env req role s huge checked.0
    else refuse req rejected checked.0
  where
    checked : Driver × Bool
    checked = check_node_id env req.desired_node_id d

    -- A stream that has an epoch keeps its pages.
    huge : Bool
    huge =
        if s.epoch == 0
        then should_require_hugepages d.config (policy_of req)
        else s.require_hugepages

-- A dynamic stream: its id, its profile, its entry. The stream, or the refusal's code.
unfoldable pub create_stream : Env → ℕ → Driver → Driver × (Code ⊎ Stream)
create_stream env stream_id d = elim (default_profile d.config) [
  | none ↦ (d, inl invalid_params)
  | some p ↦ elim (add_stream env d stream_id p) [
    | none ↦ (d, inl internal_error)
    | some e ↦
        (e, elim (find_stream e.streams stream_id) [ none ↦ inl invalid_params | some s ↦ inr s ])
  ]
]

-- EXISTING_OR_CREATE is 2, and what a missing or zero mode means.
abbrev pub create_allowed : AttachRequest → Bool
create_allowed req = elim req.publish_mode [ none ↦ true | some m ↦ (m == 0) || (m == 2) ]

unfoldable pub resolve_stream : Env → AttachRequest → Driver → Driver × (Code ⊎ Stream)
resolve_stream env req d = elim (find_stream d.streams req.stream_id) [
  | some s ↦ (d, inr s)
  | none ↦
      if create_allowed req && d.config.allow_dynamic_streams
      then (if req.stream_id == 0
          then elim (allocate_stream_id d) [
            | none ↦ (d, inl invalid_params)
            | some r ↦ create_stream env r.0 r.1
          ]
          else create_stream env req.stream_id d)
      else (d, inl rejected)
]

unfoldable pub attach_resolved : Env → AttachRequest → ℕ → Driver × (Code ⊎ Stream) → Outcome
attach_resolved env req role found = elim found.1 [
  | inl code ↦ refuse req code found.0
  | inr s ↦ attach_to_stream env req role s found.0
]

-- TP_LAYOUT_VERSION is 1.
unfoldable pub attach : Env → AttachRequest → Driver → Outcome
attach env req d = elim req.role [
  | none ↦ refuse req invalid_params d
  | some role ↦
      if req.client_id == 0
      then refuse req invalid_params d
      else if client_id_in_use d.leases req.client_id
      then refuse req rejected d
      else if not (req.expected_layout_version == 0) && not (req.expected_layout_version == 1)
      then refuse req rejected d
      else attach_resolved env req role (resolve_stream env req d)
]
