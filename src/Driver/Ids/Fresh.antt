-- ===== src/Driver/Ids/Fresh.antt =====
-- The ids that src/driver/tp_driver.c chooses are free.
use tensor_pool_c.Common.{
  ℕ, zero, suc, ◌+◌, ◌-◌, ◌^◌, ◌≡◌, ◌≢◌, ◌⊎◌, refl, inl, inr, true, false, none, some, List, [],
  ◌∷◌, ◌==◌, if◌then◌else◌, Bool-cases, Option-cases, arith,
}
use tensor_pool_c.Common.Words.{u32}
use tensor_pool_c.Driver.State.{
  Driver, Env, IdRange, Stream, null_node_id, seed_counter, node_id_in_use, find_stream,
}
use tensor_pool_c.Driver.Cooldowns.{prune}
use tensor_pool_c.Driver.Ids.{
  candidate, try_node_id, node_id_loop, next_node_id, range_loop, allocate_from, allocate_stream_id,
}

-- What the search for a node id leaves alone.
pub record SameTables (d e : Driver) : Type 0 where
  pub config : e.config ≡ d.config
  pub streams : e.streams ≡ d.streams
  pub leases : e.leases ≡ d.leases
  pub lease_capacity : e.lease_capacity ≡ d.lease_capacity
  pub next_announce_ns : e.next_announce_ns ≡ d.next_announce_ns

try_node_id-SameTables : (env : Env) (d : Driver) (c : ℕ) → SameTables d (try_node_id env d c).0
unfolding try_node_id
try_node_id-SameTables env d c = ground arith

try_node_id-counter :
    (env : Env) (d : Driver) (c : ℕ) → (try_node_id env d c).0.lease_counter ≡ d.lease_counter
unfolding try_node_id
try_node_id-counter env d c = ground arith

try_node_id-free :
    (env : Env) (d : Driver) (c : ℕ)
    → (try_node_id env d c).1 ≡ true
    → (c ≢ 0) × (node_id_in_use d.leases c ≡ false)
unfolding try_node_id
try_node_id-free env d c h = ground arith

-- What the search for a node id leaves alone, and what it may have found.
pub record Chosen (d : Driver) (out : Driver × ℕ) : Type 0 where
  pub same : SameTables d out.0
  pub free : (out.1 ≡ null_node_id) ⊎ ((out.1 ≢ 0) × (node_id_in_use d.leases out.1 ≡ false))

SameTables-trans : {d e f : Driver} → SameTables d e → SameTables e f → SameTables d f
SameTables-trans p q = ground arith

round-Chosen :
    (env : Env) (d : Driver) (c : ℕ) (rest : Driver × ℕ)
    → Chosen (try_node_id env d c).0 rest
    → Chosen d (if (try_node_id env d c).1 then ((try_node_id env d c).0, c) else rest)
round-Chosen env d c rest h = elim (Bool-cases (try_node_id env d c).1) [
  | inl found ↦ rw found (record {
    same = try_node_id-SameTables env d c;
    free = inr (try_node_id-free env d c found);
  })
  | inr taken ↦ rw taken (record {
    same = SameTables-trans (try_node_id-SameTables env d c) h.same;
    free = rw (← (try_node_id-SameTables env d c).leases) h.free;
  })
]

node_id_loop-Chosen : (left : ℕ) (env : Env) (d : Driver) → Chosen d (node_id_loop left env d)
unfolding node_id_loop
node_id_loop-Chosen zero env d = ground arith
node_id_loop-Chosen (suc left) env d =
    round-Chosen env d c _ (node_id_loop-Chosen left env (try_node_id env d c).0)
  where
    c : ℕ
    c = candidate env d.lease_counter (1023 - left)

node_id_loop-counter :
    (left : ℕ) (env : Env) (d : Driver)
    → (node_id_loop left env d).0.lease_counter ≡ d.lease_counter
unfolding node_id_loop
node_id_loop-counter zero env d = refl
node_id_loop-counter (suc left) env d = ground (
  arith,
  try_node_id-counter env d (candidate env d.lease_counter (1023 - left)),
  node_id_loop-counter left env (try_node_id env d (candidate env d.lease_counter (1023 - left))).0,
)

-- tp_driver_next_node_id returns the null node id, or one that is not 0 and that no lease holds;
-- it changes no stream, no lease and no setting.
pub next_node_id-Chosen : (env : Env) (d : Driver) → Chosen d (next_node_id env d)
unfolding next_node_id
next_node_id-Chosen env d = ground (arith, node_id_loop-Chosen 1024 env start)
  where
    start : Driver
    start = record d {
      lease_counter = seed_counter env d;
      cooldowns = prune env.node_ns d.cooldowns;
    }

pub next_node_id-counter :
    (env : Env) (d : Driver) → (next_node_id env d).0.lease_counter ≡ seed_counter env d
unfolding next_node_id
next_node_id-counter env d = node_id_loop-counter 1024 env _

range_loop-free :
    (left : ℕ) (streams : List Stream) (range : IdRange) (cursor : ℕ) (r : ℕ × ℕ)
    → range_loop left streams range cursor ≡ some r
    → find_stream streams r.0 ≡ none
unfolding range_loop
range_loop-free zero streams range cursor r h = cc
range_loop-free (suc left) streams range cursor r h = ground (
  arith,
  range_loop-free left streams range (if cursor == range.end then range.start else u32 (cursor + 1))
      r,
)

allocate_from-free :
    (streams : List Stream) (ranges : List IdRange) (r : ℕ × List IdRange)
    → allocate_from streams ranges ≡ some r
    → find_stream streams r.0 ≡ none
unfolding allocate_from
allocate_from-free streams [] r h = cc
allocate_from-free streams (range ∷ ranges) r h =
    elim (Option-cases (range_loop span streams range range.next)) [
      | inl none_here ↦ elim (Option-cases (allocate_from streams ranges)) [
        | inl none_there ↦ ground arith
        | inr there ↦ ground (arith, allocate_from-free streams ranges there.0 there.1)
      ]
      | inr here ↦ ground (arith, range_loop-free span streams range range.next here.0 here.1)
    ]
  where
    span : ℕ
    span = u32 (range.end + 2 ^ 32 - range.start) + 1

pub allocate_stream_id-free :
    (d : Driver) (r : ℕ × Driver)
    → allocate_stream_id d ≡ some r
    → (find_stream d.streams r.0 ≡ none)
      × (r.1.streams ≡ d.streams)
      × (r.1.leases ≡ d.leases)
      × (r.1.lease_counter ≡ d.lease_counter)
unfolding allocate_stream_id
allocate_stream_id-free d r h =
    elim (Option-cases (allocate_from d.streams d.config.stream_id_ranges)) [
      | inl e ↦ ground arith
      | inr e ↦ ground (arith, allocate_from-free d.streams d.config.stream_id_ranges e.0 e.1)
    ]
