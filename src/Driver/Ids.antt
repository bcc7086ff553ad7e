-- ===== src/Driver/Ids.antt =====
-- The choice of node ids and of stream ids in src/driver/tp_driver.c.
pub mod Fresh
use Prim.Native.Nat.{bit_xor}
use tensor_pool_c.Common.{
  ℕ, zero, suc, ◌+◌, ◌-◌, ◌/◌, ◌^◌, Bool, true, false, ◌&&◌, not, Option, none, some, List, [], ◌∷◌,
  ltb, ◌==◌, if◌then◌else◌,
}
use tensor_pool_c.Common.Words.{u32}
use tensor_pool_c.Driver.State.{
  Cooldown, Driver, Env, IdRange, Stream, null_node_id, seed_u64, seed_counter, node_id_in_use,
  find_stream,
}
use tensor_pool_c.Driver.Cooldowns.{prune, node_id_in_cooldown}

-- The node id that round `attempts` of `tp_driver_next_node_id` tries. Draw 0 of the seed may
-- have gone to the lease counter.
unfoldable pub candidate : Env → ℕ → ℕ → ℕ
candidate env counter attempts =
    let seed = bit_xor (bit_xor (seed_u64 (env.entropy (attempts + 1))) counter) attempts in
    u32 (bit_xor seed (seed / 2 ^ 32))

-- The test of that round, and the driver after it: `&&` prunes the cooldowns only if the other
-- tests have passed.
unfoldable pub try_node_id : Env → Driver → ℕ → Driver × Bool
try_node_id env d c =
    if not (c == 0) && (not (c == null_node_id) && not (node_id_in_use d.leases c))
    then (record d { cooldowns = asked.0 }, not asked.1)
    else (d, false)
  where
    asked : List Cooldown × Bool
    asked = node_id_in_cooldown env.node_ns c d.cooldowns

-- The `while` of `tp_driver_next_node_id`, by the attempts left.
unfoldable pub node_id_loop : ℕ → Env → Driver → Driver × ℕ
node_id_loop zero env d = (d, null_node_id)
node_id_loop (suc left) env d =
    let c = candidate env d.lease_counter (1023 - left) in
    let tried = try_node_id env d c in
    let rest = node_id_loop left env tried.0 in if tried.1 then (tried.0, c) else rest

unfoldable pub next_node_id : Env → Driver → Driver × ℕ
next_node_id env d = node_id_loop 1024 env start
  where
    start : Driver
    start = record d {
      lease_counter = seed_counter env d;
      cooldowns = prune env.node_ns d.cooldowns;
    }

-- The `while` of `tp_driver_allocate_stream_id` within one range, by the attempts left: the id that
-- is free, and the range's new `next`.
unfoldable pub range_loop : ℕ → List Stream → IdRange → ℕ → Option (ℕ × ℕ)
range_loop zero streams range cursor = none
range_loop (suc left) streams range cursor =
    let next = if cursor == range.end then range.start else u32 (cursor + 1) in
    let rest = range_loop left streams range next in
    elim (find_stream streams cursor) [ none ↦ some (cursor, next) | some _ ↦ rest ]

-- The ranges are tried in order; the id, and the ranges with one `next` moved on. `end - start` is
-- a 32-bit difference.
unfoldable pub allocate_from : List Stream → List IdRange → Option (ℕ × List IdRange)
allocate_from streams [] = none
allocate_from streams (range ∷ ranges) =
    let rest = allocate_from streams ranges in
    elim (range_loop (u32 (range.end + 2 ^ 32 - range.start) + 1) streams range range.next) [
      | some (stream_id, next) ↦ some (stream_id, record range { next = next } ∷ ranges)
      | none ↦ elim rest [
        | none ↦ none
        | some (stream_id, ranges') ↦ some (stream_id, range ∷ ranges')
      ]
    ]

unfoldable pub allocate_stream_id : Driver → Option (ℕ × Driver)
allocate_stream_id d = elim (allocate_from d.streams d.config.stream_id_ranges) [
  | none ↦ none
  | some (stream_id, ranges) ↦
      some (stream_id, record d { config = record d.config { stream_id_ranges = ranges } })
]
