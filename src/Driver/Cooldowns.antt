-- ===== src/Driver/Cooldowns.antt =====
-- The cooldown of node ids in src/driver/tp_driver.c: a node id that a lease has given up is not
-- handed out again until its cooldown has expired.
pub mod Expiry
use tensor_pool_c.Common.{
  ℕ, zero, suc, ◌+◌, ◌*◌, Bool, true, false, ◌&&◌, ◌||◌, Option, none, some, List, [], ◌∷◌, ◌++◌,
  ltb, leb, ◌==◌, if◌then◌else◌, length, get_elem?, remove_at, update_first, any,
}
use tensor_pool_c.Common.Words.{add64, mul64}
use tensor_pool_c.Driver.State.{Cooldown, Driver, Env, null_node_id}

-- The `while` of `tp_driver_prune_node_id_cooldowns`, with fuel for the entries from `i` on: an
-- expired entry is moved over, any other passed by.
unfoldable pub prune_loop : ℕ → ℕ → ℕ → List Cooldown → List Cooldown
prune_loop zero i now cs = cs
prune_loop (suc fuel) i now cs = elim (get_elem? cs i) [
  | none ↦ cs
  | some c ↦
      if leb c.expires_ns now
      then prune_loop fuel i now (remove_at i cs)
      else prune_loop fuel (i + 1) now cs
]

unfoldable pub prune : ℕ → List Cooldown → List Cooldown
unfolding prune_loop
prune now cs = prune_loop (length cs) 0 now cs

-- `tp_driver_node_id_in_cooldown`: the pruned table, and the answer.
unfoldable pub node_id_in_cooldown : ℕ → ℕ → List Cooldown → List Cooldown × Bool
unfolding prune
node_id_in_cooldown now node_id cs =
    if (node_id == 0) || (length cs == 0)
    then (cs, false)
    else (prune now cs, any (λ c. c.node_id == node_id) (prune now cs))

abbrev pub cooldown_expiry : ℕ → Driver → ℕ
cooldown_expiry now d = add64 now (mul64 d.config.node_id_reuse_cooldown_ms 1000000)

-- `tp_driver_record_node_id_cooldown`, whose result every caller ignores. Where the array cannot
-- grow the entry is lost, and the pruned table stays.
unfoldable pub record_cooldown : Bool → ℕ → ℕ → Driver → Driver
unfolding prune
record_cooldown memory now node_id d =
    if ((node_id == 0) || (node_id == null_node_id)) || (d.config.node_id_reuse_cooldown_ms == 0)
    then d
    else if any (λ c. c.node_id == node_id) pruned
    then record d { cooldowns = update_first (λ c. c.node_id == node_id) renew pruned }
    else if ltb d.cooldown_capacity (length pruned + 1)
    then (if memory
        then record d { cooldowns = pruned ++ (entry ∷ []); cooldown_capacity = new_capacity }
        else record d { cooldowns = pruned })
    else record d { cooldowns = pruned ++ (entry ∷ []) }
  where
    pruned : List Cooldown
    pruned = prune now d.cooldowns

    entry : Cooldown
    entry = record { node_id = node_id; expires_ns = cooldown_expiry now d }

    renew : Cooldown → Cooldown
    renew c = record c { expires_ns = cooldown_expiry now d }

    new_capacity : ℕ
    new_capacity = if d.cooldown_capacity == 0 then 8 else d.cooldown_capacity * 2
