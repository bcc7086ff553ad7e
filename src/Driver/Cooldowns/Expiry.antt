-- ===== src/Driver/Cooldowns/Expiry.antt =====
-- What the cooldown table of src/driver/tp_driver.c answers.
use mathlib.Core.List.{append_assoc}
use tensor_pool_c.Common.{
  ℕ, ◌+◌, ◌^◌, ◌≤◌, ◌<◌, sym, subst, Bool, All, ◌≡◌, refl, true, List, [], ◌∷◌, ◌++◌, arith, leb,
  ltb, ◌==◌, ◌&&◌, if◌then◌else◌, length, get_elem?-middle, remove_at-middle, length-append, any,
  not, update_first, ◌≢◌,
}
use tensor_pool_c.Common.Words.{mul64}
use tensor_pool_c.Driver.State.{Cooldown, Config, Driver, null_node_id}
use tensor_pool_c.Driver.Cooldowns.{
  prune_loop, prune, node_id_in_cooldown, record_cooldown, cooldown_expiry,
}

-- The entries that are still running, in order.
abbrev pub running : ℕ → List Cooldown → List Cooldown
running now [] = []
running now (c ∷ cs) = if leb c.expires_ns now then running now cs else c ∷ running now cs

prune_loop-running :
    (now : ℕ) (done cs : List Cooldown)
    → prune_loop (length cs) (length done) now (done ++ cs) ≡ done ++ running now cs
unfolding prune_loop
prune_loop-running now done [] = refl
prune_loop-running now done (c ∷ cs) = ground (
  arith,
  get_elem?-middle c cs done,
  remove_at-middle c cs done,
  length-append done (c ∷ []),
  append_assoc done (c ∷ []) cs,
  append_assoc done (c ∷ []) (running now cs),
  prune_loop-running now done cs,
  prune_loop-running now (done ++ (c ∷ [])) cs,
)

-- The loop of tp_driver_prune_node_id_cooldowns stops with exactly the entries whose expiry lies
-- after `now`, in their order.
prune-running : (now : ℕ) (cs : List Cooldown) → prune now cs ≡ running now cs
unfolding prune
prune-running now cs = prune_loop-running now [] cs

any-running :
    (now node_id : ℕ) (cs : List Cooldown)
    → any (λ c. c.node_id == node_id) (running now cs)
      ≡ any (λ c. (c.node_id == node_id) && ltb now c.expires_ns) cs
any-running now node_id [] = refl
any-running now node_id (c ∷ cs) = ground (arith, any-running now node_id cs)

-- tp_driver_node_id_in_cooldown answers 1 exactly if the node id is not 0 and some entry for it
-- expires after `now`.
node_id_in_cooldown_lem :
    (now node_id : ℕ) (cs : List Cooldown)
    → (node_id_in_cooldown now node_id cs).1
      ≡ not (node_id == 0) && any (λ c. (c.node_id == node_id) && ltb now c.expires_ns) cs
unfolding node_id_in_cooldown
node_id_in_cooldown_lem now node_id [] = ground arith
node_id_in_cooldown_lem now node_id (c ∷ cs) =
    ground (arith, prune-running now (c ∷ cs), any-running now node_id (c ∷ cs))

module _ (t node_id e : ℕ) (later : t < e) where
  blocks-snoc :
      (cs : List Cooldown)
      → any
          (λ c. (c.node_id == node_id) && ltb t c.expires_ns)
          (cs ++ (record { node_id = node_id; expires_ns = e } ∷ []))
        ≡ true
  blocks-snoc [] = ground arith
  blocks-snoc (c ∷ cs) = ground (arith, blocks-snoc cs)

  blocks-renewed :
      (cs : List Cooldown)
      → any (λ c. c.node_id == node_id) cs ≡ true
      → any
          (λ c. (c.node_id == node_id) && ltb t c.expires_ns)
          (update_first (λ c. c.node_id == node_id) (λ c. record c { expires_ns = e }) cs)
        ≡ true
  blocks-renewed [] h = cc
  blocks-renewed (c ∷ cs) h = ground (arith, blocks-renewed cs)

-- Some entry keeps the id beyond `t`.
abbrev Blocks : ℕ → ℕ → List Cooldown → Type 0
Blocks t node_id cs = any (λ c. (c.node_id == node_id) && ltb t c.expires_ns) cs ≡ true

-- What else happens to the table: `tp_driver_record_node_id_cooldown` (whether its array can grow, the
-- time, the id) and `tp_driver_node_id_in_cooldown` (the time, the id).
pub data Use : Type 0 where
  records : Bool → ℕ → ℕ → Use
  asks : ℕ → ℕ → Use

unfoldable pub use_cooldowns : Driver → List Use → Driver
use_cooldowns d [] = d
use_cooldowns d (records memory now node_id ∷ uses) =
    use_cooldowns (record_cooldown memory now node_id d) uses
use_cooldowns d (asks now node_id ∷ uses) =
    use_cooldowns (record d { cooldowns = (node_id_in_cooldown now node_id d.cooldowns).0 }) uses

-- The uses come between two times.
abbrev pub IsBetween : ℕ → ℕ → Use → Type 0
IsBetween now t (records memory u node_id) = (now ≤ u) × (u ≤ t)
IsBetween now t (asks u node_id) = (now ≤ u) × (u ≤ t)

module _ (t node_id : ℕ) where
  Blocks-running :
      (u : ℕ) (cs : List Cooldown) → u ≤ t → Blocks t node_id cs → Blocks t node_id (running u cs)
  Blocks-running u [] le h = cc
  Blocks-running u (c ∷ cs) le h = ground (arith, Blocks-running u cs)

  Blocks-prune :
      (u : ℕ) (cs : List Cooldown) → u ≤ t → Blocks t node_id cs → Blocks t node_id (prune u cs)
  Blocks-prune u cs le h = rw (prune-running u cs) (Blocks-running u cs le h)

  Blocks-append : (cs ds : List Cooldown) → Blocks t node_id cs → Blocks t node_id (cs ++ ds)
  Blocks-append [] ds h = cc
  Blocks-append (c ∷ cs) ds h = ground (arith, Blocks-append cs ds)

  -- A renewal by an expiry beyond `t`, of this id or of another.
  Blocks-renewed :
      (x e : ℕ) (cs : List Cooldown)
      → t < e
      → Blocks t node_id cs
      → Blocks t node_id (update_first (λ c. c.node_id == x) (λ c. record c { expires_ns = e }) cs)
  Blocks-renewed x e [] later h = cc
  Blocks-renewed x e (c ∷ cs) later h = ground (arith, Blocks-renewed x e cs)

  record_cooldown-Blocks :
      (memory : Bool) (u x : ℕ) (d : Driver)
      → u ≤ t
      → t < cooldown_expiry u d
      → Blocks t node_id d.cooldowns
      → Blocks t node_id (record_cooldown memory u x d).cooldowns
  unfolding record_cooldown
  record_cooldown-Blocks memory u x d le later h = ground (
    arith,
    Blocks-prune u d.cooldowns le h,
    Blocks-renewed x (cooldown_expiry u d) (prune u d.cooldowns) later,
    Blocks-append (prune u d.cooldowns)
        (record { node_id = x; expires_ns = cooldown_expiry u d } ∷ []),
  )

  asks-Blocks :
      (u x : ℕ) (cs : List Cooldown)
      → u ≤ t
      → Blocks t node_id cs
      → Blocks t node_id (node_id_in_cooldown u x cs).0
  unfolding node_id_in_cooldown
  asks-Blocks u x cs le h = ground (arith, Blocks-prune u cs le h)

record_cooldown_config :
    (memory : Bool) (u x : ℕ) (d : Driver) → (record_cooldown memory u x d).config ≡ d.config
unfolding record_cooldown
record_cooldown_config memory u x d = ground arith

-- How long a cooldown lasts.
abbrev pub cooldown_ns : Driver → ℕ
cooldown_ns d = mul64 d.config.node_id_reuse_cooldown_ms 1000000

use_cooldowns-Blocks :
    (now t node_id : ℕ) (d : Driver) (uses : List Use)
    → t < now + cooldown_ns d
    → t + cooldown_ns d < 2 ^ 64
    → All (IsBetween now t) uses
    → Blocks t node_id d.cooldowns
    → Blocks t node_id (use_cooldowns d uses).cooldowns
unfolding use_cooldowns
use_cooldowns-Blocks now t node_id d [] before small between h = h
use_cooldowns-Blocks now t node_id d (records memory u x ∷ uses) before small between h =
    use_cooldowns-Blocks now t node_id (record_cooldown memory u x d) uses
      (subst (λ (c : Config). t < now + mul64 c.node_id_reuse_cooldown_ms 1000000)
        (sym (record_cooldown_config memory u x d)) before)
      (subst (λ (c : Config). t + mul64 c.node_id_reuse_cooldown_ms 1000000 < 2 ^ 64)
        (sym (record_cooldown_config memory u x d)) small)
      between.1
      (record_cooldown-Blocks t node_id memory u x d between.0.1
        (omega (arith, between.0.0, between.0.1)) h)
use_cooldowns-Blocks now t node_id d (asks u x ∷ uses) before small between h =
    use_cooldowns-Blocks now t node_id
      (record d { cooldowns = (node_id_in_cooldown u x d.cooldowns).0 }) uses before small between.1
      (asks-Blocks t node_id u x d.cooldowns between.0.1 h)

-- A node id that has been given up cannot be taken again before its cooldown is over. Let
-- tp_driver_record_node_id_cooldown record it at `now` (it is neither 0 nor the null value, cooldowns
-- are configured, and the array could grow), and let any calls for any ids follow, of that function
-- and of tp_driver_node_id_in_cooldown, at times from `now` to `t`. Then
-- tp_driver_node_id_in_cooldown answers 1 for it at `t`, where `t` is before
-- now + node_id_reuse_cooldown_ms * 1000000 and no expiry leaves its 64 bits.
pub record_cooldown-blocks :
    (now t node_id : ℕ) (d : Driver) (uses : List Use)
    → node_id ≢ 0
    → node_id ≢ null_node_id
    → d.config.node_id_reuse_cooldown_ms ≢ 0
    → now ≤ t
    → t < now + cooldown_ns d
    → t + cooldown_ns d < 2 ^ 64
    → All (IsBetween now t) uses
    → (node_id_in_cooldown t node_id
        (use_cooldowns (record_cooldown true now node_id d) uses).cooldowns).1
      ≡ true
record_cooldown-blocks now t node_id d uses nz nn on le before small between = ground (
  arith,
  node_id_in_cooldown_lem t node_id
      (use_cooldowns (record_cooldown true now node_id d) uses).cooldowns,
  use_cooldowns-Blocks now t node_id (record_cooldown true now node_id d) uses
      (subst (λ (c : Config). t < now + mul64 c.node_id_reuse_cooldown_ms 1000000)
        (sym (record_cooldown_config true now node_id d)) before)
      (subst (λ (c : Config). t + mul64 c.node_id_reuse_cooldown_ms 1000000 < 2 ^ 64)
        (sym (record_cooldown_config true now node_id d)) small)
      between recorded,
)
  where
    later : t < cooldown_expiry now d
    later = omega (arith, before, small, le)

    recorded : Blocks t node_id (record_cooldown true now node_id d).cooldowns
    recorded =
        unfold record_cooldown in
        ground (
          arith,
          nz,
          nn,
          on,
          blocks-snoc t node_id (cooldown_expiry now d) later (prune now d.cooldowns),
          blocks-renewed t node_id (cooldown_expiry now d) later (prune now d.cooldowns),
        )
