-- ===== src/ConsumerRegistry/Sweeps.antt =====
-- What `tp_consumer_registry_sweep` does to the map from consumer ids to entries, and what holds
-- after any sequence of updates and sweeps.
use tensor_pool_c.Common.{
  ℕ, ◌+◌, ◌≡◌, inl, inr, refl, false, none, some, List, [], ◌∷◌, arith, if◌then◌else◌, length,
  Option-cases, All, contains,
}
use tensor_pool_c.ConsumerRegistry.State.{Entry, Hello, find}
use tensor_pool_c.ConsumerRegistry.Update.{update}
use tensor_pool_c.ConsumerRegistry.Sweep.{sweep, is_stale}
use tensor_pool_c.ConsumerRegistry.Lookup.{ids, IsRegistry, find-none, update-IsRegistry}

module _ (now_ns stale_ns : ℕ) where
  contains-sweep :
      (x : ℕ) (entries : List Entry)
      → contains x (ids entries) ≡ false
      → contains x (ids (sweep entries now_ns stale_ns).0) ≡ false
  unfolding sweep
  contains-sweep x [] h = refl
  contains-sweep x (e ∷ entries) h = ground (arith, contains-sweep x entries)

  sweep-IsRegistry :
      (entries : List Entry) → IsRegistry entries → IsRegistry (sweep entries now_ns stale_ns).0
  unfolding sweep
  sweep-IsRegistry [] d = d
  sweep-IsRegistry (e ∷ entries) d =
      ground (arith, sweep-IsRegistry entries, contains-sweep e.consumer_id entries)

-- tp_consumer_registry_sweep forgets exactly the consumers that have been silent for more than
-- `stale_ns` (a 64-bit difference): where no consumer has two entries, the lookup of any `x` finds
-- afterwards what it found before, unless that is stale, and then nothing.
pub sweep-lookup :
    (entries : List Entry) (now_ns stale_ns x : ℕ)
    → IsRegistry entries
    → find (sweep entries now_ns stale_ns).0 x ≡ elim (find entries x) [
      | none ↦ none
      | some e ↦ if is_stale now_ns stale_ns e then none else some e
    ]
unfolding sweep find
sweep-lookup [] now_ns stale_ns x d = refl
sweep-lookup (e ∷ entries) now_ns stale_ns x d = ground (
  arith,
  sweep-lookup entries now_ns stale_ns x,
  find-none x (sweep entries now_ns stale_ns).0,
  contains-sweep now_ns stale_ns x entries,
)

-- tp_consumer_registry_sweep returns the number of consumers that it forgets.
sweep-count :
    (entries : List Entry) (now_ns stale_ns : ℕ)
    → length (ids (sweep entries now_ns stale_ns).0) + (sweep entries now_ns stale_ns).1
      ≡ length (ids entries)
unfolding sweep
sweep-count [] now_ns stale_ns = refl
sweep-count (e ∷ entries) now_ns stale_ns = ground (arith, sweep-count entries now_ns stale_ns)

-- The producer's calls.
pub data Event : Type 0 where
  hello_at : Hello → ℕ → Event
  sweep_at : ℕ → ℕ → Event

-- A call that fails changes nothing.
unfoldable pub step : List Entry → Event → List Entry
step entries (hello_at hello now_ns) = elim (update entries hello now_ns) [
  | none ↦ entries
  | some out ↦ out.0
]
step entries (sweep_at now_ns stale_ns) = (sweep entries now_ns stale_ns).0

unfoldable pub run : List Entry → List Event → List Entry
unfolding step
run entries [] = entries
run entries (event ∷ events) = run (step entries event) events

step-IsRegistry :
    (entries : List Entry) (event : Event) → IsRegistry entries → IsRegistry (step entries event)
unfolding step
step-IsRegistry entries (hello_at hello now_ns) d =
    elim (Option-cases (update entries hello now_ns)) [
      | inl e ↦ rw (e, step) d
      | inr (out, e) ↦ rw (e, step) (update-IsRegistry entries hello now_ns out d e)
    ]
step-IsRegistry entries (sweep_at now_ns stale_ns) d = sweep-IsRegistry now_ns stale_ns entries d

unused-ids : (entries : List Entry) → All (λ e. e.in_use ≡ false) entries → ids entries ≡ []
unused-ids [] h = refl
unused-ids (e ∷ entries) h = ground (arith, unused-ids entries)

run-IsRegistry_from :
    (entries : List Entry) (events : List Event)
    → IsRegistry entries
    → IsRegistry (run entries events)
unfolding run
run-IsRegistry_from entries [] d = d
run-IsRegistry_from entries (event ∷ events) d =
    run-IsRegistry_from (step entries event) events (step-IsRegistry entries event d)

-- No consumer has two entries, after any sequence of updates and sweeps on a registry whose
-- entries were all unused at the start.
pub run-IsRegistry :
    (entries : List Entry) (events : List Event)
    → All (λ e. e.in_use ≡ false) entries
    → IsRegistry (run entries events)
run-IsRegistry entries events h = run-IsRegistry_from entries events (rw (unused-ids entries h) tt)
