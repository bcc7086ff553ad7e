-- ===== src/ConsumerRegistry/Wishes.antt =====
-- What `tp_consumer_registry_aggregate_progress` computes.
use tensor_pool_c.Common.{
  ℕ, ◌≤◌, ◌≡◌, ◌⊎◌, inl, inr, refl, ap, sym, subst, Bool, true, false, not, ◌&&◌, List, [], ◌∷◌,
  arith, ltb, ◌==◌, if◌then◌else◌, All, any, Bool-cases,
}
use tensor_pool_c.Common.Words.{null_u32}
use tensor_pool_c.ConsumerRegistry.State.{Entry}
use tensor_pool_c.ConsumerRegistry.Sweep.{lowest, aggregate_progress}

-- The entry has a wish for the field that `wish` reads.
abbrev pub has_wish : (Entry → ℕ) → Entry → Bool
has_wish wish e = (e.in_use && e.supports_progress) && not (wish e == null_u32)

-- `v` is the least of the wishes, or the default where there is none.
abbrev pub LeastWish : (Entry → ℕ) → ℕ → List Entry → ℕ → Type 0
LeastWish wish default entries v =
    ((any (has_wish wish) entries ≡ false) × (v ≡ default))
    ⊎ ((any (λ e. has_wish wish e && (wish e == v)) entries ≡ true)
        × All (λ e. (has_wish wish e ≡ false) ⊎ (v ≤ wish e)) entries)

module _ (wish : Entry → ℕ) where
  -- The minimum so far, and the entry's wish.
  abbrev least : Entry → ℕ → ℕ
  least e v = if has_wish wish e then (if ltb (wish e) v then wish e else v) else v

  lowest-least :
      (e : Entry) (entries : List Entry) (v : ℕ)
      → lowest wish (e ∷ entries) (v, true) ≡ lowest wish entries (least e v, true)
  unfolding lowest
  lowest-least e entries v = ap (lowest wish entries) (ground arith)

  lowest-asked :
      (e : Entry) (entries : List Entry) (default : ℕ)
      → has_wish wish e ≡ true
      → lowest wish (e ∷ entries) (default, false) ≡ lowest wish entries (wish e, true)
  unfolding lowest
  lowest-asked e entries default asks = ap (lowest wish entries) (ground arith)

  lowest-silent :
      (e : Entry) (entries : List Entry) (default : ℕ)
      → has_wish wish e ≡ false
      → lowest wish (e ∷ entries) (default, false) ≡ lowest wish entries (default, false)
  unfolding lowest
  lowest-silent e entries default silent = ap (lowest wish entries) (ground arith)

  lowest_bound : (entries : List Entry) (v : ℕ) → (lowest wish entries (v, true)).0 ≤ v
  unfolding lowest
  lowest_bound [] v = omega arith
  lowest_bound (e ∷ entries) v =
      ground (arith, lowest_bound entries v, lowest_bound entries (wish e))

  lowest_each :
      (entries : List Entry) (v : ℕ)
      → All (λ e. (has_wish wish e ≡ false) ⊎ ((lowest wish entries (v, true)).0 ≤ wish e)) entries
  lowest_each [] v = tt
  lowest_each (e ∷ entries) v =
      subst (λ m. All (λ k. (has_wish wish k ≡ false) ⊎ (m.0 ≤ wish k)) (e ∷ entries))
        (sym (lowest-least e entries v))
        (ground (arith, lowest_bound entries (least e v)), lowest_each entries (least e v))

  lowest_from :
      (entries : List Entry) (v : ℕ)
      → ((lowest wish entries (v, true)).0 ≡ v)
        ⊎ (any (λ e. has_wish wish e && (wish e == (lowest wish entries (v, true)).0)) entries
            ≡ true)
  unfolding lowest
  lowest_from [] v = inl refl
  lowest_from (e ∷ entries) v = ground (arith, lowest_from entries v, lowest_from entries (wish e))

  lowest-LeastWish :
      (entries : List Entry) (default : ℕ)
      → LeastWish wish default entries (lowest wish entries (default, false)).0
  unfolding lowest
  lowest-LeastWish [] default = inl (refl, refl)
  lowest-LeastWish (e ∷ entries) default = elim (Bool-cases (has_wish wish e)) [
    | inr silent ↦
        subst (λ m. LeastWish wish default (e ∷ entries) m.0)
          (sym (lowest-silent e entries default silent))
          (elim (lowest-LeastWish entries default) [
            | inl (no_one, d) ↦ inl (ground (arith, no_one), d)
            | inr (some_one, each) ↦ inr (ground (arith, some_one), (inl silent, each))
          ])
    | inl asks ↦
        subst (λ m. LeastWish wish default (e ∷ entries) m.0)
          (sym (lowest-asked e entries default asks))
          (inr (
            ground (arith, lowest_from entries (wish e)),
            (inr (lowest_bound entries (wish e)), lowest_each entries (wish e)),
          ))
  ]

-- Each field of the policy that tp_consumer_registry_aggregate_progress computes is the least wish
-- of the registered consumers that support progress and have one for it, and where there is none
-- the default: 250 us, 65536 bytes, and 0 major units.
pub aggregate_progress-least :
    (entries : List Entry)
    → LeastWish (λ e. e.progress_interval_us) 250 entries (aggregate_progress entries).interval_us
      × LeastWish
          (λ e. e.progress_bytes_delta)
          65536
          entries
          (aggregate_progress entries).bytes_delta
      × LeastWish
          (λ e. e.progress_major_delta_units)
          0
          entries
          (aggregate_progress entries).major_delta_units
unfolding aggregate_progress
aggregate_progress-least entries = (
  lowest-LeastWish (λ e. e.progress_interval_us) entries 250,
  lowest-LeastWish (λ e. e.progress_bytes_delta) entries 65536,
  lowest-LeastWish (λ e. e.progress_major_delta_units) entries 0,
)
