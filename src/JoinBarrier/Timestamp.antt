-- ===== src/JoinBarrier/Timestamp.antt =====
-- What `tp_join_barrier_is_ready_timestamp` decides, over the integers, and the order of its calls.
use tensor_pool_c.Common.{
  ℕ, ◌+◌, ◌^◌, ◌<◌, ◌≤◌, ◌≡◌, ◌↔◌, ◌⊎◌, refl, inl, inr, Bool-cases, true, List, [], ◌∷◌, arith,
  ◌==◌, if◌then◌else◌, length, All, false, not, ltb,
}
use tensor_pool_c.Common.Words.{add64}
use tensor_pool_c.Common.Int.{ℤ, pos, negsuc, add_signed, is_negative, Reaches, NonNegative}
use tensor_pool_c.JoinBarrier.State.{timestamp, TimestampRule, Input, Barrier, is_stale}
use tensor_pool_c.JoinBarrier.Ready.{
  Verdict, ready, not_ready, invalid, lateness_of, magnitude, is_below_zero, has_reached_time,
  timestamp_ready_for_rule, timestamp_round, timestamp_loop, is_ready_timestamp, take_out_time,
}

-- The rule allows an output at `out_time_ns`, and an input that has come to `k`, the lateness
-- included, is far enough for it.
abbrev pub TimeCovers : TimestampRule → ℕ → ℕ → Type 0
TimeCovers r out_time_ns k =
    if r.rule_type == 0
    then NonNegative out_time_ns r.offset_ns × Reaches k out_time_ns r.offset_ns
    else (r.window_ns ≤ out_time_ns) × (out_time_ns ≤ k)

abbrev pub TimeReady : Barrier → TimestampRule → Input → ℕ → ℕ → Type 0
TimeReady b r s out_time_ns now_ns =
    (is_stale b s now_ns ≡ true)
    ⊎ ((s.has_observed_time ≡ true)
        × TimeCovers r out_time_ns (s.observed_time_ns + lateness_of b)
        × ((b.require_processed ≡ false)
            ⊎ ((s.has_processed_time ≡ true)
                × TimeCovers r out_time_ns (s.processed_time_ns + lateness_of b))))

-- Offsets of at most 2^62 ns either way.
abbrev pub SmallOffset : ℤ → Type 0
SmallOffset (pos n) = n < 2 ^ 62
SmallOffset (negsuc n) = n < 2 ^ 62

abbrev pub TimeRuleValid : TimestampRule → Type 0
TimeRuleValid r =
    (r.rule_type ≤ 1) × SmallOffset r.offset_ns × ((r.rule_type ≡ 0) ⊎ (0 < r.window_ns))

-- The lateness does not carry an input's times over 64 bits.
abbrev pub TimesFit : ℕ → Input → Type 0
TimesFit late s = (s.observed_time_ns + late < 2 ^ 64) × (s.processed_time_ns + late < 2 ^ 64)

-- What an input has reached, for a required time.
abbrev Reached : Barrier → Input → ℕ → Type 0
Reached b s required =
    (required ≤ s.observed_time_ns + lateness_of b)
    × ((b.require_processed ≡ false)
        ⊎ ((s.has_processed_time ≡ true) × (required ≤ s.processed_time_ns + lateness_of b)))

has_reached_time_iff :
    (b : Barrier) (s : Input) (required : ℕ)
    → TimesFit (lateness_of b) s
    → (has_reached_time b s required ≡ ready) ↔ Reached b s required
unfolding has_reached_time
has_reached_time_iff b s required fit = (λ h. ground arith, λ h. ground arith)

-- What a rule requires: a time, or that the output waits, or an error.
requirement : ℕ → TimestampRule → ℕ → Verdict × ℕ
requirement late r out_time_ns =
    if r.rule_type == 0
    then (if is_negative (add_signed out_time_ns r.offset_ns)
        then (if ltb out_time_ns threshold then (not_ready, 0) else (ready, 0))
        else (ready, add_signed out_time_ns r.offset_ns))
    else if r.rule_type == 1
    then (if r.window_ns == 0
        then (invalid, 0)
        else if ltb out_time_ns r.window_ns
        then (not_ready, 0)
        else (ready, out_time_ns))
    else (invalid, 0)
  where
    threshold : ℕ
    threshold = if is_below_zero r.offset_ns then add64 late (magnitude r.offset_ns) else late

ready_for_rule-requirement :
    (b : Barrier) (r : TimestampRule) (s : Input) (out_time_ns : ℕ)
    → timestamp_ready_for_rule b s r out_time_ns ≡ (
        if not s.has_observed_time
        then not_ready
        else elim (requirement (lateness_of b) r out_time_ns).0 [
          | ready ↦ has_reached_time b s (requirement (lateness_of b) r out_time_ns).1
          | not_ready ↦ not_ready
          | invalid ↦ invalid
        ])
unfolding timestamp_ready_for_rule requirement
ready_for_rule-requirement b r s out_time_ns = ground arith

requirement_iff :
    (late : ℕ) (r : TimestampRule) (out_time_ns k : ℕ)
    → TimeRuleValid r
    → late < 2 ^ 63
    → out_time_ns < 2 ^ 62
    → TimeCovers r out_time_ns k
      ↔ (((requirement late r out_time_ns).0 ≡ ready) × ((requirement late r out_time_ns).1 ≤ k))
unfolding requirement
requirement_iff late r out_time_ns k v few small = (λ h. ground arith, λ h. ground arith)

timestamp_round_iff :
    (b : Barrier) (r : TimestampRule) (s : Input) (out_time_ns now_ns : ℕ)
    → TimeRuleValid r
    → TimesFit (lateness_of b) s
    → lateness_of b < 2 ^ 63
    → out_time_ns < 2 ^ 62
    → (timestamp_round b r s out_time_ns now_ns ≡ ready) ↔ TimeReady b r s out_time_ns now_ns
unfolding timestamp_round
timestamp_round_iff b r s out_time_ns now_ns v fit few small =
    elim (Bool-cases (is_stale b s now_ns)) [
      | inl stale ↦ (λ _. inl stale, λ _. ground arith)
      | inr fresh ↦ elim (Bool-cases s.has_observed_time) [
        | inr unseen ↦
            (λ h. ground (arith, ready_for_rule-requirement b r s out_time_ns), λ h. ground arith)
        | inl seen ↦ (
          λ h. inr (
              let reached =
                (has_reached_time_iff b s needs.1 fit).0
                  (ground (arith, ready_for_rule-requirement b r s out_time_ns)) in
              let go : needs.0 ≡ ready =
                ground (arith, ready_for_rule-requirement b r s out_time_ns) in
              (
                seen,
                (requirement_iff late r out_time_ns (s.observed_time_ns + late) v few small).1
                    (go, reached.0),
                elim reached.1 [
                  | inl p ↦ inl p
                  | inr (p, q) ↦ inr (
                    p,
                    (requirement_iff late r out_time_ns (s.processed_time_ns + late) v few small).1
                        (go, q),
                  )
                ],
              )),
          λ h. elim h [
            | inl stale ↦ cc
            | inr (_, observed, processed) ↦
                let o =
                  (requirement_iff late r out_time_ns (s.observed_time_ns + late) v few small).0
                    observed in
                let reached : has_reached_time b s needs.1 ≡ ready =
                  (has_reached_time_iff b s needs.1 fit).1 (
                    o.1,
                    elim processed [
                      | inl p ↦ inl p
                      | inr (p, q) ↦ inr (
                        p,
                        ((requirement_iff late r out_time_ns (s.processed_time_ns + late) v few
                              small).0
                            q).1,
                      )
                    ],
                  ) in
                ground (arith, ready_for_rule-requirement b r s out_time_ns)
          ],
        )
      ]
    ]
  where
    late : ℕ
    late = lateness_of b

    needs : Verdict × ℕ
    needs = requirement late r out_time_ns

abbrev pub TimesReady : Barrier → List TimestampRule → List Input → ℕ → ℕ → Type 0
TimesReady b [] inputs out_time_ns now_ns = Unit
TimesReady b (r ∷ rules) [] out_time_ns now_ns = Unit
TimesReady b (r ∷ rules) (s ∷ inputs) out_time_ns now_ns =
    TimeReady b r s out_time_ns now_ns × TimesReady b rules inputs out_time_ns now_ns

module _ (b : Barrier) (out_time_ns now_ns : ℕ) (few : lateness_of b < 2 ^ 63)
    (small : out_time_ns < 2 ^ 62) where
  timestamp_loop_sound :
      (rules : List TimestampRule) (inputs : List Input)
      → All TimeRuleValid rules
      → All (TimesFit (lateness_of b)) inputs
      → timestamp_loop b rules inputs out_time_ns now_ns ≡ ready
      → TimesReady b rules inputs out_time_ns now_ns
  unfolding timestamp_loop
  timestamp_loop_sound [] inputs v fit h = tt
  timestamp_loop_sound (r ∷ rules) [] v fit h = tt
  timestamp_loop_sound (r ∷ rules) (s ∷ inputs) v fit h = (
    (timestamp_round_iff b r s out_time_ns now_ns v.0 fit.0 few small).0 (ground arith),
    timestamp_loop_sound rules inputs v.1 fit.1 (ground arith),
  )

  timestamp_loop_complete :
      (rules : List TimestampRule) (inputs : List Input)
      → All TimeRuleValid rules
      → All (TimesFit (lateness_of b)) inputs
      → TimesReady b rules inputs out_time_ns now_ns
      → timestamp_loop b rules inputs out_time_ns now_ns ≡ ready
  unfolding timestamp_loop
  timestamp_loop_complete [] inputs v fit h = refl
  timestamp_loop_complete (r ∷ rules) [] v fit h = refl
  timestamp_loop_complete (r ∷ rules) (s ∷ inputs) v fit h =
      rw ((timestamp_round_iff b r s out_time_ns now_ns v.0 fit.0 few small).1 h.0, timestamp_loop)
        (timestamp_loop_complete rules inputs v.1 fit.1 h.1)

-- The loop does not read the time of the last output.
round-take_out_time :
    (b : Barrier) (r : TimestampRule) (s : Input) (t out_time_ns now_ns : ℕ)
    → timestamp_round (take_out_time b t) r s out_time_ns now_ns
      ≡ timestamp_round b r s out_time_ns now_ns
unfolding timestamp_round is_stale timestamp_ready_for_rule has_reached_time
round-take_out_time b r s t out_time_ns now_ns = refl

loop-take_out_time :
    (b : Barrier) (rules : List TimestampRule) (inputs : List Input) (t out_time_ns now_ns : ℕ)
    → timestamp_loop (take_out_time b t) rules inputs out_time_ns now_ns
      ≡ timestamp_loop b rules inputs out_time_ns now_ns
unfolding timestamp_loop
loop-take_out_time b [] inputs t out_time_ns now_ns = refl
loop-take_out_time b (r ∷ rules) [] t out_time_ns now_ns = refl
loop-take_out_time b (r ∷ rules) (s ∷ inputs) t out_time_ns now_ns = ground (
  arith,
  round-take_out_time b r s t out_time_ns now_ns,
  loop-take_out_time b rules inputs t out_time_ns now_ns,
)

-- tp_join_barrier_is_ready_timestamp answers 1 exactly if the barrier joins by timestamp, has an
-- input, the clock domain is the map's (or the map has none), the output does not go back in time,
-- and every input is stale or has been observed (and processed, where that is asked) up to what its
-- rule needs, the lateness added: out_time + offset for an OFFSET_NS rule, where that is not
-- negative, and out_time for a WINDOW_NS rule, where the window has passed. The rules are of those
-- two types, with offsets below 2^62 and windows that are not empty; the output's time is below
-- 2^62, and no sum with the lateness leaves its 64 bits.
pub is_ready_timestamp_iff :
    (b : Barrier) (out_time_ns clock_domain now_ns : ℕ)
    → All TimeRuleValid b.timestamp_rules
    → All (TimesFit (lateness_of b)) b.inputs
    → lateness_of b < 2 ^ 63
    → out_time_ns < 2 ^ 62
    → ((is_ready_timestamp b out_time_ns clock_domain now_ns).1 ≡ ready) ↔ (
        (b.type ≡ timestamp)
        × (0 < length b.inputs)
        × ((b.clock_domain ≡ 0) ⊎ (clock_domain ≡ b.clock_domain))
        × ((b.has_last_out_time ≡ false) ⊎ (b.last_out_time_ns ≤ out_time_ns))
        × TimesReady b b.timestamp_rules b.inputs out_time_ns now_ns)
unfolding is_ready_timestamp
is_ready_timestamp_iff b out_time_ns clock_domain now_ns v fit few small = (
  λ h. (
    ground arith,
    ground arith,
    ground arith,
    ground arith,
    timestamp_loop_sound b out_time_ns now_ns few small b.timestamp_rules b.inputs v fit (
        ground
          (arith, loop-take_out_time b b.timestamp_rules b.inputs out_time_ns out_time_ns now_ns)),
  ),
  λ h. ground (
    arith,
    h.0,
    h.1,
    h.2,
    h.3,
    loop-take_out_time b b.timestamp_rules b.inputs out_time_ns out_time_ns now_ns,
    timestamp_loop_complete b out_time_ns now_ns few small b.timestamp_rules b.inputs v fit h.4,
  ),
)

-- The output's time never goes back. Once a barrier has given out a time,
-- tp_join_barrier_is_ready_timestamp leaves the time of the last output alone or sets it to
-- out_time, which is then not before it; an earlier out_time changes nothing and is answered by an
-- error, or by 0 if the barrier has no input.
pub is_ready_timestamp_order :
    (b : Barrier) (out_time_ns clock_domain now_ns : ℕ)
    → b.has_last_out_time ≡ true
    → (((is_ready_timestamp b out_time_ns clock_domain now_ns).0 ≡ b)
        ⊎ (((is_ready_timestamp b out_time_ns clock_domain now_ns).0
              ≡ record b { last_out_time_ns = out_time_ns })
            × (b.last_out_time_ns ≤ out_time_ns)))
      × ((b.last_out_time_ns ≤ out_time_ns)
          ⊎ (((is_ready_timestamp b out_time_ns clock_domain now_ns).0 ≡ b)
              × (((is_ready_timestamp b out_time_ns clock_domain now_ns).1 ≡ invalid)
                  ⊎ ((length b.inputs ≡ 0)
                      × ((is_ready_timestamp b out_time_ns clock_domain now_ns).1 ≡ not_ready)))))
unfolding is_ready_timestamp
is_ready_timestamp_order b out_time_ns clock_domain now_ns given = (ground arith, ground arith)
