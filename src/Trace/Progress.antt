-- ===== src/Trace/Progress.antt =====
-- `tp_trace_id_generator_next` returns.
use tensor_pool_c.Common.{
  ℕ, ◌≡◌, ◌≢◌, inl, inr, Bool, true, none, List, [], ◌∷◌, arith, ltb, any, not, ◌&&◌, Option-cases,
}
use tensor_pool_c.Common.Words.{sub64}
use tensor_pool_c.Trace.Generator.{Generator, alone, shift_right, proposal, round, next}

-- The reading is later than the last id's time.
abbrev pub is_later : Generator → ℕ → Bool
is_later g now_ms =
    ltb (shift_right g.timestamp_sequence g.node_id_and_sequence_bits)
      (sub64 now_ms g.timestamp_offset_ms)

-- A round that reads such a time, and whose compare and swap does not fail.
abbrev pub is_decisive : Generator → ℕ × Bool → Bool
is_decisive g (now_ms, spurious) = is_later g now_ms && not spurious

round_decisive :
    (g : Generator) (now_ms : ℕ) (spurious : Bool)
    → is_decisive g (now_ms, spurious) ≡ true
    → (round g (alone g now_ms spurious)).1 ≢ none
unfolding round proposal
round_decisive g now_ms spurious h = ground arith

-- A thread that is alone does not spin for ever: tp_trace_id_generator_next returns an id at the
-- latest with the first round whose reading of the clock is later than the time of the last id and
-- whose weak compare and swap does not fail.
pub next_returns :
    (g : Generator) (rounds : List (ℕ × Bool))
    → any (is_decisive g) rounds ≡ true
    → next g rounds ≢ none
unfolding next
next_returns g [] h = cc
next_returns g ((now_ms, spurious) ∷ rounds) h =
    elim (Option-cases (round g (alone g now_ms spurious)).1) [
      | inl e ↦ ground (arith, e, round_decisive g now_ms spurious, next_returns g rounds)
      | inr (id, e) ↦ ground (arith, e)
    ]
