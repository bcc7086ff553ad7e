-- ===== src/JoinBarrier/Progress.antt =====
-- Updates of a barrier of src/common/tp_join_barrier.c: what is stored, that nothing goes back, and
-- that readiness is not lost.
use tensor_pool_c.Common.{
  ℕ, ◌≤◌, ◌≡◌, ◌≢◌, ◌↔◌, ◌⊎◌, inl, inr, refl, true, false, none, some, List, [], ◌∷◌, arith, ◌==◌,
  if◌then◌else◌, length, Bool-cases, Option-cases,
}
use tensor_pool_c.JoinBarrier.State.{
  Input, Barrier, find_state, update_state, is_stale, SequenceRule,
}
use tensor_pool_c.JoinBarrier.Update.{observe_seq, update_observed_seq}
use tensor_pool_c.JoinBarrier.Ready.{
  ready, is_ready_sequence, sequence_loop, sequence_round, has_reached,
}

-- A write to one stream's entry shows there and nowhere else.
find_state-update_state :
    (inputs : List Input) (y x : ℕ) (f : Input → Input) (s : Input)
    → find_state inputs y ≡ some s
    → (f s).stream_id ≡ s.stream_id
    → find_state (update_state y f inputs) x ≡ (if x == y then some (f s) else find_state inputs x)
unfolding find_state update_state
find_state-update_state [] y x f s h k = cc
find_state-update_state (t ∷ inputs) y x f s h k =
    ground (arith, find_state-update_state inputs y x f s)

find_state-stream_id :
    (inputs : List Input) (x : ℕ) (s : Input) → find_state inputs x ≡ some s → s.stream_id ≡ x
unfolding find_state
find_state-stream_id [] x s h = ground arith
find_state-stream_id (t ∷ inputs) x s h = ground (arith, find_state-stream_id inputs x s)

-- tp_join_barrier_update_observed_seq succeeds exactly for a stream of the map whose observed
-- sequence is unknown or not beyond `seq`.
pub update_observed_seq_accepts :
    (b : Barrier) (x seq now_ns : ℕ)
    → (update_observed_seq b x seq now_ns ≢ none) ↔ (
        (s : Input) × (find_state b.inputs x ≡ some s)
        × ((s.has_observed_seq ≡ false) ⊎ (s.observed_seq ≤ seq)))
unfolding update_observed_seq
update_observed_seq_accepts b x seq now_ns = elim (Option-cases (find_state b.inputs x)) [
  | inl e ↦ (λ h. absurd (h (rw (e, update_observed_seq))), λ (s, found, _) _. cc)
  | inr (s, e) ↦ (λ h. (s, e, ground arith), λ (t, found, k) n. ground arith)
]

-- What a successful tp_join_barrier_update_observed_seq does: the entry of stream `x` gets the
-- sequence and the time of the update and becomes valid as latest value, the first sequence of the
-- epoch stays once it is set, the entry of every other stream `y` stays, and so do the rules and settings.
pub update_observed_seq_effect :
    (b b' : Barrier) (x y seq now_ns : ℕ) (s : Input)
    → find_state b.inputs x ≡ some s
    → update_observed_seq b x seq now_ns ≡ some b'
    → (find_state b'.inputs y ≡ (
        if y == x
        then some (record s {
          observed_seq = seq;
          has_observed_seq = true;
          min_seq_in_epoch = if s.has_min_seq_in_epoch then s.min_seq_in_epoch else seq;
          has_min_seq_in_epoch = true;
          latest_valid = true;
          last_observed_update_ns = now_ns;
        })
        else find_state b.inputs y))
      × (b' ≡ record b { inputs = b'.inputs })
unfolding update_observed_seq observe_seq
update_observed_seq_effect b b' x y seq now_ns s found h = (
  ground (arith, found, find_state-update_state b.inputs x y (observe_seq seq now_ns) s found),
  ground (arith, found),
)

-- One round, before and after an update that does not go back.
round-observed :
    (b : Barrier) (r : SequenceRule) (s : Input) (out_seq now_ns later_ns seq t : ℕ)
    (inputs : List Input)
    → b.allow_stale ≡ false
    → (s.has_observed_seq ≡ true → s.observed_seq ≤ seq)
    → sequence_round b r s out_seq now_ns ≡ ready
    → sequence_round (record b { inputs = inputs }) r (observe_seq seq t s) out_seq later_ns ≡ ready
unfolding sequence_round is_stale has_reached observe_seq
round-observed b r s out_seq now_ns later_ns seq t inputs fresh grow h = ground arith

-- One round does not look at the clock or at the other inputs where nothing can be stale.
round-untouched :
    (b : Barrier) (r : SequenceRule) (s : Input) (out_seq now_ns later_ns : ℕ) (inputs : List Input)
    → b.allow_stale ≡ false
    → sequence_round (record b { inputs = inputs }) r s out_seq later_ns
      ≡ sequence_round b r s out_seq now_ns
unfolding sequence_round is_stale has_reached
round-untouched b r s out_seq now_ns later_ns inputs fresh = ground arith

module _ (b : Barrier) (out_seq now_ns later_ns : ℕ) (all : List Input)
    (fresh : b.allow_stale ≡ false) where
  loop-untouched :
      (rules : List SequenceRule) (inputs : List Input)
      → sequence_loop b rules inputs out_seq now_ns ≡ ready
      → sequence_loop (record b { inputs = all }) rules inputs out_seq later_ns ≡ ready
  unfolding sequence_loop
  loop-untouched [] inputs h = refl
  loop-untouched (r ∷ rules) [] h = refl
  loop-untouched (r ∷ rules) (s ∷ inputs) h =
      ground (
        arith,
        round-untouched b r s out_seq now_ns later_ns all fresh,
        loop-untouched rules inputs,
      )

  loop-observed :
      (rules : List SequenceRule) (inputs : List Input) (x seq t : ℕ) (s : Input)
      → find_state inputs x ≡ some s
      → (s.has_observed_seq ≡ true → s.observed_seq ≤ seq)
      → sequence_loop b rules inputs out_seq now_ns ≡ ready
      → sequence_loop
          (record b { inputs = all })
          rules
          (update_state x (observe_seq seq t) inputs)
          out_seq
          later_ns
        ≡ ready
  unfolding sequence_loop find_state update_state
  loop-observed [] inputs x seq t s found grow h = refl
  loop-observed (r ∷ rules) [] x seq t s found grow h = refl
  loop-observed (r ∷ rules) (u ∷ inputs) x seq t s found grow h =
      elim (Bool-cases (u.stream_id == x)) [
        | inl here ↦
            let same : u ≡ s = ground arith in
            ground (
              arith,
              here,
              round-observed b r u out_seq now_ns later_ns seq t all fresh (rw same grow),
              loop-untouched rules inputs,
            )
        | inr there ↦ ground (
          arith,
          there,
          round-untouched b r u out_seq now_ns later_ns all fresh,
          loop-observed rules inputs x seq t s (ground arith) grow,
        )
      ]

length-update_state :
    (x : ℕ) (f : Input → Input) (inputs : List Input)
    → length (update_state x f inputs) ≡ length inputs
unfolding update_state
length-update_state x f [] = refl
length-update_state x f (s ∷ inputs) = ground (arith, length-update_state x f inputs)

-- Where nothing can be stale, new input does not undo readiness: a barrier that is ready for
-- out_seq is still ready for it after any successful tp_join_barrier_update_observed_seq, at any
-- time.
pub update_observed_seq_keeps_ready :
    (b b' : Barrier) (x seq t out_seq now_ns later_ns : ℕ)
    → b.allow_stale ≡ false
    → is_ready_sequence b out_seq now_ns ≡ ready
    → update_observed_seq b x seq t ≡ some b'
    → is_ready_sequence b' out_seq later_ns ≡ ready
unfolding update_observed_seq is_ready_sequence
update_observed_seq_keeps_ready b b' x seq t out_seq now_ns later_ns fresh h u =
    elim (Option-cases (find_state b.inputs x)) [
      | inl e ↦ ground arith
      | inr (s, e) ↦ ground (
        arith,
        e,
        length-update_state x (observe_seq seq t) b.inputs,
        loop-observed b out_seq now_ns later_ns (update_state x (observe_seq seq t) b.inputs) fresh
            b.sequence_rules b.inputs x seq t s e,
      )
    ]
