-- ===== src/Trace/Generator.antt =====
-- `tp_trace_id_generator_t` of include/tensor_pool/common/tp_trace.h and the functions of
-- src/common/tp_trace.c. A shift keeps the low 64 bits; C leaves shifts by 64 or more open, and no
-- width that sums to at most 22 asks for one.
use Prim.Native.Nat.{bit_and, bit_or}
use tensor_pool_c.Common.{
  ℕ, ◌+◌, ◌*◌, ◌/◌, ◌%◌, ◌^◌, Bool, not, ◌&&◌, Option, none, some, List, [], ◌∷◌, ltb, ◌==◌,
  if◌then◌else◌,
}
use tensor_pool_c.Common.Words.{u8, add64, sub64}

pub record Generator : Type 0 where
  pub timestamp_sequence : ℕ
  pub node_id_bits : ℕ
  pub sequence_bits : ℕ
  pub node_id_and_sequence_bits : ℕ
  pub max_node_id : ℕ
  pub max_sequence : ℕ
  pub node_bits : ℕ
  pub timestamp_offset_ms : ℕ

abbrev pub shift_left : ℕ → ℕ → ℕ
shift_left x k = x * 2 ^ k % 2 ^ 64

abbrev pub shift_right : ℕ → ℕ → ℕ
shift_right x k = x / 2 ^ k

-- `tp_trace_id_generator_init`: `default_ms` is the reading of the default clock, `now_ms` that of
-- the generator's clock.
unfoldable pub init :
    (node_id_bits sequence_bits node_id timestamp_offset_ms default_ms now_ms : ℕ)
    → Option Generator
init node_id_bits sequence_bits node_id timestamp_offset_ms default_ms now_ms =
    if ltb 22 bits
    then none
    else if ltb max_node_id node_id
    then none
    else if ltb default_ms timestamp_offset_ms
    then none
    else if ltb now_ms timestamp_offset_ms
    then none
    else some (record {
      timestamp_sequence = 0;
      node_id_bits = node_id_bits;
      sequence_bits = sequence_bits;
      node_id_and_sequence_bits = bits;
      max_node_id = max_node_id;
      max_sequence = sub64 (shift_left 1 sequence_bits) 1;
      node_bits = shift_left node_id sequence_bits;
      timestamp_offset_ms = timestamp_offset_ms;
    })
  where
    bits : ℕ
    bits = u8 (node_id_bits + sequence_bits)

    max_node_id : ℕ
    max_node_id = sub64 (shift_left 1 node_id_bits) 1

-- `tp_trace_id_generator_init_default`, with two readings of the default clock.
unfoldable pub init_default : (node_id default_ms now_ms : ℕ) → Option Generator
init_default node_id default_ms now_ms = init 10 12 node_id 0 default_ms now_ms

-- The word that a round of `tp_trace_id_generator_next` wants to store, from the word that it has
-- loaded and its reading of the clock; none where the sequence of this millisecond is used up.
unfoldable pub proposal : Generator → ℕ → ℕ → Option ℕ
proposal g seen now_ms =
    if ltb (shift_right seen g.node_id_and_sequence_bits) timestamp_ms
    then some (shift_left timestamp_ms g.node_id_and_sequence_bits)
    else if ltb (bit_and seen g.max_sequence) g.max_sequence
    then some (add64 seen 1)
    else none
  where
    timestamp_ms : ℕ
    timestamp_ms = sub64 now_ms g.timestamp_offset_ms

-- One round, by any thread: the word that it loaded before, its reading of the clock, and whether
-- the weak compare and swap fails though the words agree.
pub record Attempt : Type 0 where
  pub seen : ℕ
  pub now_ms : ℕ
  pub spurious : Bool

-- The round's compare and swap, and the id if it succeeds.
unfoldable pub round : Generator → Attempt → Generator × Option ℕ
unfolding proposal
round g a = elim (proposal g a.seen a.now_ms) [
  | none ↦ (g, none)
  | some word ↦
      if (g.timestamp_sequence == a.seen) && not a.spurious
      then (record g { timestamp_sequence = word }, some (bit_or word g.node_bits))
      else (g, none)
]

-- The ids that the rounds of all threads return, in the order of their compare and swaps.
unfoldable pub ids : Generator → List Attempt → List ℕ
ids g [] = []
ids g (a ∷ attempts) =
    let out = round g a in
    let rest = ids out.0 attempts in elim out.1 [ none ↦ rest | some id ↦ id ∷ rest ]

-- A round by a thread that is alone: the word that it has loaded is still there.
abbrev pub alone : Generator → ℕ → Bool → Attempt
alone g now_ms spurious = record {
  seen = g.timestamp_sequence;
  now_ms = now_ms;
  spurious = spurious;
}

-- `tp_trace_id_generator_next` by a thread that is alone: for each of its rounds the reading of the
-- clock, and whether the weak compare and swap fails in it; none where the rounds run out before it
-- returns.
unfoldable pub next : Generator → List (ℕ × Bool) → Option (ℕ × Generator)
next g [] = none
next g ((now_ms, spurious) ∷ rounds) =
    let out = round g (alone g now_ms spurious) in
    let rest = next g rounds in elim out.1 [ none ↦ rest | some id ↦ some (id, out.0) ]

-- `tp_trace_id_extract_timestamp`, `tp_trace_id_extract_node_id` and `tp_trace_id_extract_sequence`
unfoldable pub extract_timestamp : Generator → ℕ → ℕ
extract_timestamp g trace_id = shift_right trace_id g.node_id_and_sequence_bits

unfoldable pub extract_node_id : Generator → ℕ → ℕ
extract_node_id g trace_id = bit_and (shift_right trace_id g.sequence_bits) g.max_node_id

unfoldable pub extract_sequence : Generator → ℕ → ℕ
extract_sequence g trace_id = bit_and trace_id g.max_sequence
