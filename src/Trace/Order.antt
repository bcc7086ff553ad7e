-- ===== src/Trace/Order.antt =====
-- The ids of src/common/tp_trace.c grow, whichever threads ask for them.
use Prim.Native.Nat.{bit_and, bit_or}
use native.Mathlib.Nat.{add-mul, one-le-pow, pow-le-pow_right, mul-le-mul}
use tensor_pool_c.Common.{
  ℕ, ◌+◌, ◌-◌, ◌*◌, ◌^◌, ◌<◌, ◌≤◌, ◌≡◌, ◌⊎◌, inl, inr, sym, ap, subst, not, ◌&&◌, Option, none,
  some, List, [], ◌∷◌, arith, ◌==◌, All, Bool-cases, Option-cases,
}
use tensor_pool_c.Common.Words.{sub64}
use tensor_pool_c.Common.Bits.{bit_or_above, bit_or_below}
use tensor_pool_c.Trace.Generator.{Generator, Attempt, init, proposal, round, ids}
use tensor_pool_c.Trace.Words.{
  IsGenerator, IsWord, word_of, word-small, word_sequence, proposal-Proposed, Proposed-grows,
  Proposed,
}

-- The id of a word: the node's field is free in it.
pub id_of_word :
    (n s node t q : ℕ)
    → node < 2 ^ n
    → q < 2 ^ s
    → bit_or (word_of n s t q) (node * 2 ^ s) ≡ word_of n s t q + node * 2 ^ s
id_of_word n s node t q below fits = omega (
  arith,
  bit_or_above s (t * 2 ^ n) node q fits,
  ap (λ (x : ℕ). x * 2 ^ s) (bit_or_below n t node below),
  add-mul (t * 2 ^ n) node (2 ^ s),
)

-- A generator that runs: its fields are set, and its word is one.
pub record IsRunning (n s node : ℕ) (g : Generator) : Type 0 where
  pub generator : IsGenerator n s node g
  pub word : IsWord n s g.timestamp_sequence

-- The time of a reading of the clock, with the offset taken off, fits its 42 bits.
abbrev pub InTime : Generator → Attempt → Type 0
InTime g a = sub64 a.now_ms g.timestamp_offset_ms < 2 ^ 42

-- Where the sequence number is not the last one, the word has room for the next.
word-room :
    (n s w : ℕ) → n + s ≤ 22 → IsWord n s w → bit_and w (2 ^ s - 1) < 2 ^ s - 1 → w + 1 < 2 ^ 64
word-room n s w widths r left = omega (
  arith,
  r.is,
  word-small n s r.t (r.q + 1) widths r.time (
      omega
        (arith, ap (λ (x : ℕ). bit_and x (2 ^ s - 1)) r.is, word_sequence n s r.t r.q r.sequence)),
)

-- What a round does to the generator.
abbrev pub Rounded : (n s node : ℕ) → Generator → Attempt → Generator × Option ℕ → Type 0
Rounded n s node g a out =
    ((out.0 ≡ g) × (out.1 ≡ none))
    ⊎ ((w : ℕ) × ((proposal g g.timestamp_sequence a.now_ms ≡ some w)
          × ((out.0 ≡ record g { timestamp_sequence = w })
              × (out.1 ≡ some (bit_or w g.node_bits)))))

pub round-Rounded : (n s node : ℕ) (g : Generator) (a : Attempt) → Rounded n s node g a (round g a)
unfolding round
round-Rounded n s node g a = elim (Option-cases (proposal g a.seen a.now_ms)) [
  | inl e ↦ inl (ground (arith, e))
  | inr (w, e) ↦ elim (Bool-cases ((g.timestamp_sequence == a.seen) && not a.spurious)) [
    | inl won ↦ inr (w, (ground (arith, e), ground (arith, e)))
    | inr lost ↦ inl (ground (arith, e))
  ]
]

-- A round that succeeds stores a greater word, of this generator's fields again, and returns it with
-- the node's field.
pub proposal-running :
    (n s node : ℕ) (g : Generator) (now w : ℕ)
    → IsRunning n s node g
    → sub64 now g.timestamp_offset_ms < 2 ^ 42
    → proposal g g.timestamp_sequence now ≡ some w
    → Proposed n s g.timestamp_sequence (sub64 now g.timestamp_offset_ms) w
proposal-running n s node g now w r small h =
    proposal-Proposed n s node g g.timestamp_sequence now w r.generator
      (word-room n s g.timestamp_sequence r.generator.widths r.word) small h

pub stored-running :
    (n s node : ℕ) (g : Generator) (now w : ℕ)
    → IsRunning n s node g
    → sub64 now g.timestamp_offset_ms < 2 ^ 42
    → proposal g g.timestamp_sequence now ≡ some w
    → IsRunning n s node (record g { timestamp_sequence = w })
      × (g.timestamp_sequence < w)
      × (bit_or w g.node_bits ≡ w + node * 2 ^ s)
stored-running n s node g now w r small h = (
  record {
    generator = record {
      widths = r.generator.widths;
      bits = r.generator.bits;
      sequence_width = r.generator.sequence_width;
      node_mask = r.generator.node_mask;
      sequence_mask = r.generator.sequence_mask;
      fits = r.generator.fits;
      node_field = r.generator.node_field;
    };
    word = grown.1;
  },
  grown.0,
  rw (r.generator.node_field, grown.1.is)
      (id_of_word n s node grown.1.t grown.1.q r.generator.fits grown.1.sequence),
)
  where
    grown : (g.timestamp_sequence < w) × IsWord n s w
    grown =
        Proposed-grows n s g.timestamp_sequence (sub64 now g.timestamp_offset_ms) w r.word small
          (proposal-running n s node g now w r small h)

-- Every id is greater than `low` and those before it.
abbrev pub Ascending : ℕ → List ℕ → Type 0
Ascending low [] = Unit
Ascending low (id ∷ rest) = (low < id) × Ascending id rest

Ascending-lower : (low low' : ℕ) (xs : List ℕ) → low ≤ low' → Ascending low' xs → Ascending low xs
Ascending-lower low low' [] le h = tt
Ascending-lower low low' (x ∷ xs) le h = (omega (arith, h.0), h.1)

ids_silent :
    (g : Generator) (a : Attempt) (attempts : List Attempt)
    → (round g a).0 ≡ g
    → (round g a).1 ≡ none
    → ids g (a ∷ attempts) ≡ ids g attempts
unfolding ids
ids_silent g a attempts same silent = ground (arith, same, silent)

ids_given :
    (g g' : Generator) (a : Attempt) (attempts : List Attempt) (id : ℕ)
    → (round g a).0 ≡ g'
    → (round g a).1 ≡ some id
    → ids g (a ∷ attempts) ≡ id ∷ ids g' attempts
unfolding ids
ids_given g g' a attempts id stored given = ground (arith, stored, given)

-- All ids that one generator gives out differ, and grow: whatever rounds of
-- tp_trace_id_generator_next all threads make, with words loaded before by any of them, readings of
-- the clock in any order and weak failures, the ids come in strictly ascending order of the
-- compare and swaps, above the generator's word with the node's field. The generator has fields of
-- `n` and `s` bits, 22 together, and the readings fit 42 bits without the offset.
pub ids-Ascending :
    (n s node : ℕ) (g : Generator) (attempts : List Attempt)
    → IsRunning n s node g
    → All (InTime g) attempts
    → Ascending (g.timestamp_sequence + node * 2 ^ s) (ids g attempts)
ids-Ascending n s node g [] r fit = unfold ids in tt
ids-Ascending n s node g (a ∷ attempts) r fit = elim (round-Rounded n s node g a) [
  | inl (same, silent) ↦
      subst (Ascending (g.timestamp_sequence + node * 2 ^ s))
        (sym (ids_silent g a attempts same silent)) (ids-Ascending n s node g attempts r fit.1)
  | inr (w, (h, (stored, given))) ↦
      let g' : Generator = record g { timestamp_sequence = w } in
      let up = stored-running n s node g a.now_ms w r fit.0 h in
      subst (Ascending (g.timestamp_sequence + node * 2 ^ s))
        (sym (ids_given g g' a attempts (bit_or w g.node_bits) stored given))
        (
          omega (arith, up.1, up.2),
          subst (λ low. Ascending low (ids g' attempts)) (sym up.2)
              (ids-Ascending n s node g' attempts up.0 fit.1),
        )
]

-- tp_trace_id_generator_init gives a running generator for widths that sum to at most 22.
pub init-IsRunning :
    (n s node offset default_ms now_ms : ℕ) (g : Generator)
    → n + s ≤ 22
    → init n s node offset default_ms now_ms ≡ some g
    → IsRunning n s node g
unfolding init
init-IsRunning n s node offset default_ms now_ms g widths h = record {
  generator = record {
    widths = widths;
    bits = ground arith;
    sequence_width = ground arith;
    node_mask = ground (arith, small n (omega arith), one-le-pow n 2 (omega arith));
    sequence_mask = ground (arith, small s (omega arith), one-le-pow s 2 (omega arith));
    fits = below;
    node_field = ground (arith, field);
  };
  word = record {
    t = 0;
    q = 0;
    time = omega arith;
    sequence = one-le-pow s 2 (omega arith);
    is = ground arith;
  };
}
  where
    small : (k : ℕ) → k ≤ 22 → 2 ^ k ≤ 2 ^ 22
    small k le = pow-le-pow_right {n = 2} (omega arith) le

    below : node < 2 ^ n
    below = ground (arith, small n (omega arith), one-le-pow n 2 (omega arith))

    field : node * 2 ^ s < 2 ^ 64
    field = omega (
      arith,
      mul-le-mul {n₁ = node} {m₁ = 2 ^ s} {n₂ = 2 ^ 22} {m₂ = 2 ^ 22}
          (omega (arith, below, small n (omega arith))) (small s (omega arith)),
    )
