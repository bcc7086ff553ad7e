-- ===== src/CommandQueue/Session.antt =====
-- Whole sessions on a queue of src/common/tp_mpsc_queue.c: no sequence of calls tells a ring of two
-- slots or more from a bounded queue.
use native.Mathlib.Nat.{one-le-pow, mod-eq_of_lt, mul-le-mul, le_refl}
use tensor_pool_c.Common.Words.{add64, mul64}
use tensor_pool_c.Common.{
  ℕ, ◌+◌, ◌*◌, ◌%◌, sym, subst, ◌^◌, ◌<◌, ◌≤◌, ◌≡◌, ◌≢◌, refl, ap, ◌∙◌, Bool, true, not, Option,
  none, some, List, [], ◌∷◌, arith, length, any, All,
}
use tensor_pool_c.Common.Bits.{bit_and_ones}
use tensor_pool_c.CommandQueue.Ring.{
  Slot, Queue, init, alloc_slots, with_slots, Offered, Polled, offer, poll,
}
use tensor_pool_c.CommandQueue.Inv.{Holds, push, pop}
use tensor_pool_c.CommandQueue.Refine.{offer-push, poll-pop}

-- A call, with how its compare and swaps go.
pub data Op : Type 0 where
  put : List Bool → List ℕ → Op
  get : List Bool → Op

pub data Answer : Type 0 where
  offered : Offered → Answer
  polled : Polled → Answer

-- The answer to a call, before those of the calls that follow.
abbrev pub before : Answer → Option (List Answer) → Option (List Answer)
before a none = none
before a (some rest) = some (a ∷ rest)

-- The answers of a queue of items of `n` bytes; none where a call does not return.
unfoldable pub run : ℕ → Queue → List Op → Option (List Answer)
run n q [] = some []
run n q (put rounds x ∷ ops) = elim (offer rounds true q x) [
  | none ↦ none
  | some (status, q') ↦ before (offered status) (run n q' ops)
]
run n q (get rounds ∷ ops) = elim (poll rounds q n) [
  | none ↦ none
  | some (status, q') ↦ before (polled status) (run n q' ops)
]

-- The answers of a bounded queue.
unfoldable pub behave : ℕ → List (List ℕ) → List Op → List Answer
behave capacity xs [] = []
behave capacity xs (put rounds x ∷ ops) =
    offered (push capacity xs x).0 ∷ behave capacity (push capacity xs x).1 ops
behave capacity xs (get rounds ∷ ops) = polled (pop xs).0 ∷ behave capacity (pop xs).1 ops

-- Items have `n` bytes, and some compare and swap does not fail.
abbrev pub IsCall : ℕ → Op → Type 0
IsCall n (put rounds x) = (any not rounds ≡ true) × (length x ≡ n)
IsCall n (get rounds) = any not rounds ≡ true

module _ (k n : ℕ) (few : k < 62) where
  run-behave_from :
      (q : Queue) (slots : ℕ → Slot) (xs : List (List ℕ)) (ops : List Op)
      → Holds k n q slots xs
      → All (IsCall n) ops
      → q.tail + length ops < 2 ^ 62
      → run n q ops ≡ some (behave (2 ^ k) xs ops)
  unfolding run behave
  run-behave_from q slots xs [] h calls small = refl
  run-behave_from q slots xs (put rounds x ∷ ops) h calls small =
      let (q', (slots', (is, (h', low)))) =
        offer-push k n rounds true q slots xs x h calls.0.0 calls.0.1 (omega arith) in
      rw (is, run)
        (ap (before (offered (push (2 ^ k) xs x).0))
          (run-behave_from q' slots' (push (2 ^ k) xs x).1 ops h' calls.1 (omega (arith, low))))
  run-behave_from q slots xs (get rounds ∷ ops) h calls small =
      let (q', (slots', (is, (h', low)))) =
        poll-pop k n rounds q slots xs h calls.0 (omega arith) few in
      rw (is, run)
        (ap (before (polled (pop xs).0))
          (run-behave_from q' slots' (pop xs).1 ops h' calls.1 (omega (arith, low))))

-- The ring that the first offer allocates.
abbrev fresh : ℕ → Queue → Queue
fresh n q = record q { slots = some (λ i. record { sequence = i; data_bytes = [] }); item_size = n }

init-fresh :
    (k n : ℕ) (q : Queue)
    → 1 ≤ k
    → init (2 ^ k) ≡ some q
    → Holds k n (fresh n q) (λ i. record { sequence = i; data_bytes = [] }) []
unfolding init
init-fresh k n q two h = record {
  allocated = refl;
  two_slots = two;
  capacity = ground arith;
  mask = ground arith;
  size = refl;
  room = omega arith;
  tail = ground arith;
  items = λ i x e. cc;
  free = λ i after below.
      ap (λ (p : ℕ). p % 2 ^ k) {x = q.head + i} {y = i} (omega (arith, from_zero))
      ∙ mod-eq_of_lt below
      ∙ omega (arith, from_zero);
}
  where
    from_zero : q.head ≡ 0
    from_zero = ground arith

alloc-fresh :
    (n : ℕ) (q : Queue) (x : List ℕ)
    → 0 < n
    → length x ≡ n
    → 1 ≤ q.capacity
    → q.capacity * (8 + n) < 2 ^ 64
    → alloc_slots true q (length x) ≡ with_slots (fresh n q)
unfolding alloc_slots
alloc-fresh n q x pos size some_slot fits = ground (arith, pos, size, total)
  where
    room : q.capacity * (8 + length x) < 2 ^ 64
    room = subst (λ (c : ℕ). q.capacity * (8 + c) < 2 ^ 64) {x = n} {y = length x} (sym size) fits

    slot : add64 8 (length x) ≡ 8 + length x
    slot = omega (
      arith,
      room,
      mul-le-mul {n₁ = 1} {m₁ = 8 + length x} {n₂ = q.capacity} {m₂ = 8 + length x} some_slot
          (le_refl (8 + length x)),
    )

    total : mul64 q.capacity (add64 8 (length x)) ≡ q.capacity * (8 + length x)
    total =
        ap (λ (c : ℕ). mul64 q.capacity c) {x = add64 8 (length x)} {y = 8 + length x} slot
        ∙ mod-eq_of_lt room

offer-fresh :
    (rounds : List Bool) (n : ℕ) (q : Queue) (x : List ℕ)
    → q.slots ≡ none
    → 0 < n
    → length x ≡ n
    → 1 ≤ q.capacity
    → q.capacity * (8 + n) < 2 ^ 64
    → offer rounds true q x ≡ offer rounds true (fresh n q) x
unfolding offer
offer-fresh rounds n q x none_yet pos size some_slot fits =
    ground (arith, none_yet, alloc-fresh n q x pos size some_slot fits)

-- tp_mpsc_queue_init refuses no power of two.
pub init-power : (k : ℕ) → init (2 ^ k) ≢ none
unfolding init
init-power k =
    ground (arith, bit_and_ones k 1 0 (one-le-pow k 2 (omega arith)), one-le-pow k 2 (omega arith))

-- A queue of 2 ^ k commands, from tp_mpsc_queue_init on, behaves as a bounded queue of that
-- capacity in every session that starts with an offer: the calls return, and with the answers of
-- the bounded queue. The capacity is at least 2 and less than 2^62, the items have the same number
-- of bytes, `n`, not 0, the slots with their 8 + n bytes each take less than 2^64 bytes, the calls
-- come one after the other and each has a compare and swap that does not fail, the first offer gets
-- memory, and fewer than 2^61 calls follow it.
pub run-behave :
    (k n : ℕ) (q : Queue) (rounds : List Bool) (x : List ℕ) (ops : List Op)
    → 1 ≤ k
    → k < 62
    → init (2 ^ k) ≡ some q
    → 0 < n
    → IsCall n (put rounds x)
    → All (IsCall n) ops
    → 2 ^ k * (8 + n) < 2 ^ 64
    → length ops < 2 ^ 61
    → run n q (put rounds x ∷ ops) ≡ some (behave (2 ^ k) [] (put rounds x ∷ ops))
unfolding run
run-behave k n q rounds x ops two few h pos call calls fits small =
    ap
      (λ out. elim out [ none ↦ none | some (status, q') ↦ before (offered status) (run n q' ops) ])
      (offer-fresh rounds n q x bare pos call.1 some_slot room)
    ∙ run-behave_from k n few (fresh n q) _ [] (put rounds x ∷ ops) (init-fresh k n q two h)
        (call, calls) (omega (arith, starts))
  where
    room : q.capacity * (8 + n) < 2 ^ 64
    room =
        subst (λ (c : ℕ). c * (8 + n) < 2 ^ 64) {x = 2 ^ k} {y = q.capacity}
          (unfold init in ground arith) fits

    some_slot : 1 ≤ q.capacity
    some_slot = unfold init in ground arith

    bare : q.slots ≡ none
    bare = unfold init in ground arith

    starts : q.tail ≡ 0
    starts = unfold init in ground arith
