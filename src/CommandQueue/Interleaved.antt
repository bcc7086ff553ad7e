-- ===== src/CommandQueue/Interleaved.antt =====
-- What holds of a queue of src/common/tp_mpsc_queue.c between any two accesses of its threads.
use Prim.Native.Nat.{bit_and}
use tensor_pool_c.Common.{
  ℕ, zero, suc, ◌+◌, ◌-◌, ◌%◌, ◌^◌, ◌<◌, ◌≤◌, ◌≡◌, ◌≢◌, ◌⊎◌, inl, inr, refl, ap, ◌∙◌, subst, Option,
  none, some, List, [], ◌∷◌, ◌++◌, arith, length, get_elem?, ◌==◌, Bool-cases, length-append,
  some_cancel,
}
use tensor_pool_c.CommandQueue.Ring.{Slot}
use tensor_pool_c.CommandQueue.Slots.{bit_and-mask}
use tensor_pool_c.CommandQueue.Threads.{
  Producer, idle, loads, swaps, copies, stores, Consumer, waits, looks, takes, reads, frees, World,
  position, set_producer,
}

-- The slot of a position.
abbrev pub slot_at : ℕ → (ℕ → Slot) → ℕ → Slot
slot_at k slots p = slots (p % 2 ^ k)

-- The position that a thread has claimed and not yet stored.
abbrev pub holding : Producer → Option ℕ
holding idle = none
holding (loads pos x) = none
holding (swaps pos x) = none
holding (copies pos x) = some pos
holding (stores pos x) = some pos

-- The claim of position `pos` for `x`, whose slot has not got its number.
pub record Claims (k freed tail : ℕ) (slots : ℕ → Slot) (claimed : List (List ℕ)) (pos : ℕ)
    (x : List ℕ) : Type 0 where
  pub low : freed ≤ pos
  pub high : pos < tail
  pub number : (slot_at k slots pos).sequence ≡ pos
  pub own : get_elem? claimed pos ≡ some x

abbrev pub Offers : (k freed tail : ℕ) → (ℕ → Slot) → List (List ℕ) → Producer → Type 0
Offers k freed tail slots claimed idle = Unit
Offers k freed tail slots claimed (loads pos x) = pos ≤ tail
Offers k freed tail slots claimed (swaps pos x) = (pos ≤ tail) × (pos < freed + 2 ^ k)
Offers k freed tail slots claimed (copies pos x) = Claims k freed tail slots claimed pos x
Offers k freed tail slots claimed (stores pos x) =
    Claims k freed tail slots claimed pos x × ((slot_at k slots pos).data_bytes ≡ x)

-- The first item is there.
abbrev pub Ready : (k freed tail : ℕ) → (ℕ → Slot) → Type 0
Ready k freed tail slots = (freed < tail) × ((slot_at k slots freed).sequence ≡ freed + 1)

abbrev pub Polls : (k freed head tail : ℕ) → (ℕ → Slot) → List (List ℕ) → Consumer → Type 0
Polls k freed head tail slots claimed waits = head ≡ freed
Polls k freed head tail slots claimed (looks pos) = (head ≡ freed) × (pos ≡ freed)
Polls k freed head tail slots claimed (takes pos) =
    (head ≡ freed) × (pos ≡ freed) × Ready k freed tail slots
Polls k freed head tail slots claimed (reads pos) =
    (head ≡ freed + 1) × (pos ≡ freed) × Ready k freed tail slots
Polls k freed head tail slots claimed (frees pos x) =
    (head ≡ freed + 1)
    × (pos ≡ freed)
    × (get_elem? claimed freed ≡ some x)
    × Ready k freed tail slots

-- Every position from `freed` to the tail has its item claimed, and has got its number or not; the
-- positions after it, to the end of the ring, are free. No two threads hold one position.
pub record Consistent (k : ℕ) (w : World) (freed : ℕ) : Type 0 where
  pub two_slots : 1 ≤ k
  pub mask : w.mask ≡ 2 ^ k - 1
  pub tail : w.tail ≡ length w.claimed
  pub low : freed ≤ w.tail
  pub high : w.tail ≤ freed + 2 ^ k
  pub rest : List (List ℕ)
  pub order : w.claimed ≡ w.received ++ rest
  pub count : length w.received ≡ freed
  pub used :
      (p : ℕ)
      → freed ≤ p
      → p < w.tail
      → ((slot_at k w.slots p).sequence ≡ p)
        ⊎ (((slot_at k w.slots p).sequence ≡ p + 1)
            × (get_elem? w.claimed p ≡ some (slot_at k w.slots p).data_bytes))
  pub free : (p : ℕ) → w.tail ≤ p → p < freed + 2 ^ k → (slot_at k w.slots p).sequence ≡ p
  pub producers : (i : ℕ) → Offers k freed w.tail w.slots w.claimed (w.producers i)
  pub consumer : Polls k freed w.head w.tail w.slots w.claimed w.consumer
  pub alone :
      (i j p : ℕ) → holding (w.producers i) ≡ some p → holding (w.producers j) ≡ some p → i ≡ j

pub position-slot :
    (k : ℕ) (w : World) (freed p : ℕ) → Consistent k w freed → position w p ≡ p % 2 ^ k
position-slot k w freed p c = ap (bit_and p) c.mask ∙ bit_and-mask k p

-- A thread sees its own new state, and the others theirs.
pub set_producer-All :
    (P : Producer → Type 0) (i : ℕ) (p : Producer) (producers : ℕ → Producer)
    → P p
    → ((j : ℕ) → j ≢ i → P (producers j))
    → (j : ℕ) → P (set_producer i p producers j)
unfolding set_producer
set_producer-All P i p producers new others j = elim (Bool-cases (j == i)) [
  | inl same ↦ rw same new
  | inr differ ↦ rw differ (others j (ground (arith, differ)))
]

-- Threads that hold a position are no more than before, or `i` holds one that no other holds.
pub set_producer-alone :
    (i : ℕ) (p : Producer) (producers : ℕ → Producer)
    → ((a b q : ℕ) → holding (producers a) ≡ some q → holding (producers b) ≡ some q → a ≡ b)
    → ((a q : ℕ) → holding p ≡ some q → holding (producers a) ≡ some q → a ≡ i)
    → (a b q : ℕ) → holding (set_producer i p producers a) ≡ some q
    → holding (set_producer i p producers b) ≡ some q
    → a ≡ b
unfolding set_producer
set_producer-alone i p producers before new a b q = elim (Bool-cases (a == i)) [
  | inl a_same ↦ elim (Bool-cases (b == i)) [
    | inl b_same ↦ rw (a_same, b_same) (λ ha hb. ground (arith, a_same, b_same))
    | inr b_differ ↦ rw (a_same, b_differ) (λ ha hb. ground (arith, a_same, new b q ha hb))
  ]
  | inr a_differ ↦ elim (Bool-cases (b == i)) [
    | inl b_same ↦ rw (a_differ, b_same) (λ ha hb. ground (arith, b_same, new a q hb ha))
    | inr b_differ ↦ rw (a_differ, b_differ) (λ ha hb. before a b q ha hb)
  ]
]

-- The thread that holds a position has a claim of it.
pub holding-Claims :
    (k freed tail : ℕ) (slots : ℕ → Slot) (claimed : List (List ℕ)) (p : Producer) (q : ℕ)
    → Offers k freed tail slots claimed p
    → holding p ≡ some q
    → (x : List ℕ) × Claims k freed tail slots claimed q x
holding-Claims k freed tail slots claimed idle q h holds = cc
holding-Claims k freed tail slots claimed (loads pos x) q h holds = cc
holding-Claims k freed tail slots claimed (swaps pos x) q h holds = cc
holding-Claims k freed tail slots claimed (copies pos x) q h holds =
    (x, subst (λ n. Claims k freed tail slots claimed n x) (some_cancel holds) h)
holding-Claims k freed tail slots claimed (stores pos x) q h holds =
    (x, subst (λ n. Claims k freed tail slots claimed n x) (some_cancel holds) h.0)

-- What others do keeps the state of a thread, if it keeps the thread's claim.
pub Offers-keep :
    (k freed freed' tail tail' : ℕ) (slots slots' : ℕ → Slot) (claimed claimed' : List (List ℕ))
    (p : Producer)
    → tail ≤ tail'
    → freed ≤ freed'
    → ((pos : ℕ) (x : List ℕ)
        → holding p ≡ some pos
        → Claims k freed tail slots claimed pos x
        → Claims k freed' tail' slots' claimed' pos x
          × ((slot_at k slots' pos).data_bytes ≡ (slot_at k slots pos).data_bytes))
    → Offers k freed tail slots claimed p
    → Offers k freed' tail' slots' claimed' p
Offers-keep k freed freed' tail tail' slots slots' claimed claimed' idle up later keep h = tt
Offers-keep k freed freed' tail tail' slots slots' claimed claimed' (loads pos x) up later keep h =
    omega arith
Offers-keep k freed freed' tail tail' slots slots' claimed claimed' (swaps pos x) up later keep h =
    (omega arith, omega arith)
Offers-keep k freed freed' tail tail' slots slots' claimed claimed' (copies pos x) up later keep h =
    (keep pos x refl h).0
Offers-keep k freed freed' tail tail' slots slots' claimed claimed' (stores pos x) up later keep h =
    ((keep pos x refl h.0).0, (keep pos x refl h.0).1 ∙ h.1)

-- A claim does not change what is to be polled.
pub Polls-keep :
    (k freed head tail tail' : ℕ) (slots slots' : ℕ → Slot) (claimed claimed' : List (List ℕ))
    (consumer : Consumer)
    → tail ≤ tail'
    → ((slot_at k slots freed).sequence ≡ freed + 1
        → freed < tail
        → slot_at k slots' freed ≡ slot_at k slots freed)
    → ((x : List ℕ) → get_elem? claimed freed ≡ some x → get_elem? claimed' freed ≡ some x)
    → Polls k freed head tail slots claimed consumer
    → Polls k freed head tail' slots' claimed' consumer
Polls-keep k freed head tail tail' slots slots' claimed claimed' waits up same own h = h
Polls-keep k freed head tail tail' slots slots' claimed claimed' (looks pos) up same own h = h
Polls-keep k freed head tail tail' slots slots' claimed claimed' (takes pos) up same own h =
    (h.0, h.1, (omega (arith, h.2.0), ap (λ s. s.sequence) (same h.2.1 h.2.0) ∙ h.2.1))
Polls-keep k freed head tail tail' slots slots' claimed claimed' (reads pos) up same own h =
    (h.0, h.1, (omega (arith, h.2.0), ap (λ s. s.sequence) (same h.2.1 h.2.0) ∙ h.2.1))
Polls-keep k freed head tail tail' slots slots' claimed claimed' (frees pos x) up same own h =
    (h.0, h.1, own x h.2, (omega (arith, h.3.0), ap (λ s. s.sequence) (same h.3.1 h.3.0) ∙ h.3.1))

pub get_elem?-append :
    (xs ys : List (List ℕ)) (i : ℕ) (x : List ℕ)
    → get_elem? xs i ≡ some x
    → get_elem? (xs ++ ys) i ≡ some x
get_elem?-append [] ys i x h = cc
get_elem?-append (z ∷ xs) ys zero x h = h
get_elem?-append (z ∷ xs) ys (suc i) x h = get_elem?-append xs ys i x h

pub get_elem?-behind :
    (xs ys : List (List ℕ)) (x : List ℕ) → get_elem? (xs ++ (x ∷ ys)) (length xs) ≡ some x
get_elem?-behind [] ys x = refl
get_elem?-behind (z ∷ xs) ys x = get_elem?-behind xs ys x

pub next_rest :
    (xs rest : List (List ℕ)) (x : List ℕ)
    → get_elem? (xs ++ rest) (length xs) ≡ some x
    → (rest' : List (List ℕ)) × (rest ≡ x ∷ rest')
next_rest [] [] x h = cc
next_rest [] (y ∷ rest) x h = (rest, ap (λ z. z ∷ rest) (some_cancel h))
next_rest (z ∷ xs) rest x h = next_rest xs rest x h

pub append_assoc : (xs ys zs : List (List ℕ)) → xs ++ ys ++ zs ≡ xs ++ (ys ++ zs)
append_assoc [] ys zs = refl
append_assoc (x ∷ xs) ys zs = ap (λ l. x ∷ l) (append_assoc xs ys zs)

pub length-snoc : (xs : List (List ℕ)) (x : List ℕ) → length (xs ++ (x ∷ [])) ≡ length xs + 1
length-snoc xs x = length-append xs (x ∷ []) ∙ omega arith
