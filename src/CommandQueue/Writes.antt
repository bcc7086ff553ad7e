-- ===== src/CommandQueue/Writes.antt =====
-- The rings of src/common/tp_mpsc_queue.c after one item is written, and after one is taken.
use Prim.Native.Nat.{bit_and}
use native.Mathlib.Nat.{add-mod_right}
use native.Mathlib.Decide.{dec_lt}
use tensor_pool_c.Common.{
  ℕ, zero, suc, ◌+◌, ◌%◌, ◌^◌, ◌<◌, ◌≡◌, ◌≢◌, ◌⊎◌, inl, inr, refl, sym, ap, ◌∙◌, some, List, [],
  ◌∷◌, ◌++◌, arith, length, length-append, get_elem?, some_cancel, ==_refl,
}
use tensor_pool_c.CommandQueue.Ring.{Slot, Queue, slot_index, put_slot}
use tensor_pool_c.CommandQueue.Slots.{bit_and-mask, apart}
use tensor_pool_c.CommandQueue.Inv.{Holds}

get_elem?-snoc :
    (xs : List (List ℕ)) (x y : List ℕ) (i : ℕ)
    → get_elem? (xs ++ (x ∷ [])) i ≡ some y
    → ((i < length xs) × (get_elem? xs i ≡ some y)) ⊎ ((i ≡ length xs) × (y ≡ x))
get_elem?-snoc [] x y zero h = inr (refl, sym (some_cancel h))
get_elem?-snoc [] x y (suc i) h = cc
get_elem?-snoc (z ∷ xs) x y zero h = inl (omega arith, h)
get_elem?-snoc (z ∷ xs) x y (suc i) h = elim (get_elem?-snoc xs x y i h) [
  | inl (lt, e) ↦ inl (omega arith, e)
  | inr (last, e) ↦ inr (omega (arith, last), e)
]

get_elem?-lt : (xs : List (List ℕ)) (y : List ℕ) (i : ℕ) → get_elem? xs i ≡ some y → i < length xs
get_elem?-lt [] y i h = cc
get_elem?-lt (z ∷ xs) y zero h = omega arith
get_elem?-lt (z ∷ xs) y (suc i) h = omega (arith, get_elem?-lt xs y i h)

-- What a slot reads after a write.
pub put_slot_self : (i : ℕ) (s : Slot) (slots : ℕ → Slot) → put_slot i s slots i ≡ s
unfolding put_slot
put_slot_self i s slots = rw (==_refl i)

pub put_slot-other :
    (i j : ℕ) (s : Slot) (slots : ℕ → Slot) → j ≢ i → put_slot i s slots j ≡ slots j
unfolding put_slot
put_slot-other i j s slots ne = ground arith

module _ (k n : ℕ) (q : Queue) (slots : ℕ → Slot) (xs : List (List ℕ))
    (h : Holds k n q slots xs) where
  pub index : (pos : ℕ) → slot_index q pos ≡ pos % 2 ^ k
  index pos = ap (bit_and pos) h.mask ∙ bit_and-mask k pos

  unfoldable pub pushed : List ℕ → ℕ → Slot
  pushed x = put_slot (q.tail % 2 ^ k) (record { sequence = q.tail + 1; data_bytes = x }) slots

  pub pushed-Holds :
      (x : List ℕ)
      → length xs < 2 ^ k
      → Holds k n
          (record q { tail = q.tail + 1; slots = some (pushed x) })
          (pushed x)
          (xs ++ (x ∷ []))
  unfolding pushed
  pushed-Holds x space = record {
    allocated = refl;
    two_slots = h.two_slots;
    capacity = h.capacity;
    mask = h.mask;
    size = h.size;
    room = omega (arith, length-snoc);
    tail = omega (arith, length-snoc, h.tail);
    items = λ i y e. elim (get_elem?-snoc xs x y i e) [
      | inl (lt, there) ↦
          put_slot-other (q.tail % 2 ^ k) ((q.head + i) % 2 ^ k) _ slots
            (apart (2 ^ k) (q.head + i) q.tail (omega (arith, h.tail)) (omega (arith, h.tail)))
          ∙ h.items i y there
      | inr (last, same) ↦
          ap (pushed x)
            (ap (λ (p : ℕ). p % 2 ^ k) {x = q.head + i} {y = q.tail} (omega (arith, h.tail, last)))
          ∙ put_slot_self (q.tail % 2 ^ k) _ slots
          ∙ ground (arith, h.tail, last, same)
    ];
    free = λ i after below.
        ap (λ s. s.sequence)
          (put_slot-other (q.tail % 2 ^ k) ((q.head + i) % 2 ^ k) _ slots (λ e.
            apart (2 ^ k) q.tail (q.head + i) (omega (arith, h.tail, length-snoc))
              (omega (arith, h.tail)) (sym e)))
        ∙ h.free i (omega (arith, length-snoc)) below;
  }
    where
      length-snoc : length (xs ++ (x ∷ [])) ≡ length xs + 1
      length-snoc = length-append xs (x ∷ []) ∙ omega arith

module _ (k n : ℕ) (q : Queue) (slots : ℕ → Slot) (x : List ℕ) (xs : List (List ℕ))
    (h : Holds k n q slots (x ∷ xs)) where
  unfoldable pub popped : ℕ → Slot
  popped = put_slot (q.head % 2 ^ k) (record { sequence = q.head + 2 ^ k; data_bytes = x }) slots

  pub popped-Holds : Holds k n (record q { head = q.head + 1; slots = some popped }) popped xs
  unfolding popped
  popped-Holds = record {
    allocated = refl;
    two_slots = h.two_slots;
    capacity = h.capacity;
    mask = h.mask;
    size = h.size;
    room = omega (arith, h.room);
    tail = omega (arith, h.tail);
    items = λ i y e.
        let lt = get_elem?-lt xs y i e in
        put_slot-other (q.head % 2 ^ k) ((q.head + 1 + i) % 2 ^ k) _ slots (λ same.
          apart (2 ^ k) q.head (q.head + 1 + i) (omega arith) (omega (arith, h.room, lt))
            (sym same))
        ∙ ap (λ (p : ℕ). slots (p % 2 ^ k)) {x = q.head + 1 + i} {y = q.head + suc i} (omega arith)
        ∙ h.items (suc i) y e
        ∙ ground arith;
    free = λ i after below. elim (dec_lt (i + 1) (2 ^ k)) [
      | yes inside ↦
          ap (λ s. s.sequence)
            (put_slot-other (q.head % 2 ^ k) ((q.head + 1 + i) % 2 ^ k) _ slots (λ same.
              apart (2 ^ k) q.head (q.head + 1 + i) (omega arith) (omega (arith, inside))
                (sym same)))
          ∙ ap (λ (p : ℕ). (slots (p % 2 ^ k)).sequence) {x = q.head + 1 + i} {y = q.head + (i + 1)}
              (omega arith)
          ∙ h.free (i + 1) (omega (arith, after)) inside
          ∙ omega arith
      | no last ↦
          ap (λ (p : ℕ). (popped p).sequence)
            (ap (λ (p : ℕ). p % 2 ^ k) {x = q.head + 1 + i} {y = q.head + 2 ^ k}
                (omega (arith, last, below))
              ∙ add-mod_right q.head (2 ^ k))
          ∙ ap (λ s. s.sequence) (put_slot_self (q.head % 2 ^ k) _ slots)
          ∙ omega (arith, last, below)
    ];
  }
