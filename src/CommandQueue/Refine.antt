-- ===== src/CommandQueue/Refine.antt =====
-- A ring of src/common/tp_mpsc_queue.c with two slots or more behaves as a bounded queue.
use native.Mathlib.Nat.{one-le-pow, add-mod_right, pow-le-pow_right}
use tensor_pool_c.Common.{
  ℕ, ◌+◌, ◌%◌, ◌^◌, ◌<◌, ◌≤◌, ◌≡◌, inl, inr, refl, sym, ap, ◌∙◌, Bool, true, not, Option, some,
  List, [], ◌∷◌, arith, length, ltb, any, Bool-cases,
}
use tensor_pool_c.Common.Words.{add64}
use tensor_pool_c.CommandQueue.Ring.{
  Slot, Queue, sent, item, slot_index, offer_loop, offer, poll_loop, poll,
}
use tensor_pool_c.CommandQueue.Loops.{
  offer_loop-sent, offer_loop-full, poll_loop-item, poll_loop-empty,
}
use tensor_pool_c.CommandQueue.Slots.{pow_two_slots}
use tensor_pool_c.CommandQueue.Inv.{Holds, push, pop}
use tensor_pool_c.CommandQueue.Writes.{index, pushed, pushed-Holds, popped, popped-Holds}

-- A call returns, with `status`, and leaves a ring that holds `xs`, its tail at `tail` at most.
abbrev pub Leaves : {A : Type 0} (k n tail : ℕ) → Option (A × Queue) → A × List (List ℕ) → Type 0
Leaves k n tail out result =
    (q : Queue) × ((slots : ℕ → Slot) × ((out ≡ some (result.0, q))
        × (Holds k n q slots result.1 × (q.tail ≤ tail))))

offer-loop :
    (rounds : List Bool) (memory : Bool) (q : Queue) (slots : ℕ → Slot) (x : List ℕ)
    → q.slots ≡ some slots
    → length x ≡ q.item_size
    → offer rounds memory q x ≡ offer_loop rounds slots q x q.tail
unfolding offer
offer-loop rounds memory q slots x there size = ground (arith, there)

poll-loop :
    (rounds : List Bool) (q : Queue) (slots : ℕ → Slot) (size : ℕ)
    → q.slots ≡ some slots
    → size ≡ q.item_size
    → poll rounds q size ≡ poll_loop rounds slots q q.head
unfolding poll
poll-loop rounds q slots size there same = ground (arith, there)

module _ (k n : ℕ) (q : Queue) (slots : ℕ → Slot) (xs : List (List ℕ))
    (h : Holds k n q slots xs) where
  tail-free : length xs < 2 ^ k → (slots (slot_index q q.tail)).sequence ≡ q.tail
  tail-free space =
      ap (λ (i : ℕ). (slots i).sequence) (index k n q slots xs h q.tail)
      ∙ ap (λ (p : ℕ). (slots (p % 2 ^ k)).sequence) h.tail
      ∙ h.free (length xs) (omega arith) space
      ∙ omega (arith, h.tail)

  offer_sends :
      (rounds : List Bool) (memory : Bool) (x : List ℕ)
      → any not rounds ≡ true
      → length x ≡ n
      → q.tail < 2 ^ 62
      → length xs < 2 ^ k
      → offer rounds memory q x
        ≡ some (sent, record q { tail = q.tail + 1; slots = some (pushed k n q slots xs h x) })
  unfolding pushed
  offer_sends rounds memory x some_round size small space =
      offer-loop rounds memory q slots x h.allocated (size ∙ sym h.size)
      ∙ offer_loop-sent rounds slots q x some_round (tail-free space)
      ∙ rw (index k n q slots xs h q.tail, no_wrap) refl
    where
      no_wrap : add64 q.tail 1 ≡ q.tail + 1
      no_wrap = omega (arith, small)

-- Behind the last slot of a full ring stands its first item.
tail-taken :
    (k n : ℕ) (q : Queue) (slots : ℕ → Slot) (xs : List (List ℕ))
    → Holds k n q slots xs
    → length xs ≡ 2 ^ k
    → (slots (slot_index q q.tail)).sequence < q.tail
tail-taken k n q slots [] h crowded = absurd (omega (arith, pow_two_slots k h.two_slots))
tail-taken k n q slots (x ∷ xs) h crowded = omega (
  arith,
  ap (λ (i : ℕ). (slots i).sequence) (index k n q slots (x ∷ xs) h q.tail),
  ap (λ (i : ℕ). (slots i).sequence) first,
  ap (λ s. s.sequence) (h.items 0 x refl),
  pow_two_slots k h.two_slots,
  h.tail,
)
  where
    first : q.tail % 2 ^ k ≡ (q.head + 0) % 2 ^ k
    first =
        ap (λ (p : ℕ). p % 2 ^ k) {x = q.tail} {y = q.head + 2 ^ k} (omega (arith, h.tail, crowded))
        ∙ add-mod_right q.head (2 ^ k)
        ∙ ap (λ (p : ℕ). p % 2 ^ k) {x = q.head} {y = q.head + 0} (omega arith)

-- tp_mpsc_queue_offer by a thread that is alone returns, and is the push of a bounded queue: where
-- the ring has room it sends the item behind the others, and where it is full it says so and
-- changes nothing. The ring has two slots or more, the item has the ring's size, some compare and
-- swap does not fail, and the positions are below 2^62.
pub offer-push :
    (k n : ℕ) (rounds : List Bool) (memory : Bool) (q : Queue) (slots : ℕ → Slot)
    (xs : List (List ℕ)) (x : List ℕ)
    → Holds k n q slots xs
    → any not rounds ≡ true
    → length x ≡ n
    → q.tail < 2 ^ 62
    → Leaves k n (q.tail + 1) (offer rounds memory q x) (push (2 ^ k) xs x)
offer-push k n rounds memory q slots xs x h some_round size small =
    elim (Bool-cases (ltb (length xs) (2 ^ k))) [
      | inl space ↦ rw space (
        record q { tail = q.tail + 1; slots = some (pushed k n q slots xs h x) },
        (
          pushed k n q slots xs h x,
          (
            offer_sends k n q slots xs h rounds memory x some_round size small (ground arith),
            (pushed-Holds k n q slots xs h x (ground arith), omega arith),
          ),
        ),
      )
      | inr crowded ↦ rw crowded (
        q,
        (
          slots,
          (
            offer-loop rounds memory q slots x h.allocated (size ∙ sym h.size)
                ∙ offer_loop-full rounds slots q x some_round
                    (tail-taken k n q slots xs h (ground (arith, h.room))) (omega arith),
            (h, omega arith),
          ),
        ),
      )
    ]

-- tp_mpsc_queue_poll by a thread that is alone returns, and is the pop of a bounded queue: it takes
-- the first item, and says so where there is none. The ring has two slots or more, some compare
-- and swap does not fail, and the positions and the capacity are below 2^62.
pub poll-pop :
    (k n : ℕ) (rounds : List Bool) (q : Queue) (slots : ℕ → Slot) (xs : List (List ℕ))
    → Holds k n q slots xs
    → any not rounds ≡ true
    → q.tail < 2 ^ 62
    → k < 62
    → Leaves k n q.tail (poll rounds q n) (pop xs)
poll-pop k n rounds q slots [] h some_round small few = (
  q,
  (
    slots,
    (
      poll-loop rounds q slots n h.allocated (sym h.size)
          ∙ poll_loop-empty rounds slots q some_round bare (omega (arith, h.tail)),
      (h, omega arith),
    ),
  ),
)
  where
    bare : (slots (slot_index q q.head)).sequence ≡ q.head
    bare =
        ap (λ (i : ℕ). (slots i).sequence) (index k n q slots [] h q.head)
        ∙ ap (λ (p : ℕ). (slots (p % 2 ^ k)).sequence) {x = q.head} {y = q.head + 0} (omega arith)
        ∙ h.free 0 (omega arith) (one-le-pow k 2 (omega arith))
        ∙ omega arith
poll-pop k n rounds q slots (x ∷ xs) h some_round small few = (
  record q { head = q.head + 1; slots = some (popped k n q slots x xs h) },
  (popped k n q slots x xs h, (taken, (popped-Holds k n q slots x xs h, omega arith))),
)
  where
    first : slots (slot_index q q.head) ≡ record { sequence = q.head + 1; data_bytes = x }
    first =
        ap slots (index k n q slots (x ∷ xs) h q.head)
        ∙ ap (λ (p : ℕ). slots (p % 2 ^ k)) {x = q.head} {y = q.head + 0} (omega arith)
        ∙ h.items 0 x refl
        ∙ ground arith

    no_wrap : add64 q.head 1 ≡ q.head + 1
    no_wrap = omega (arith, small, h.tail)

    no_wrap_freed : add64 (add64 q.head q.mask) 1 ≡ q.head + 2 ^ k
    no_wrap_freed = omega (
      arith,
      small,
      h.tail,
      h.mask,
      one-le-pow k 2 (omega arith),
      pow-le-pow_right {n = 2} (omega arith) {i = k} {j = 62} (omega (arith, few)),
    )

    taken :
        poll rounds q n
        ≡ some (item x, record q { head = q.head + 1; slots = some (popped k n q slots x xs h) })
    taken =
        unfold popped in
        poll-loop rounds q slots n h.allocated (sym h.size)
        ∙ poll_loop-item rounds slots q some_round (ap (λ s. s.sequence) first ∙ sym no_wrap)
        ∙ rw (first, index k n q slots (x ∷ xs) h q.head, no_wrap, no_wrap_freed) refl
