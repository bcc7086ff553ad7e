-- ===== src/CommandQueue/Single.antt =====
-- A ring of src/common/tp_mpsc_queue.c with one slot is no queue.
use tensor_pool_c.Common.{
  ℕ, ◌+◌, ◌^◌, ◌<◌, ◌≡◌, refl, Bool, true, false, none, some, List, [], ◌∷◌, arith, length,
}
use tensor_pool_c.CommandQueue.Ring.{
  Slot, Queue, init, alloc_slots, sent, slot_index, put_slot, offer_loop, offer, poll_loop, poll,
}

-- Where the slot has gone twice around, the poll that waits for its first number spins.
spins :
    (rounds : List Bool) (slots : ℕ → Slot) (q : Queue)
    → q.head ≡ 0
    → (slots (slot_index q 0)).sequence ≡ 2
    → poll_loop rounds slots q q.head ≡ none
unfolding poll_loop
spins [] slots q head at = refl
spins (r ∷ rounds) slots q head at = ground (arith, at, head, spins rounds slots q head at)

-- The queue of one slot with the items `x` and then `y` written to it.
abbrev overrun_slots : List ℕ → List ℕ → ℕ → Slot
overrun_slots x y =
    put_slot 0 (record { sequence = 2; data_bytes = y })
      (put_slot 0 (record { sequence = 1; data_bytes = x })
        (λ i. record { sequence = i; data_bytes = [] }))

abbrev overrun : List ℕ → List ℕ → Queue
overrun x y = record {
  slots = some (overrun_slots x y);
  capacity = 1;
  mask = 0;
  item_size = length x;
  head = 0;
  tail = 2;
}

abbrev after_one : List ℕ → Queue
after_one x = record {
  slots = some (
      put_slot 0 (record { sequence = 1; data_bytes = x })
        (λ i. record { sequence = i; data_bytes = [] }));
  capacity = 1;
  mask = 0;
  item_size = length x;
  head = 0;
  tail = 1;
}

made :
    init 1
    ≡ some (record { slots = none; capacity = 1; mask = 0; item_size = 0; head = 0; tail = 0 })
unfolding init
made = refl

first_offer :
    (x : List ℕ)
    → 0 < length x
    → 8 + length x < 2 ^ 64
    → offer
        (false ∷ [])
        true
        (record { slots = none; capacity = 1; mask = 0; item_size = 0; head = 0; tail = 0 })
        x
      ≡ some (sent, after_one x)
unfolding offer alloc_slots offer_loop put_slot
first_offer x long fits = ground (arith, long, fits)

second_offer :
    (x y : List ℕ)
    → length y ≡ length x
    → offer (false ∷ []) true (after_one x) y ≡ some (sent, overrun x y)
unfolding offer offer_loop put_slot
second_offer x y same = ground (arith, same)

spins_on : (rounds : List Bool) (x y : List ℕ) → poll rounds (overrun x y) (length x) ≡ none
unfolding poll put_slot
spins_on rounds x y = ground (arith, spins rounds (overrun_slots x y) (overrun x y) refl refl)

-- tp_mpsc_queue_init makes a queue of capacity 1, but the first two offers to it, of items of the
-- same number of bytes, not 0 and small enough for the slot's size to fit 64 bits, are both taken at once, and then tp_mpsc_queue_poll never returns:
-- it does not in any number of rounds.
pub one_slot_stuck :
    (x y : List ℕ) (rounds : List Bool)
    → 0 < length x
    → 8 + length x < 2 ^ 64
    → length y ≡ length x
    → (q : Queue) × ((q1 : Queue) × ((q2 : Queue) × ((init 1 ≡ some q)
            × (offer (false ∷ []) true q x ≡ some (sent, q1))
            × (offer (false ∷ []) true q1 y ≡ some (sent, q2))
            × (poll rounds q2 (length x) ≡ none))))
one_slot_stuck x y rounds long fits same = (
  _,
  (
    after_one x,
    (overrun x y, (made, first_offer x long fits, second_offer x y same, spins_on rounds x y)),
  ),
)
