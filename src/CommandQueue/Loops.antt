-- ===== src/CommandQueue/Loops.antt =====
-- The loops of src/common/tp_mpsc_queue.c end with the first compare and swap that does not fail,
-- or at once.
use tensor_pool_c.Common.{
  ℕ, ◌+◌, ◌^◌, ◌<◌, ◌≡◌, Bool, true, false, not, some, List, [], ◌∷◌, arith, any,
}
use tensor_pool_c.Common.Words.{add64}
use tensor_pool_c.CommandQueue.Ring.{
  Slot, Queue, sent, full, item, empty, slot_index, put_slot, offer_loop, poll_loop,
}

pub offer_loop-sent :
    (rounds : List Bool) (slots : ℕ → Slot) (q : Queue) (x : List ℕ)
    → any not rounds ≡ true
    → (slots (slot_index q q.tail)).sequence ≡ q.tail
    → offer_loop rounds slots q x q.tail
      ≡ some (
        sent,
        record q {
          tail = add64 q.tail 1;
          slots = some (
              put_slot
                (slot_index q q.tail)
                (record { sequence = add64 q.tail 1; data_bytes = x })
                slots);
        },
      )
unfolding offer_loop
offer_loop-sent [] slots q x some_round ready = cc
offer_loop-sent (true ∷ rounds) slots q x some_round ready =
    ground (arith, ready, offer_loop-sent rounds slots q x)
offer_loop-sent (false ∷ rounds) slots q x some_round ready = ground (arith, ready)

pub offer_loop-full :
    (rounds : List Bool) (slots : ℕ → Slot) (q : Queue) (x : List ℕ)
    → any not rounds ≡ true
    → (slots (slot_index q q.tail)).sequence < q.tail
    → q.tail < 2 ^ 63
    → offer_loop rounds slots q x q.tail ≡ some (full, q)
unfolding offer_loop
offer_loop-full [] slots q x some_round behind small = cc
offer_loop-full (r ∷ rounds) slots q x some_round behind small = ground (arith, behind)

pub poll_loop-item :
    (rounds : List Bool) (slots : ℕ → Slot) (q : Queue)
    → any not rounds ≡ true
    → (slots (slot_index q q.head)).sequence ≡ add64 q.head 1
    → poll_loop rounds slots q q.head
      ≡ some (
        item (slots (slot_index q q.head)).data_bytes,
        record q {
          head = add64 q.head 1;
          slots = some (
              put_slot
                (slot_index q q.head)
                (record (slots (slot_index q q.head)) { sequence = add64 (add64 q.head q.mask) 1 })
                slots);
        },
      )
unfolding poll_loop
poll_loop-item [] slots q some_round ready = cc
poll_loop-item (true ∷ rounds) slots q some_round ready =
    ground (arith, ready, poll_loop-item rounds slots q)
poll_loop-item (false ∷ rounds) slots q some_round ready = ground (arith, ready)

pub poll_loop-empty :
    (rounds : List Bool) (slots : ℕ → Slot) (q : Queue)
    → any not rounds ≡ true
    → (slots (slot_index q q.head)).sequence ≡ q.head
    → q.head + 1 < 2 ^ 63
    → poll_loop rounds slots q q.head ≡ some (empty, q)
unfolding poll_loop
poll_loop-empty [] slots q some_round bare small = cc
poll_loop-empty (r ∷ rounds) slots q some_round bare small = ground (arith, bare)
