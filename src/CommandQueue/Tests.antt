-- ===== src/CommandQueue/Tests.antt =====
-- Runs of the command queue.
use tensor_pool_c.Common.{
  ℕ, ◌++◌, length, ◌^◌, ◌≤◌, ◌≡◌, refl, Bool, true, false, none, some, List, [], ◌∷◌, arith,
}
use tensor_pool_c.CommandQueue.Ring.{
  Queue, sent, item, init, alloc_slots, overruns_slots, put_slot, offer_loop, poll_loop, offer,
  poll,
}
use tensor_pool_c.CommandQueue.Session.{Op, put, get, Answer, offered, polled, run, behave}
use tensor_pool_c.CommandQueue.Session
use tensor_pool_c.CommandQueue.Single
use tensor_pool_c.CommandQueue.Threads.{
  Move, calls_offer, offers, calls_poll, polls, run_threads, start, set_producer, step, offer_step,
  poll_step, call_offer, call_poll,
}
use tensor_pool_c.CommandQueue.Delivery

-- Two slots; the second round of each call is the one that does not fail.
abbrev two_rounds : List Bool
two_rounds = true ∷ false ∷ []

abbrev queue : Queue
queue = record { slots = none; capacity = 2; mask = 1; item_size = 0; head = 0; tail = 0 }

abbrev calls : List Op
calls = put two_rounds (3 ∷ []) ∷ get two_rounds ∷ get two_rounds ∷ put two_rounds (4 ∷ []) ∷ []

run-behave_example :
    run 1 queue (put two_rounds (5 ∷ []) ∷ calls)
    ≡ some (behave 2 [] (put two_rounds (5 ∷ []) ∷ calls))
run-behave_example =
    Session.run-behave 1 1 queue two_rounds (5 ∷ []) calls (omega arith) (omega arith) made
      (omega arith) (refl, refl) ((refl, refl), (refl, (refl, ((refl, refl), tt)))) (omega arith)
      (omega arith)
  where
    made : init (2 ^ 1) ≡ some queue
    made = unfold init in refl

run_test :
    run 1 queue (put two_rounds (5 ∷ []) ∷ calls)
    ≡ some (
        offered sent
        ∷ offered sent
        ∷ polled (item (5 ∷ []))
        ∷ polled (item (3 ∷ []))
        ∷ offered sent
        ∷ [])
unfolding run offer poll offer_loop poll_loop alloc_slots
run_test = refl

-- 2 ^ 60 slots of 16 bytes are 2 ^ 64 bytes, or 0 in a `size_t`.
overruns_test :
    alloc_slots true (record queue { capacity = 1152921504606846976 }) 8 ≡ overruns_slots
unfolding alloc_slots
overruns_test = refl

one_slot_stuck_example :
    (q : Queue) × ((q1 : Queue) × ((q2 : Queue) × ((init 1 ≡ some q)
          × (offer (false ∷ []) true q (5 ∷ []) ≡ some (sent, q1))
          × (offer (false ∷ []) true q1 (3 ∷ []) ≡ some (sent, q2))
          × (poll two_rounds q2 1 ≡ none))))
one_slot_stuck_example =
    Single.one_slot_stuck (5 ∷ []) (3 ∷ []) two_rounds (omega arith) (omega arith) refl

-- Threads 0 and 1 see the same tail; 1 swaps first, then 0, whose number is stored before that of 1.
abbrev moves : List Move
moves =
    calls_offer 0 (5 ∷ [])
    ∷ calls_offer 1 (3 ∷ [])
    ∷ offers 0 false
    ∷ offers 1 false
    ∷ offers 1 false
    ∷ offers 0 false
    ∷ offers 0 false
    ∷ offers 0 false
    ∷ offers 0 false
    ∷ offers 0 false
    ∷ calls_poll
    ∷ polls false
    ∷ offers 1 false
    ∷ offers 1 false
    ∷ calls_poll
    ∷ polls false
    ∷ polls true
    ∷ polls false
    ∷ polls false
    ∷ polls false
    ∷ polls false
    ∷ []

moves_test :
    ((run_threads (start 2) moves).claimed ≡ (3 ∷ []) ∷ (5 ∷ []) ∷ [])
    × ((run_threads (start 2) moves).received ≡ (3 ∷ []) ∷ [])
unfolding run_threads step offer_step poll_step call_offer call_poll put_slot set_producer
moves_test = (refl, refl)

run_threads_in_order_example :
    (rest : List (List ℕ)) × (((run_threads (start 2) moves).claimed
        ≡ (run_threads (start 2) moves).received ++ rest)
      × (length rest ≤ 2))
run_threads_in_order_example =
    Delivery.run_threads_in_order 1 moves (omega arith) (omega arith) (omega arith)
