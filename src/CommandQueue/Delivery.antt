-- ===== src/CommandQueue/Delivery.antt =====
-- The items that a queue of src/common/tp_mpsc_queue.c delivers, however its threads interleave.
use native.Mathlib.Nat.{mod-eq_of_lt}
use tensor_pool_c.Common.{
  ℕ, ◌+◌, ◌^◌, ◌<◌, ◌≤◌, ◌≡◌, refl, ap, List, [], ◌∷◌, ◌++◌, arith, length, length-append,
}
use tensor_pool_c.CommandQueue.Threads.{World, Move, step, run_threads, start}
use tensor_pool_c.CommandQueue.Interleaved.{Consistent}
use tensor_pool_c.CommandQueue.Steps.{step-Stepped}

run_threads-Consistent :
    (k : ℕ) (w : World) (freed : ℕ) (moves : List Move)
    → Consistent k w freed
    → w.tail + length moves < 2 ^ 62
    → k < 62
    → (freed' : ℕ) × Consistent k (run_threads w moves) freed'
unfolding run_threads
run_threads-Consistent k w freed [] c small few = (freed, c)
run_threads-Consistent k w freed (m ∷ moves) c small few =
    let (freed', (c', le)) = step-Stepped k w freed m c (omega arith) few in
    run_threads-Consistent k (step w m) freed' moves c' (omega (arith, le)) few

start-Consistent : (k : ℕ) → 1 ≤ k → Consistent k (start (2 ^ k)) 0
start-Consistent k two = record {
  two_slots = two;
  mask = refl;
  tail = refl;
  low = omega arith;
  high = omega arith;
  rest = [];
  order = refl;
  count = refl;
  used = λ p from below. absurd (omega arith);
  free = λ p from below. mod-eq_of_lt {n = p} {m = 2 ^ k} (omega arith);
  producers = λ i. tt;
  consumer = refl;
  alone = λ i j p hi hj. cc;
}

-- The queue neither loses nor repeats nor swaps an item, however its threads interleave: after any
-- sequence of moves of any number of threads that offer and one that polls, from an empty queue on,
-- the items that polls have returned are the first of those whose offers have swapped the tail, in
-- the order of their swaps, and at most the capacity of them are still to come. The capacity is
-- 2 ^ k, at least 2 and less than 2^62, and there are fewer than 2^62 moves.
pub run_threads_in_order :
    (k : ℕ) (moves : List Move)
    → 1 ≤ k
    → k < 62
    → length moves < 2 ^ 62
    → (rest : List (List ℕ)) × (((run_threads (start (2 ^ k)) moves).claimed
          ≡ (run_threads (start (2 ^ k)) moves).received ++ rest)
        × (length rest ≤ 2 ^ k))
run_threads_in_order k moves two few small =
    let (freed, c) =
      run_threads-Consistent k (start (2 ^ k)) 0 moves (start-Consistent k two) (omega arith) few in
    (
      c.rest,
      (
        c.order,
        omega (
          arith,
          c.tail,
          c.high,
          c.count,
          ap length c.order,
          length-append (run_threads (start (2 ^ k)) moves).received c.rest,
        ),
      ),
    )
