-- ===== src/CommandQueue/Inv.antt =====
-- A ring of src/common/tp_mpsc_queue.c that holds given items, and the bounded queue of those items.
use tensor_pool_c.Common.{
  ℕ, ◌+◌, ◌-◌, ◌%◌, ◌^◌, ◌<◌, ◌≤◌, ◌≡◌, some, List, [], ◌∷◌, ◌++◌, length, get_elem?, ltb,
  if◌then◌else◌,
}
use tensor_pool_c.CommandQueue.Ring.{Slot, Queue, Offered, sent, full, Polled, item, empty}

-- The ring of 2 ^ k slots holds the items `xs`, each of `n` bytes: those are in the slots from
-- `head` on, with the sequence numbers of the positions after them, and the slots behind them
-- have the numbers of their own positions.
pub record Holds (k n : ℕ) (q : Queue) (slots : ℕ → Slot) (xs : List (List ℕ)) : Type 0 where
  pub allocated : q.slots ≡ some slots
  pub two_slots : 1 ≤ k
  pub capacity : q.capacity ≡ 2 ^ k
  pub mask : q.mask ≡ 2 ^ k - 1
  pub size : q.item_size ≡ n
  pub room : length xs ≤ 2 ^ k
  pub tail : q.tail ≡ q.head + length xs
  pub items :
      (i : ℕ) (x : List ℕ)
      → get_elem? xs i ≡ some x
      → slots ((q.head + i) % 2 ^ k) ≡ record { sequence = q.head + i + 1; data_bytes = x }
  pub free :
      (i : ℕ) → length xs ≤ i → i < 2 ^ k → (slots ((q.head + i) % 2 ^ k)).sequence ≡ q.head + i

-- What a bounded queue does.
abbrev pub push : ℕ → List (List ℕ) → List ℕ → Offered × List (List ℕ)
push capacity xs x = if ltb (length xs) capacity then (sent, xs ++ (x ∷ [])) else (full, xs)

abbrev pub pop : List (List ℕ) → Polled × List (List ℕ)
pop [] = (empty, [])
pop (x ∷ xs) = (item x, xs)
