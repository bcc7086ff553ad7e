-- ===== src/CommandQueue/Threads.antt =====
-- The calls of src/common/tp_mpsc_queue.c by many threads at once, an access at a time: any number of
-- threads offer, one polls, and the slots are there already. A thread stands before its next access
-- to the queue; a copy of an item's bytes counts as one access.
use tensor_pool_c.Common.{ℕ, ◌-◌, Bool, not, ◌&&◌, List, [], ◌∷◌, ◌++◌, ◌==◌, if◌then◌else◌}
use Prim.Native.Nat.{bit_and}
use tensor_pool_c.Common.Words.{add64}
use tensor_pool_c.CommandQueue.Ring.{Slot, is_before, put_slot}

-- A thread in `tp_mpsc_queue_offer`, with its `pos` and its item: it is not in a call, or it loads
-- the sequence number, or swaps the tail, or copies the item, or stores the sequence number.
pub data Producer : Type 0 where
  idle : Producer
  loads swaps copies stores : ℕ → List ℕ → Producer

-- The thread that polls, with its `pos`; it ends with the item that it copied.
pub data Consumer : Type 0 where
  waits : Consumer
  looks takes reads : ℕ → Consumer
  frees : ℕ → List ℕ → Consumer

-- The queue and its threads. `claimed` and `received` are the history: the items whose offers have
-- swapped the tail, and the items that polls have returned.
pub record World : Type 0 where
  pub slots : ℕ → Slot
  pub mask : ℕ
  pub head : ℕ
  pub tail : ℕ
  pub producers : ℕ → Producer
  pub consumer : Consumer
  pub claimed : List (List ℕ)
  pub received : List (List ℕ)

-- A thread calls offer or goes on; the one that polls calls or goes on. The flag of a thread that
-- goes on: its weak compare and swap, if that is next, fails.
pub data Move : Type 0 where
  calls_offer : ℕ → List ℕ → Move
  offers : ℕ → Bool → Move
  calls_poll : Move
  polls : Bool → Move

abbrev pub position : World → ℕ → ℕ
position w pos = bit_and pos w.mask

unfoldable pub set_producer : ℕ → Producer → (ℕ → Producer) → ℕ → Producer
set_producer i p producers = λ j. if j == i then p else producers j

-- Thread `i` stands elsewhere, and the queue is as it was.
abbrev pub moves_to : ℕ → Producer → World → World
moves_to i p w = record w { producers = set_producer i p w.producers }

-- The next access of thread `i`, which stands at `p`.
unfoldable pub offer_step : ℕ → Bool → World → Producer → World
offer_step i fails w idle = w
offer_step i fails w (loads pos item) =
    let seq = (w.slots (position w pos)).sequence in
    if seq == pos
    then moves_to i (swaps pos item) w
    else if is_before seq pos
    then moves_to i idle w
    else moves_to i (loads w.tail item) w
offer_step i fails w (swaps pos item) =
    if not fails && (w.tail == pos)
    then record w {
      tail = add64 pos 1;
      producers = set_producer i (copies pos item) w.producers;
      claimed = w.claimed ++ (item ∷ []);
    }
    else moves_to i (loads w.tail item) w
offer_step i fails w (copies pos item) = record w {
  slots =
      put_slot (position w pos) (record (w.slots (position w pos)) { data_bytes = item }) w.slots;
  producers = set_producer i (stores pos item) w.producers;
}
offer_step i fails w (stores pos item) = record w {
  slots =
      put_slot (position w pos) (record (w.slots (position w pos)) { sequence = add64 pos 1 })
        w.slots;
  producers = set_producer i idle w.producers;
}

-- The next access of the thread that polls.
unfoldable pub poll_step : Bool → World → Consumer → World
poll_step fails w waits = w
poll_step fails w (looks pos) =
    let seq = (w.slots (position w pos)).sequence in
    if seq == add64 pos 1
    then record w { consumer = takes pos }
    else if is_before seq (add64 pos 1)
    then record w { consumer = waits }
    else record w { consumer = looks w.head }
poll_step fails w (takes pos) =
    if not fails && (w.head == pos)
    then record w { head = add64 pos 1; consumer = reads pos }
    else record w { consumer = looks w.head }
poll_step fails w (reads pos) = record w {
  consumer = frees pos (w.slots (position w pos)).data_bytes;
}
poll_step fails w (frees pos item) = record w {
  slots =
      put_slot (position w pos)
        (record (w.slots (position w pos)) { sequence = add64 (add64 pos w.mask) 1 }) w.slots;
  consumer = waits;
  received = w.received ++ (item ∷ []);
}

-- A thread that is in no call starts one with a load of the tail or the head.
unfoldable pub call_offer : ℕ → List ℕ → World → Producer → World
call_offer i item w idle = moves_to i (loads w.tail item) w
call_offer i item w (loads pos x) = w
call_offer i item w (swaps pos x) = w
call_offer i item w (copies pos x) = w
call_offer i item w (stores pos x) = w

unfoldable pub call_poll : World → Consumer → World
call_poll w waits = record w { consumer = looks w.head }
call_poll w (looks pos) = w
call_poll w (takes pos) = w
call_poll w (reads pos) = w
call_poll w (frees pos x) = w

unfoldable pub step : World → Move → World
step w (calls_offer i item) = call_offer i item w (w.producers i)
step w (offers i fails) = offer_step i fails w (w.producers i)
step w calls_poll = call_poll w w.consumer
step w (polls fails) = poll_step fails w w.consumer

unfoldable pub run_threads : World → List Move → World
run_threads w [] = w
run_threads w (m ∷ moves) = run_threads (step w m) moves

-- A queue of `capacity` slots, empty.
abbrev pub start : ℕ → World
start capacity = record {
  slots = λ i. record { sequence = i; data_bytes = [] };
  mask = capacity - 1;
  head = 0;
  tail = 0;
  producers = λ i. idle;
  consumer = waits;
  claimed = [];
  received = [];
}
