-- ===== src/CommandQueue/Ring.antt =====
-- `tp_mpsc_queue_t` and the functions of src/common/tp_mpsc_queue.c, by a thread that is alone. A
-- slot's data are the bytes of an item. The loops run over `rounds`, which says for each round
-- whether the weak compare and swap fails in it; none where the rounds run out before the call
-- returns.
use Prim.Native.Nat.{bit_and}
use tensor_pool_c.Common.{
  ℕ, ◌+◌, ◌-◌, ◌*◌, ◌%◌, ◌^◌, Bool, not, ◌||◌, ◌&&◌, Option, none, some, List, [], ◌∷◌, ltb, ◌==◌,
  if◌then◌else◌, length,
}
use tensor_pool_c.Common.Words.{add64, mul64}

-- `tp_mpsc_slot_t`
pub record Slot : Type 0 where
  pub sequence : ℕ
  pub data_bytes : List ℕ

-- `tp_mpsc_queue_t`; `slots` is none until the first offer.
pub record Queue : Type 0 where
  pub slots : Option (ℕ → Slot)
  pub capacity : ℕ
  pub mask : ℕ
  pub item_size : ℕ
  pub head : ℕ
  pub tail : ℕ

abbrev pub is_power_of_two : ℕ → Bool
is_power_of_two value = not (value == 0) && (bit_and value (value - 1) == 0)

unfoldable pub init : ℕ → Option Queue
init capacity =
    if (capacity == 0) || not (is_power_of_two capacity)
    then none
    else some (record {
      slots = none;
      capacity = capacity;
      mask = capacity - 1;
      item_size = 0;
      head = 0;
      tail = 0;
    })

-- What an allocation comes to: an error, a buffer that is smaller than its slots, so that the stores
-- to them leave it, or the queue with its slots.
pub data Allocated : Type 0 where
  no_slots overruns_slots : Allocated
  with_slots : Queue → Allocated

-- `sizeof(tp_mpsc_slot_t)`: the sequence number; the data come after it.
abbrev pub slot_header_bytes : ℕ
slot_header_bytes = 8

-- `tp_mpsc_queue_alloc_slots`; `memory` says whether `calloc` gives its `total_size` bytes, which
-- are a product in a `size_t`.
unfoldable pub alloc_slots : Bool → Queue → ℕ → Allocated
alloc_slots memory q item_size =
    if (item_size == 0) || not memory
    then no_slots
    else if ltb total_size (q.capacity * (slot_header_bytes + item_size))
    then overruns_slots
    else with_slots (record q {
      slots = some (λ i. record { sequence = i; data_bytes = [] });
      item_size = item_size;
    })
  where
    slot_size : ℕ
    slot_size = add64 slot_header_bytes item_size

    total_size : ℕ
    total_size = mul64 q.capacity slot_size

-- `(intptr_t)a - (intptr_t)b < 0`
abbrev pub is_before : ℕ → ℕ → Bool
is_before a b = ltb ((a + 2 ^ 63) % 2 ^ 64) ((b + 2 ^ 63) % 2 ^ 64)

abbrev pub slot_index : Queue → ℕ → ℕ
slot_index q pos = bit_and pos q.mask

unfoldable pub put_slot : ℕ → Slot → (ℕ → Slot) → ℕ → Slot
put_slot index s slots = λ i. if i == index then s else slots i

-- `tp_mpsc_queue_close`
unfoldable pub close : Queue → Queue
close q = record q { slots = none; capacity = 0; mask = 0; item_size = 0 }

-- 0, -1 with EAGAIN, -1 with EINVAL or ENOMEM, or stores outside of the slots, which C leaves open
pub data Offered : Type 0 where
  sent full refused overruns : Offered

-- The `for` of `tp_mpsc_queue_offer` at `pos`.
unfoldable pub offer_loop : List Bool → (ℕ → Slot) → Queue → List ℕ → ℕ → Option (Offered × Queue)
unfolding put_slot
offer_loop [] slots q item pos = none
offer_loop (fails ∷ rounds) slots q item pos =
    let seq = (slots (slot_index q pos)).sequence in
    let again = offer_loop rounds slots q item q.tail in
    if seq == pos
    then (if not fails && (q.tail == pos)
        then some (
          sent,
          record q {
            tail = add64 pos 1;
            slots = some (
                put_slot (slot_index q pos) (record { sequence = add64 pos 1; data_bytes = item })
                  slots);
          },
        )
        else again)
    else if is_before seq pos
    then some (full, q)
    else again

unfoldable pub offer : List Bool → Bool → Queue → List ℕ → Option (Offered × Queue)
offer rounds memory q item = elim allocated [
  | no_slots ↦ some (refused, q)
  | overruns_slots ↦ some (overruns, q)
  | with_slots r ↦ elim r.slots [
    | none ↦ some (refused, r)
    | some slots ↦
        if not (length item == r.item_size)
        then some (refused, r)
        else offer_loop rounds slots r item r.tail
  ]
]
  where
    allocated : Allocated
    allocated = elim q.slots [ none ↦ alloc_slots memory q (length item) | some _ ↦ with_slots q ]

-- 1 and the item, 0, -1
pub data Polled : Type 0 where
  item : List ℕ → Polled
  empty invalid : Polled

-- The `for` of `tp_mpsc_queue_poll` at `pos`.
unfoldable pub poll_loop : List Bool → (ℕ → Slot) → Queue → ℕ → Option (Polled × Queue)
unfolding put_slot
poll_loop [] slots q pos = none
poll_loop (fails ∷ rounds) slots q pos =
    let s = slots (slot_index q pos) in
    let again = poll_loop rounds slots q q.head in
    if s.sequence == add64 pos 1
    then (if not fails && (q.head == pos)
        then some (
          item s.data_bytes,
          record q {
            head = add64 pos 1;
            slots = some (
                put_slot (slot_index q pos) (record s { sequence = add64 (add64 pos q.mask) 1 })
                  slots);
          },
        )
        else again)
    else if is_before s.sequence (add64 pos 1)
    then some (empty, q)
    else again

unfoldable pub poll : List Bool → Queue → ℕ → Option (Polled × Queue)
poll rounds q item_size = elim q.slots [
  | none ↦ some (invalid, q)
  | some slots ↦
      if not (item_size == q.item_size) then some (invalid, q) else poll_loop rounds slots q q.head
]
