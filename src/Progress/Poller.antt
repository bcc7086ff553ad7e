-- ===== src/Progress/Poller.antt =====
-- `tp_progress_poller_t` and the functions of src/client/tp_progress_poller.c. The tracker is the
-- list of its entries, `tracker_capacity` is its length, and NULL is the empty list. What a
-- validator says of an update is the flag `valid`, true where none is set; `memory` says whether an
-- allocation succeeds.
use Prim.Native.Nat.{bit_and}
use tensor_pool_c.Common.{
  ℕ, zero, suc, ◌+◌, ◌-◌, ◌%◌, Bool, true, false, not, ◌&&◌, Option, none, some, List, [], ◌∷◌,
  ◌++◌, length, get_elem?, set, ltb, leb, ◌==◌, if◌then◌else◌, find_first, update_first,
}

-- `tp_frame_progress_t`
pub record FrameProgress : Type 0 where
  pub stream_id : ℕ
  pub epoch : ℕ
  pub seq : ℕ
  pub payload_bytes_filled : ℕ
  pub state : ℕ

pub record Entry : Type 0 where
  pub stream_id : ℕ
  pub epoch : ℕ
  pub seq : ℕ
  pub last_bytes : ℕ
  pub in_use : Bool

pub record Poller : Type 0 where
  pub tracker : List Entry
  pub tracker_cursor : ℕ
  pub header_nslots : ℕ
  pub max_payload_bytes : ℕ

abbrev unused_entry : Entry
unused_entry = record { stream_id = 0; epoch = 0; seq = 0; last_bytes = 0; in_use = false }

-- `calloc`
abbrev pub unused : ℕ → List Entry
unused zero = []
unused (suc n) = unused_entry ∷ unused n

-- `TP_PROGRESS_TRACKER_CAPACITY`
abbrev pub tracker_capacity : ℕ
tracker_capacity = 64

-- `tp_progress_poller_init`, where memory is given.
abbrev pub init : Poller
init = record {
  tracker = unused tracker_capacity;
  tracker_cursor = 0;
  header_nslots = 0;
  max_payload_bytes = 0;
}

-- `tp_progress_poller_set_max_payload_bytes`
abbrev pub set_max_payload_bytes : Poller → ℕ → Poller
set_max_payload_bytes p max_payload_bytes = record p { max_payload_bytes = max_payload_bytes }

-- `tp_progress_poller_resize`; none where it fails.
unfoldable pub resize : Bool → Poller → ℕ → Option Poller
resize memory p capacity =
    if capacity == 0
    then none
    else if leb capacity (length p.tracker)
    then some p
    else if not memory
    then none
    else some (record p {
      tracker = p.tracker ++ unused (capacity - length p.tracker);
      tracker_cursor = if leb capacity p.tracker_cursor then 0 else p.tracker_cursor;
    })

-- `tp_progress_poller_set_consumer`: the header slots of the consumer, 0 for none.
unfoldable pub set_consumer : Bool → Poller → ℕ → Poller
set_consumer memory p header_nslots =
    if ltb 0 header_nslots
    then elim (resize memory (record p { header_nslots = header_nslots }) header_nslots) [
      | none ↦ record p { tracker = []; tracker_cursor = 0; header_nslots = 0 }
      | some q ↦ q
    ]
    else record p { header_nslots = 0 }

-- The entry is in use for the frame of the update.
abbrev pub is_for : FrameProgress → Entry → Bool
is_for v e = e.in_use && (e.seq == v.seq) && (e.stream_id == v.stream_id) && (e.epoch == v.epoch)

abbrev pub entry_of : FrameProgress → Entry
entry_of v = record {
  stream_id = v.stream_id;
  epoch = v.epoch;
  seq = v.seq;
  last_bytes = v.payload_bytes_filled;
  in_use = true;
}

abbrev pub advance : FrameProgress → Entry → Entry
advance v e = record e { last_bytes = v.payload_bytes_filled }

-- The tracker is written if the validator agrees.
abbrev pub decide : Bool → Poller → Poller → Bool × Poller
decide valid before after = if valid then (true, after) else (false, before)

abbrev pub slot_index : Poller → FrameProgress → ℕ
slot_index p v = bit_and v.seq (p.header_nslots - 1)

-- `tp_progress_poller_validate` with a consumer: a frame has the entry of its header slot. (The
-- index is below `header_nslots`, so there is one.)
unfoldable pub validate_direct : Bool → Poller → FrameProgress → Bool × Poller
validate_direct valid p v =
    if ltb (length p.tracker) p.header_nslots
    then (false, p)
    else elim (get_elem? p.tracker (slot_index p v)) [
      | none ↦ (false, p)
      | some e ↦
          if is_for v e
          then (if ltb v.payload_bytes_filled e.last_bytes
              then (false, p)
              else decide valid p
                  (record p { tracker = set p.tracker (slot_index p v) (advance v e) }))
          else decide valid p (record p { tracker = set p.tracker (slot_index p v) (entry_of v) })
    ]

-- Without a consumer: the entry is searched, and new frames take the entries in turn.
unfoldable pub validate_ring : Bool → Poller → FrameProgress → Bool × Poller
validate_ring valid p v = elim (find_first (is_for v) p.tracker) [
  | some e ↦
      if ltb v.payload_bytes_filled e.last_bytes
      then (false, p)
      else decide valid p (record p { tracker = update_first (is_for v) (advance v) p.tracker })
  | none ↦ decide valid p (record p {
    tracker = set p.tracker p.tracker_cursor (entry_of v);
    tracker_cursor = (p.tracker_cursor + 1) % length p.tracker;
  })
]

unfoldable pub enlarge : Bool → Poller → Option Poller
enlarge memory p =
    if ltb 0 p.header_nslots && ltb (length p.tracker) p.header_nslots
    then resize memory p p.header_nslots
    else some p

unfoldable pub validate : Bool → Bool → Poller → FrameProgress → Bool × Poller
validate memory valid p v =
    if ltb 0 p.max_payload_bytes && ltb p.max_payload_bytes v.payload_bytes_filled
    then (false, p)
    else elim (enlarge memory p) [
      | none ↦ (false, p)
      | some q ↦
          if length q.tracker == 0
          then (false, q)
          else if ltb 0 q.header_nslots
          then validate_direct valid q v
          else validate_ring valid q v
    ]

-- An update that is decoded, with what the outside world answers on it.
pub record Message : Type 0 where
  pub memory : Bool
  pub valid : Bool
  pub progress : FrameProgress

-- `tp_progress_poller_handler`: the update for `on_progress`, if it passes.
unfoldable pub handle : Poller → Message → Option FrameProgress × Poller
handle p m =
    let out = validate m.memory m.valid p m.progress in
    (if out.0 then some m.progress else none, out.1)

unfoldable pub handle_all : Poller → List Message → Poller
handle_all p [] = p
handle_all p (m ∷ messages) = handle_all (handle p m).1 messages
