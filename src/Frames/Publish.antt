-- ===== src/Frames/Publish.antt =====
-- `tp_producer_publish_frame` and `tp_producer_offer_frame` of src/client/tp_producer.c, as far as
-- the shared memory goes: the descriptor that is published afterwards is not modelled.
use Prim.Native.Nat.{bit_and}
use tensor_pool_c.Common.{
  ℕ, ◌-◌, Option, none, some, List, [], ◌∷◌, ◌||◌, ltb, leb, ◌==◌, if◌then◌else◌, length,
  find_first,
}
use tensor_pool_c.Common.Words.{u32, add64, null_u64}
use tensor_pool_c.Frames.Memory.{
  Write, payload_start, mark, copy, fields, header, seq_in_progress, seq_committed,
}

-- `tp_payload_pool_t`
pub record Pool : Type 0 where
  pub pool_id : ℕ
  pub stride_bytes : ℕ

-- The tensor headers of a producer: what it makes of the caller's tensor
-- (`tp_prepare_tensor_header`, `tp_encode_tensor_header`), and what a consumer makes of its bytes
-- (`tp_tensor_header_decode`, `tp_tensor_header_validate`). They rest on generated code.
pub record Codec (T : Type 0) : Type 0 where
  pub prepare : T → Option T
  pub encode : T → Option (List ℕ)
  pub decode : List ℕ → Option T
  pub header_length : ℕ

-- A frame to publish: `tp_frame_t` with the time and version of its `tp_frame_metadata_t`, and the
-- reading of the clock.
pub record Frame (T : Type 0) : Type 0 where
  pub tensor : T
  pub payload : List ℕ
  pub timestamp_ns : ℕ
  pub meta_version : ℕ
  pub now : ℕ

-- The part of `tp_producer_t` that publishing reads.
pub record Ring : Type 0 where
  pub header_nslots : ℕ
  pub pools : List Pool

-- The slot of a sequence number.
abbrev pub header_index : ℕ → ℕ → ℕ
header_index nslots seq = u32 (bit_and seq (nslots - 1))

-- `tp_find_pool` and `tp_consumer_find_pool`
abbrev pub find_pool : List Pool → ℕ → Option Pool
find_pool pools pool_id = find_first (λ p. p.pool_id == pool_id) pools

-- One round of `tp_find_pool_for_length`: the first of the smallest pools that are large enough.
unfoldable pub fitting : ℕ → Pool → Option Pool → Option Pool
fitting len pool best = elim best [
  | none ↦ if leb len pool.stride_bytes then some pool else none
  | some b ↦
      if leb len pool.stride_bytes
      then (if ltb pool.stride_bytes b.stride_bytes then some pool else some b)
      else some b
]

unfoldable pub find_pool_for_length : List Pool → ℕ → Option Pool → Option Pool
unfolding fitting
find_pool_for_length [] len best = best
find_pool_for_length (pool ∷ pools) len best =
    find_pool_for_length pools len (fitting len pool best)

-- The time in the slot: the caller's, or the clock's where that is 0 or null.
abbrev pub slot_timestamp : {T : Type 0} → Frame T → ℕ
slot_timestamp f =
    if (f.timestamp_ns == 0) || (f.timestamp_ns == null_u64) then f.now else f.timestamp_ns

module _ {T : Type 0} (codec : Codec T) where
  -- The stores once the frame has been accepted: the slot is marked, the payload and the fields are
  -- written (copying no bytes is no store), then the tensor's header, if it can be encoded, and the
  -- mark of the commit.
  unfoldable pub frame_writes : (index start seq pool_id : ℕ) → Frame T → T → List Write
  frame_writes index start seq pool_id f tensor =
      mark index (seq_in_progress seq)
      ∷ copy pool_id start f.payload
      ∷ fields index (length f.payload) pool_id (slot_timestamp f) f.meta_version
      ∷ elim (codec.encode tensor) [
        | none ↦ []
        | some bytes ↦ header index bytes ∷ mark index (seq_committed seq) ∷ []
      ]

  -- `tp_producer_publish_frame`: the stores; there are none where the frame is refused.
  unfoldable pub publish_frame : Ring → ℕ → Frame T → ℕ → List Write
  publish_frame ring seq f pool_id =
      if (ring.header_nslots == 0) || (length ring.pools == 0)
      then []
      else elim (find_pool ring.pools pool_id) [
        | none ↦ []
        | some pool ↦
            if ltb pool.stride_bytes (length f.payload) then [] else elim (codec.prepare f.tensor) [
              | none ↦ []
              | some tensor ↦
                  let index = header_index ring.header_nslots seq in
                  frame_writes index (payload_start index pool.stride_bytes) seq pool_id f tensor
            ]
      ]

  -- `tp_producer_offer_frame`: the next sequence number, and the stores. A frame that no pool can
  -- hold takes no number.
  unfoldable pub offer_frame : Ring → ℕ → Frame T → ℕ × List Write
  offer_frame ring next_seq f =
      if (ring.header_nslots == 0) || (length ring.pools == 0)
      then (next_seq, [])
      else elim (find_pool_for_length ring.pools (length f.payload) none) [
        | none ↦ (next_seq, [])
        | some pool ↦ (add64 next_seq 1, publish_frame ring next_seq f pool.pool_id)
      ]
