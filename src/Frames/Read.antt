-- ===== src/Frames/Read.antt =====
-- `tp_consumer_read_frame` of src/client/tp_consumer.c, against a memory that changes while it
-- runs.
use tensor_pool_c.Common.{
  ℕ, not, ◌||◌, Option, none, some, List, ltb, leb, ◌==◌, if◌then◌else◌, length,
}
use tensor_pool_c.Frames.Memory.{Slot, Memory, payload_start, seq_is_committed, seq_value}
use tensor_pool_c.Frames.Publish.{Ring, Codec, Pool, header_index, find_pool}

-- `tp_frame_view_t`; `payload` is the distance of its bytes from the end of the pool's superblock.
pub record View (T : Type 0) : Type 0 where
  pub tensor : T
  pub payload : ℕ
  pub payload_len : ℕ
  pub pool_id : ℕ
  pub payload_slot : ℕ
  pub timestamp_ns : ℕ
  pub meta_version : ℕ

-- The answers: -1; 1; 1 with a late drop counted; 0 and the view.
pub data Answer (T : Type 0) : Type 0 where
  failed : Answer T
  skipped : Answer T
  late : Answer T
  frame : View T → Answer T

module _ {T : Type 0} (codec : Codec T) where
  -- The checks of the decoded fields `s`, and the view, with the tensor that `bytes` decode to.
  unfoldable pub view_of : List Pool → ℕ → Slot → List ℕ → Option (View T)
  view_of pools index s bytes =
      if not (s.payload_offset == 0)
      then none
      else if not (s.payload_slot == index)
      then none
      else elim (find_pool pools s.pool_id) [
        | none ↦ none
        | some pool ↦
            if ltb pool.stride_bytes s.values_len_bytes
            then none
            else if not (length s.header_bytes == codec.header_length)
            then none
            else elim (codec.decode bytes) [
              | none ↦ none
              | some tensor ↦ some (record {
                tensor = tensor;
                payload = payload_start s.payload_slot pool.stride_bytes;
                payload_len = s.values_len_bytes;
                pool_id = s.pool_id;
                payload_slot = s.payload_slot;
                timestamp_ns = s.timestamp_ns;
                meta_version = s.meta_version;
              })
            ]
      ]

  -- The read by an attached consumer whose memory is mapped: `m1` is the memory at the first load
  -- of the sequence word, `m2` where the fields are read, `m3` where the tensor's header is
  -- decoded, and `m4` at the second load.
  unfoldable pub read_frame : Ring → ℕ → Memory → Memory → Memory → Memory → Answer T
  read_frame ring seq m1 m2 m3 m4 =
      if ring.header_nslots == 0
      then failed
      else if leb ring.header_nslots index
      then failed
      else if not (seq_is_committed first)
      then late
      else elim (view_of ring.pools index (m2.slots index) (m3.slots index).header_bytes) [
        | none ↦ skipped
        | some v ↦
            if not (second == first) || not (seq_is_committed second)
            then late
            else if not (seq_value second == seq)
            then late
            else frame v
      ]
    where
      index : ℕ
      index = header_index ring.header_nslots seq

      first : ℕ
      first = (m1.slots index).seq_commit

      second : ℕ
      second = (m4.slots index).seq_commit
