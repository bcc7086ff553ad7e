-- ===== src/Frames/Memory.antt =====
-- The shared memory of a stream: the header slots (include/tensor_pool/common/tp_slot.h) and the
-- payload slots of the pools, and the sequence words of include/tensor_pool/internal/tp_seqlock.h.
-- Loads and stores are taken to be seen in the order of the program.
use tensor_pool_c.Common.{
  ℕ, zero, suc, ◌+◌, ◌*◌, ◌/◌, ◌%◌, Bool, List, [], ◌∷◌, ◌==◌, if◌then◌else◌,
}
use tensor_pool_c.Common.Words.{u32, mul64}

-- A slot of the header ring. `seq_commit` is its first word.
pub record Slot : Type 0 where
  pub seq_commit : ℕ
  pub values_len_bytes : ℕ
  pub payload_slot : ℕ
  pub pool_id : ℕ
  pub payload_offset : ℕ
  pub timestamp_ns : ℕ
  pub meta_version : ℕ
  pub header_bytes : List ℕ

-- The slots by their index, and the bytes of a pool by its id and their distance from the end of its
-- superblock.
pub record Memory : Type 0 where
  pub slots : ℕ → Slot
  pub payloads : ℕ → ℕ → ℕ

-- Where the payload slot of a header slot starts: `header_index * pool->stride_bytes`, a product of
-- two `uint32_t`.
abbrev pub payload_start : ℕ → ℕ → ℕ
payload_start index stride_bytes = u32 (index * stride_bytes)

-- A `memcpy` to the bytes from `start` on.
unfoldable pub store_bytes : ℕ → List ℕ → (ℕ → ℕ) → ℕ → ℕ
store_bytes start [] bytes = bytes
store_bytes start (x ∷ xs) bytes =
    λ at. if at == start then x else store_bytes (suc start) xs bytes at

-- The `len` bytes from `start` on.
unfoldable pub load_bytes : ℕ → ℕ → (ℕ → ℕ) → List ℕ
load_bytes start zero bytes = []
load_bytes start (suc len) bytes = bytes start ∷ load_bytes (suc start) len bytes

-- `tp_seq_in_progress`, `tp_seq_committed`, `tp_seq_is_committed` and `tp_seq_value`
abbrev pub seq_in_progress : ℕ → ℕ
seq_in_progress seq = mul64 seq 2

abbrev pub seq_committed : ℕ → ℕ
seq_committed seq = mul64 seq 2 + 1

abbrev pub seq_is_committed : ℕ → Bool
seq_is_committed seq_commit = seq_commit % 2 == 1

abbrev pub seq_value : ℕ → ℕ
seq_value seq_commit = seq_commit / 2

-- The stores that a publication does.
pub data Write : Type 0 where
  -- the sequence word of a slot
  mark : ℕ → ℕ → Write
  -- bytes to a payload slot: pool, where it starts, bytes
  copy : ℕ → ℕ → List ℕ → Write
  -- the fields of a slot: index, length, pool, time, version
  fields : ℕ → ℕ → ℕ → ℕ → ℕ → Write
  -- the tensor header of a slot, with its length
  header : ℕ → List ℕ → Write

unfoldable pub write_slot : ℕ → (Slot → Slot) → Memory → Memory
write_slot index f m = record m { slots = λ i. if i == index then f (m.slots i) else m.slots i }

unfoldable pub write : Write → Memory → Memory
unfolding write_slot store_bytes
write (mark index v) m = write_slot index (λ s. record s { seq_commit = v }) m
write (copy pool start bytes) m = record m {
  payloads = λ p. if p == pool then store_bytes start bytes (m.payloads p) else m.payloads p;
}
write (fields index len pool time version) m =
    write_slot index
      (λ s. record s {
        values_len_bytes = len;
        payload_slot = index;
        pool_id = pool;
        payload_offset = 0;
        timestamp_ns = time;
        meta_version = version;
      })
      m
write (header index bytes) m = write_slot index (λ s. record s { header_bytes = bytes }) m
