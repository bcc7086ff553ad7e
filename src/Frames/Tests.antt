-- ===== src/Frames/Tests.antt =====
-- A producer and a consumer on one slot, and the theorems about frames at these inputs.
use tensor_pool_c.Common.{ℕ, ◌≡◌, refl, none, some, [], ◌∷◌, arith}
use tensor_pool_c.Frames.Memory.{Memory, write, write_slot, store_bytes}
use tensor_pool_c.Frames.Publish.{
  Codec, Frame, Ring, find_pool_for_length, fitting, frame_writes, publish_frame, offer_frame,
}
use tensor_pool_c.Frames.Read.{View, frame, late, view_of, read_frame}
use tensor_pool_c.Frames.Writer.{State, step, run}
use tensor_pool_c.Frames.Whole.{IsViewOf, read_frame_whole}
use tensor_pool_c.Frames.Pools.{SmallestFit, find_pool_for_length-smallest}

-- Tensors are numbers, and a header is one byte long.
abbrev codec : Codec ℕ
codec = record {
  prepare = λ x. some x;
  encode = λ x. some (x ∷ []);
  decode = λ bytes. elim bytes [ [] ↦ none | ◌∷◌ b bs ↦ some b ];
  header_length = 1;
}

abbrev ring : Ring
ring = record {
  header_nslots = 2;
  pools = record { pool_id = 1; stride_bytes = 64 } ∷ record { pool_id = 2; stride_bytes = 4 } ∷ [];
}

-- Frame n is the tensor n with the payload n, 7.
abbrev frames : ℕ → Frame ℕ
frames n = record {
  tensor = n;
  payload = n ∷ 7 ∷ [];
  timestamp_ns = 500;
  meta_version = 1;
  now = 0;
}

abbrev start : State
start = record {
  memory = record {
    slots = λ i. record {
      seq_commit = 0;
      values_len_bytes = 0;
      payload_slot = 0;
      pool_id = 0;
      payload_offset = 0;
      timestamp_ns = 0;
      meta_version = 0;
      header_bytes = [];
    };
    payloads = λ p o. 9;
  };
  next_seq = 0;
  pending = [];
}

abbrev at : ℕ → Memory
at t = (run codec ring frames t start).memory

abbrev view : View ℕ
view = record {
  tensor = 1;
  payload = 4;
  payload_len = 2;
  pool_id = 2;
  payload_slot = 1;
  timestamp_ns = 500;
  meta_version = 1;
}

-- Frame 1 is whole after twelve stores and calls, and gone after 25: frame 3 has its slot.
second_read : read_frame codec ring 1 (at 12) (at 13) (at 14) (at 15) ≡ frame view
unfolding read_frame view_of run step offer_frame publish_frame frame_writes find_pool_for_length
    fitting write write_slot store_bytes
second_read = refl

overtaken : read_frame codec ring 1 (at 12) (at 13) (at 14) (at 25) ≡ late
unfolding read_frame view_of run step offer_frame publish_frame frame_writes find_pool_for_length
    fitting write write_slot store_bytes
overtaken = refl

read_frame_whole_example : IsViewOf codec (frames 1) view (at 15)
read_frame_whole_example =
    read_frame_whole codec ring frames start 12 13 14 15 1 view (omega arith, (omega arith, tt))
      (λ i. refl) refl refl (omega arith) (omega arith) (omega arith) (omega arith) second_read

find_pool_for_length-smallest_example :
    SmallestFit ring.pools 3 (find_pool_for_length ring.pools 3 none)
find_pool_for_length-smallest_example = find_pool_for_length-smallest ring.pools 3
