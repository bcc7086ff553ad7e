-- ===== src/Frames/Whole.antt =====
-- A consumer that reads while the producer publishes gets whole frames only.
use tensor_pool_c.Common.{
  ℕ, ◌+◌, ◌*◌, ◌%◌, ◌^◌, ◌<◌, ◌≤◌, ◌≡◌, inl, inr, sym, ap, ◌∙◌, some, List, [], arith, length,
  some_cancel, Option-cases,
}
use tensor_pool_c.Frames.Memory.{Slot, Memory, payload_start, load_bytes}
use tensor_pool_c.Frames.Bytes.{IsAddressable, load_bytes_same, find_pool-All, payload_start_fits}
use tensor_pool_c.Frames.Publish.{Ring, Codec, Frame, Pool, header_index, slot_timestamp, find_pool}
use tensor_pool_c.Frames.Read.{View, frame, view_of, read_frame}
use tensor_pool_c.Frames.Writer.{State, Same, commit_of, run, Shows}
use tensor_pool_c.Frames.Stays.{at-Inv, at_stays, at_between}

module _ {T : Type 0} (codec : Codec T) where
  -- What a view takes from the slot.
  record FromSlot (pools : List Pool) (index : ℕ) (v : View T) (s : Slot) (bytes : List ℕ)
      : Type 0 where
    tensor : codec.decode bytes ≡ some v.tensor
    len : v.payload_len ≡ s.values_len_bytes
    pool : v.pool_id ≡ s.pool_id
    place : v.payload_slot ≡ s.payload_slot
    named : s.payload_slot ≡ index
    owner : Pool
    found : find_pool pools s.pool_id ≡ some owner
    start : v.payload ≡ payload_start s.payload_slot owner.stride_bytes
    timestamp : v.timestamp_ns ≡ s.timestamp_ns
    version : v.meta_version ≡ s.meta_version

  view_of-FromSlot :
      (pools : List Pool) (index : ℕ) (s : Slot) (bytes : List ℕ) (v : View T)
      → view_of codec pools index s bytes ≡ some v
      → FromSlot pools index v s bytes
  unfolding view_of
  view_of-FromSlot pools index s bytes v h = elim (Option-cases (find_pool pools s.pool_id)) [
    | inl lost ↦ ground (arith, lost)
    | inr (pool, found) ↦ elim (Option-cases (codec.decode bytes)) [
      | inl e ↦ ground (arith, e, found)
      | inr (x, e) ↦ record {
        tensor = ground (arith, e, found);
        len = ground (arith, e, found);
        pool = ground (arith, e, found);
        place = ground (arith, e, found);
        named = ground (arith, e, found);
        owner = pool;
        found = found;
        start = ground (arith, e, found);
        timestamp = ground (arith, e, found);
        version = ground (arith, e, found);
      }
    ]
  ]

  read_frame_inversion :
      (ring : Ring) (seq : ℕ) (m1 m2 m3 m4 : Memory) (v : View T)
      → read_frame codec ring seq m1 m2 m3 m4 ≡ frame v
      → (header_index ring.header_nslots seq < ring.header_nslots)
        × (commit_of m1 (header_index ring.header_nslots seq) ≡ seq * 2 + 1)
        × (commit_of m4 (header_index ring.header_nslots seq) ≡ seq * 2 + 1)
        × (view_of codec ring.pools
              (header_index ring.header_nslots seq)
              (m2.slots (header_index ring.header_nslots seq))
              (m3.slots (header_index ring.header_nslots seq)).header_bytes
            ≡ some v)
  unfolding read_frame
  read_frame_inversion ring seq m1 m2 m3 m4 v h =
      elim (Option-cases (
        view_of codec ring.pools (header_index ring.header_nslots seq)
          (m2.slots (header_index ring.header_nslots seq))
          (m3.slots (header_index ring.header_nslots seq)).header_bytes)) [
            | inl e ↦ ground (arith, e)
            | inr (w, e) ↦
                (ground (arith, e), ground (arith, e), ground (arith, e), ground (arith, e))
          ]

  -- The view `v` shows the frame `f` in the memory `m`: its length, time and version, the tensor
  -- that the producer prepared and encoded, decoded again, and its payload.
  pub record IsViewOf (f : Frame T) (v : View T) (m : Memory) : Type 0 where
    pub len : v.payload_len ≡ length f.payload
    pub timestamp : v.timestamp_ns ≡ slot_timestamp f
    pub version : v.meta_version ≡ f.meta_version
    pub tensor :
        (x : T) × ((bytes : List ℕ) × ((codec.prepare f.tensor ≡ some x)
            × ((codec.encode x ≡ some bytes) × (codec.decode bytes ≡ some v.tensor))))
    pub bytes : load_bytes v.payload v.payload_len (m.payloads v.pool_id) ≡ f.payload

  -- No torn read. A producer publishes frames by tp_producer_offer_frame, from number 0 on, in a
  -- memory whose sequence words are 0 and whose pools have at most 2^32 bytes of payload each. A
  -- consumer of the same ring and pools reads number `seq` meanwhile: its first load of the sequence
  -- word comes after t1 of the producer's stores and calls, the fields after t2, the tensor header
  -- after t3 and the second load after t4, where t4 is below 2^62. If tp_consumer_read_frame returns
  -- 0, its view is that of the frame that took the number `seq`, and the bytes at the view's payload
  -- are the whole payload of that frame at the second load.
  pub read_frame_whole :
      (ring : Ring) (frames : ℕ → Frame T) (s : State) (t1 t2 t3 t4 seq : ℕ) (v : View T)
      → IsAddressable ring
      → ((i : ℕ) → commit_of s.memory i ≡ 0)
      → s.next_seq ≡ 0
      → s.pending ≡ []
      → t1 ≤ t2
      → t2 ≤ t3
      → t3 ≤ t4
      → t4 < 2 ^ 62
      → read_frame codec ring seq
          (run codec ring frames t1 s).memory
          (run codec ring frames t2 s).memory
          (run codec ring frames t3 s).memory
          (run codec ring frames t4 s).memory
        ≡ frame v
      → IsViewOf (frames seq) v (run codec ring frames t4 s).memory
  read_frame_whole ring frames s t1 t2 t3 t4 seq v wide blank first calm le1 le2 le3 small h =
      record {
        len = from.len ∙ ap (λ x. x.values_len_bytes) same2.slot ∙ shows.len;
        timestamp = from.timestamp ∙ ap (λ x. x.timestamp_ns) same2.slot ∙ shows.timestamp;
        version = from.version ∙ ap (λ x. x.meta_version) same2.slot ∙ shows.version;
        tensor = (
          shows.tensor.0,
          (
            slot1.header_bytes,
            (
              shows.tensor.1.0,
              (
                shows.tensor.1.1,
                ap codec.decode (sym (ap (λ x. x.header_bytes) same3.slot)) ∙ from.tensor,
              ),
            ),
          ),
        );
        bytes = payload;
      }
    where
      at : ℕ → Memory
      at t = (run codec ring frames t s).memory

      i : ℕ
      i = header_index ring.header_nslots seq

      slot1 : Slot
      slot1 = (at t1).slots i

      seen :
          (i < ring.header_nslots)
          × (commit_of (at t1) i ≡ seq * 2 + 1)
          × (commit_of (at t4) i ≡ seq * 2 + 1)
          × (view_of codec ring.pools i ((at t2).slots i) ((at t3).slots i).header_bytes ≡ some v)
      seen = read_frame_inversion ring seq (at t1) (at t2) (at t3) (at t4) v h

      from : FromSlot ring.pools i v ((at t2).slots i) ((at t3).slots i).header_bytes
      from = view_of-FromSlot ring.pools i ((at t2).slots i) ((at t3).slots i).header_bytes v seen.3

      odd : commit_of (at t1) i % 2 ≡ 1
      odd = omega (arith, seen.1)

      stays : commit_of (at t4) i ≡ commit_of (at t1) i
      stays = seen.2 ∙ sym seen.1

      same2 : Same ring.pools i (at t1) (at t2)
      same2 =
          at_between codec ring frames s wide blank first calm t1 t2 t4 i le1 (omega arith) small
            odd stays

      same3 : Same ring.pools i (at t1) (at t3)
      same3 =
          at_between codec ring frames s wide blank first calm t1 t3 t4 i (omega arith) le3 small
            odd stays

      same4 : Same ring.pools i (at t1) (at t4)
      same4 =
          at_stays codec ring frames s wide blank first calm t1 t4 i (omega arith) small odd stays

      shows : Shows codec ring frames seq i (at t1)
      shows = (at-Inv codec ring frames s wide blank first calm t1 (omega arith)).shown i seq seen.1

      pool_is : slot1.pool_id ≡ ((at t2).slots i).pool_id
      pool_is = sym (ap (λ x. x.pool_id) same2.slot)

      owner_is : from.owner ≡ shows.pool
      owner_is =
          some_cancel (sym from.found ∙ ap (find_pool ring.pools) (sym pool_is) ∙ shows.found)

      start_is : v.payload ≡ i * shows.pool.stride_bytes
      start_is =
          from.start
          ∙ ap (λ (n : ℕ). payload_start n from.owner.stride_bytes)
              {x = ((at t2).slots i).payload_slot} {y = i} from.named
          ∙ ap (λ (x : Pool). payload_start i x.stride_bytes) owner_is
          ∙ payload_start_fits i ring.header_nslots shows.pool.stride_bytes seen.0 (
              find_pool-All (λ q. ring.header_nslots * q.stride_bytes ≤ 2 ^ 32) ring.pools
                slot1.pool_id shows.pool wide shows.found)

      len_is : v.payload_len ≡ length (frames seq).payload
      len_is = from.len ∙ ap (λ x. x.values_len_bytes) same2.slot ∙ shows.len

      kept :
          load_bytes
            (i * shows.pool.stride_bytes)
            (length (frames seq).payload)
            ((at t4).payloads slot1.pool_id)
          ≡ (frames seq).payload
      kept =
          load_bytes_same (i * shows.pool.stride_bytes) (length (frames seq).payload)
            ((at t4).payloads slot1.pool_id) ((at t1).payloads slot1.pool_id)
            (λ o low high.
              same4.payload slot1.pool_id shows.pool o shows.found low
                (omega (arith, high, shows.fits)))
          ∙ shows.bytes

      payload :
          load_bytes v.payload v.payload_len ((at t4).payloads v.pool_id) ≡ (frames seq).payload
      payload =
          ap (λ (n : ℕ). load_bytes n v.payload_len ((at t4).payloads v.pool_id)) start_is
          ∙ ap (λ (n : ℕ). load_bytes (i * shows.pool.stride_bytes) n ((at t4).payloads v.pool_id))
              len_is
          ∙ ap
              (λ (p : ℕ).
                load_bytes (i * shows.pool.stride_bytes) (length (frames seq).payload)
                  ((at t4).payloads p))
              (from.pool ∙ sym pool_is)
          ∙ kept
