-- ===== src/Frames/Writer.antt =====
-- A producer that publishes one frame after the other, store by store, and what holds of the
-- shared memory meanwhile.
use tensor_pool_c.Common.{
  ℕ, zero, suc, ◌*◌, ◌%◌, ◌<◌, ◌≤◌, ◌≡◌, ◌⊎◌, inl, inr, refl, sym, ap, ◌∙◌, subst, some, List, [],
  ◌∷◌, arith, ◌==◌, length, some_cancel, ◌+◌, Bool-cases,
}
use tensor_pool_c.Frames.Bytes.{load_bytes_same, store_bytes_outside, slots_apart}
use tensor_pool_c.Frames.Memory.{
  load_bytes, Memory, Write, mark, copy, fields, header, write, write_slot,
}
use tensor_pool_c.Frames.Publish.{
  Ring, Codec, Frame, Pool, header_index, slot_timestamp, find_pool, offer_frame,
}

-- The memory, `next_seq`, and the stores that the current publication has still to do.
pub record State : Type 0 where
  pub memory : Memory
  pub next_seq : ℕ
  pub pending : List Write

-- Of the slot `i` and its payload slots in the pools, nothing changes.
pub record Same (pools : List Pool) (i : ℕ) (m m' : Memory) : Type 0 where
  pub slot : m'.slots i ≡ m.slots i
  pub payload :
      (p : ℕ) (pool : Pool) (at : ℕ)
      → find_pool pools p ≡ some pool
      → i * pool.stride_bytes ≤ at
      → at < i * pool.stride_bytes + pool.stride_bytes
      → m'.payloads p at ≡ m.payloads p at

abbrev pub commit_of : Memory → ℕ → ℕ
commit_of m i = (m.slots i).seq_commit

-- What a store may do at `i`: it raises the sequence word, or it changes nothing, or the word is
-- even and stays.
abbrev pub Move : List Pool → ℕ → Memory → Memory → Type 0
Move pools i m m' =
    (commit_of m i < commit_of m' i)
    ⊎ (Same pools i m m' ⊎ ((commit_of m i % 2 ≡ 0) × (commit_of m' i ≡ commit_of m i)))

module _ {T : Type 0} (codec : Codec T) (ring : Ring) (frames : ℕ → Frame T) where
  -- The next store; where none is left, the next call of `tp_producer_offer_frame`, with the frame
  -- `frames n` for the number `n`.
  unfoldable pub step : State → State
  step s = elim s.pending [
    | [] ↦
        let offered = offer_frame codec ring s.next_seq (frames s.next_seq) in
        record { memory = s.memory; next_seq = offered.0; pending = offered.1 }
    | ◌∷◌ w ws ↦ record { memory = write w s.memory; next_seq = s.next_seq; pending = ws }
  ]

  unfoldable pub run : ℕ → State → State
  run zero s = s
  run (suc t) s = step (run t s)

  -- The slot that number `k` takes.
  abbrev pub index_of : ℕ → ℕ
  index_of k = header_index ring.header_nslots k

  -- The slot `i` and its payload hold frame `k`.
  pub record Shows (k i : ℕ) (m : Memory) : Type 0 where
    pub index : i ≡ index_of k
    pub len : (m.slots i).values_len_bytes ≡ length (frames k).payload
    pub payload_slot : (m.slots i).payload_slot ≡ i
    pub timestamp : (m.slots i).timestamp_ns ≡ slot_timestamp (frames k)
    pub version : (m.slots i).meta_version ≡ (frames k).meta_version
    pub tensor :
        (x : T) × ((codec.prepare (frames k).tensor ≡ some x)
          × (codec.encode x ≡ some (m.slots i).header_bytes))
    pub pool : Pool
    pub found : find_pool ring.pools (m.slots i).pool_id ≡ some pool
    pub fits : length (frames k).payload ≤ pool.stride_bytes
    pub bytes :
        load_bytes
          (i * pool.stride_bytes)
          (length (frames k).payload)
          (m.payloads (m.slots i).pool_id)
        ≡ (frames k).payload

  pub Shows-Same : (k i : ℕ) (m m' : Memory) → Same ring.pools i m m' → Shows k i m → Shows k i m'
  Shows-Same k i m m' same h = record {
    index = h.index;
    len = rw (same.slot) h.len;
    payload_slot = rw (same.slot) h.payload_slot;
    timestamp = rw (same.slot) h.timestamp;
    version = rw (same.slot) h.version;
    tensor = rw (same.slot) h.tensor;
    pool = h.pool;
    found = rw (same.slot) h.found;
    fits = h.fits;
    bytes = rw (same.slot) (
        load_bytes_same (i * h.pool.stride_bytes) (length (frames k).payload)
          (m'.payloads (m.slots i).pool_id) (m.payloads (m.slots i).pool_id)
          (λ at low high.
            same.payload (m.slots i).pool_id h.pool at h.found low (omega (arith, high, h.fits)))
        ∙ h.bytes);
  }

  -- What a store needs, in the publication of number `k`: the mark comes first, then all else while
  -- the word is even, and the commit when the slot holds the frame.
  unfoldable pub Ok : ℕ → Memory → Write → Type 0
  Ok k m (mark i v) =
      (i ≡ index_of k)
      × (((v ≡ k * 2) × (commit_of m i ≤ k * 2))
          ⊎ ((v ≡ k * 2 + 1) × (commit_of m i ≡ k * 2) × Shows k i m))
  Ok k m (copy p start bytes) =
      (pool : Pool) × ((find_pool ring.pools p ≡ some pool)
        × (start ≡ index_of k * pool.stride_bytes)
        × (length bytes ≤ pool.stride_bytes)
        × (commit_of m (index_of k) ≡ k * 2))
  Ok k m (fields i len p t v) = (i ≡ index_of k) × (commit_of m i ≡ k * 2)
  Ok k m (header i bytes) = (i ≡ index_of k) × (commit_of m i ≡ k * 2)

  unfoldable pub Safe : ℕ → Memory → List Write → Type 0
  Safe k m [] = Unit
  Safe k m (w ∷ ws) = Ok k m w × Safe k (write w m) ws

  copy_outside :
      (p start : ℕ) (bytes : List ℕ) (m : Memory) (q at : ℕ)
      → (q ≡ p → (at < start) ⊎ (start + length bytes ≤ at))
      → (write (copy p start bytes) m).payloads q at ≡ m.payloads q at
  unfolding write
  copy_outside p start bytes m q at out = elim (Bool-cases (q == p)) [
    | inr other ↦ rw other refl
    | inl same ↦
        rw same (store_bytes_outside start bytes (m.payloads q) at (out (ground (arith, same))))
  ]

  pub write-Move : (k i : ℕ) (m : Memory) (w : Write) → Ok k m w → Move ring.pools i m (write w m)
  unfolding Ok write write_slot
  write-Move k i m (mark j v) h = elim (Bool-cases (i == j)) [
    | inr other ↦
        inr (inl (record { slot = ground arith; payload = λ p pool at found low high. refl }))
    | inl here ↦ ground arith
  ]
  write-Move k i m (copy p start bytes) (pool, (found, is, fits, even)) =
      elim (Bool-cases (i == index_of k)) [
        | inl here ↦ inr (inr (ground (arith, here, even), refl))
        | inr other ↦ inr (
            inl (record {
              slot = refl;
              payload = λ q pool' at found' low high. copy_outside p start bytes m q at λ same.
                  let one : pool' ≡ pool =
                    some_cancel (sym found' ∙ ap (find_pool ring.pools) same ∙ found) in
                  subst (λ (n : ℕ). (at < n) ⊎ (n + length bytes ≤ at)) (sym is)
                    (slots_apart pool.stride_bytes i (index_of k) at (length bytes)
                      (ground (arith, other))
                      (subst (λ (x : Pool). i * x.stride_bytes ≤ at) one low)
                      (subst (λ (x : Pool). at < i * x.stride_bytes + x.stride_bytes) one high)
                      fits);
            }))
      ]
  write-Move k i m (fields j len p t v) h = elim (Bool-cases (i == j)) [
    | inr other ↦
        inr (inl (record { slot = ground arith; payload = λ p pool at found low high. refl }))
    | inl here ↦ ground arith
  ]
  write-Move k i m (header j bytes) h = elim (Bool-cases (i == j)) [
    | inr other ↦
        inr (inl (record { slot = ground arith; payload = λ p pool at found low high. refl }))
    | inl here ↦ ground arith
  ]

  -- No word is ahead of the numbers, an odd word stands on its frame, and what is left of a
  -- publication is safe to do.
  pub record Inv (s : State) : Type 0 where
    pub bound : (i : ℕ) → commit_of s.memory i ≤ s.next_seq * 2
    pub shown : (i k : ℕ) → commit_of s.memory i ≡ k * 2 + 1 → Shows k i s.memory
    pub flight : (s.pending ≡ []) ⊎ ((k : ℕ) × ((s.next_seq ≡ suc k) × Safe k s.memory s.pending))
