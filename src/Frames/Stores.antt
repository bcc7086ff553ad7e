-- ===== src/Frames/Stores.antt =====
-- What the stores of a producer keep: the invariant of the shared memory holds after each, and each
-- changes a slot as `Move` allows.
use tensor_pool_c.Common.{
  ℕ, suc, ◌*◌, ◌^◌, ◌<◌, ◌≤◌, ◌≡◌, inl, inr, refl, sym, ap, ◌∙◌, subst, none, some, List, [], ◌∷◌,
  arith, ◌==◌, ltb, ◌||◌, length, ◌+◌, Bool-cases, Option-cases, ==_refl,
}
use tensor_pool_c.Frames.Bytes.{
  IsAddressable, load_bytes-store_bytes, find_pool-All, payload_start_fits, header_index_bound,
}
use tensor_pool_c.Frames.Memory.{
  payload_start, store_bytes, load_bytes, Memory, Write, mark, copy, fields, header, write,
  write_slot,
}
use tensor_pool_c.Frames.Publish.{
  Ring, Codec, Frame, Pool, find_pool, find_pool_for_length, frame_writes, publish_frame,
  offer_frame,
}
use tensor_pool_c.Frames.Writer.{
  State, Move, commit_of, step, index_of, Shows, Shows-Same, Ok, Safe, write-Move, Inv,
}

module _ {T : Type 0} (codec : Codec T) (ring : Ring) (frames : ℕ → Frame T) where
  frame_writes-Safe :
      (k start pool_id : ℕ) (pool : Pool) (x : T) (m : Memory)
      → k < 2 ^ 62
      → commit_of m (index_of codec ring frames k) ≤ k * 2
      → codec.prepare (frames k).tensor ≡ some x
      → find_pool ring.pools pool_id ≡ some pool
      → start ≡ index_of codec ring frames k * pool.stride_bytes
      → length (frames k).payload ≤ pool.stride_bytes
      → Safe codec ring frames k m
          (frame_writes codec (index_of codec ring frames k) start k pool_id (frames k) x)
  unfolding Safe Ok frame_writes write write_slot
  frame_writes-Safe k start pool_id pool x m small low prepared found at fits =
      elim (Option-cases (codec.encode x)) [
        | inl e ↦ rw e (
          (refl, inl (ground arith, low)),
          ((pool, (found, at, fits, ground arith)), ((refl, ground arith), tt)),
        )
        | inr (bytes, e) ↦ rw e (
          (refl, inl (ground arith, low)),
          (
            (pool, (found, at, fits, ground arith)),
            (
              (refl, ground arith),
              (
                (refl, ground arith),
                (
                  (
                    refl,
                    inr (
                      ground arith,
                      ground arith,
                      record {
                        index = refl;
                        len = ground arith;
                        payload_slot = ground arith;
                        timestamp = ground arith;
                        version = ground arith;
                        tensor = (x, (prepared, ground (arith, e)));
                        pool = pool;
                        found = rw (==_refl (index_of codec ring frames k)) found;
                        fits = fits;
                        bytes =
                            rw (==_refl (index_of codec ring frames k), ==_refl pool_id)
                              (ap
                                  (λ (n : ℕ).
                                    load_bytes n (length (frames k).payload)
                                      (store_bytes start (frames k).payload (m.payloads pool_id)))
                                  {x = index_of codec ring frames k * pool.stride_bytes} {y = start}
                                  (sym at)
                                ∙ load_bytes-store_bytes start (frames k).payload
                                    (m.payloads pool_id));
                      },
                    ),
                  ),
                  tt,
                ),
              ),
            ),
          ),
        )
      ]

  publish_frame-Safe :
      (k pool_id : ℕ) (m : Memory)
      → IsAddressable ring
      → k < 2 ^ 62
      → commit_of m (index_of codec ring frames k) ≤ k * 2
      → Safe codec ring frames k m (publish_frame codec ring k (frames k) pool_id)
  unfolding publish_frame Safe
  publish_frame-Safe k pool_id m wide small low =
      elim (Bool-cases ((ring.header_nslots == 0) || (length ring.pools == 0))) [
        | inl none_there ↦ rw none_there tt
        | inr some_there ↦ rw some_there (elim (Option-cases (find_pool ring.pools pool_id)) [
          | inl e ↦ rw e tt
          | inr (pool, e) ↦
              rw e (elim (Bool-cases (ltb pool.stride_bytes (length (frames k).payload))) [
                | inl long ↦ rw long tt
                | inr fits ↦ rw fits (elim (Option-cases (codec.prepare (frames k).tensor)) [
                  | inl p ↦ rw p tt
                  | inr (x, p) ↦ rw p (
                      frame_writes-Safe k
                        (payload_start (index_of codec ring frames k) pool.stride_bytes) pool_id
                        pool x m small low p e
                        (payload_start_fits (index_of codec ring frames k) ring.header_nslots
                          pool.stride_bytes
                          (header_index_bound ring.header_nslots k (ground (arith, some_there)))
                          (find_pool-All (λ q. ring.header_nslots * q.stride_bytes ≤ 2 ^ 32)
                            ring.pools pool_id pool wide e))
                        (ground (arith, fits)))
                ])
              ])
        ])
      ]

  start-Inv :
      (s : State)
      → IsAddressable ring
      → Inv codec ring frames s
      → s.next_seq < 2 ^ 62
      → Inv codec ring frames (record {
        memory = s.memory;
        next_seq = (offer_frame codec ring s.next_seq (frames s.next_seq)).0;
        pending = (offer_frame codec ring s.next_seq (frames s.next_seq)).1;
      })
  unfolding offer_frame
  start-Inv s wide inv small =
      elim (Bool-cases ((ring.header_nslots == 0) || (length ring.pools == 0))) [
        | inl none_there ↦
            rw none_there (record { bound = inv.bound; shown = inv.shown; flight = inl refl })
        | inr some_there ↦
            rw some_there
              (elim (Option-cases
                (find_pool_for_length ring.pools (length (frames s.next_seq).payload) none)) [
                  | inl e ↦
                      rw e (record { bound = inv.bound; shown = inv.shown; flight = inl refl })
                  | inr (pool, e) ↦ rw e (record {
                    bound = λ i. ground (arith, inv.bound i);
                    shown = inv.shown;
                    flight = inr (
                      s.next_seq,
                      (
                        ground arith,
                        publish_frame-Safe s.next_seq pool.pool_id s.memory wide small
                            (inv.bound (index_of codec ring frames s.next_seq)),
                      ),
                    );
                  })
                ])
      ]

  write_bound :
      (k i : ℕ) (m : Memory) (w : Write)
      → Ok codec ring frames k m w
      → commit_of m i ≤ k * 2 + 2
      → commit_of (write w m) i ≤ k * 2 + 2
  unfolding Ok write write_slot
  write_bound k i m (mark j v) h low = ground arith
  write_bound k i m (copy p j bytes) h low = ground arith
  write_bound k i m (fields j len p t v) h low = ground arith
  write_bound k i m (header j bytes) h low = ground arith

  Shows-marked :
      (k i v : ℕ) (m : Memory)
      → Shows codec ring frames k i m
      → Shows codec ring frames k i (write (mark i v) m)
  unfolding write write_slot
  Shows-marked k i v m h = record {
    index = h.index;
    len = rw (==_refl i) h.len;
    payload_slot = rw (==_refl i) h.payload_slot;
    timestamp = rw (==_refl i) h.timestamp;
    version = rw (==_refl i) h.version;
    tensor = rw (==_refl i) h.tensor;
    pool = h.pool;
    found = rw (==_refl i) h.found;
    fits = h.fits;
    bytes = rw (==_refl i) h.bytes;
  }

  -- A store that raises a word to an odd number is the commit.
  commit_shown :
      (k i j : ℕ) (m : Memory) (w : Write)
      → Ok codec ring frames k m w
      → commit_of m i < commit_of (write w m) i
      → commit_of (write w m) i ≡ j * 2 + 1
      → Shows codec ring frames j i (write w m)
  unfolding Ok write write_slot
  commit_shown k i j m (mark i' v) ok up now = elim (Bool-cases (i == i')) [
    | inr other ↦ ground arith
    | inl here ↦ elim ok.1 [
      | inl first ↦ ground arith
      | inr (v_is, _, shows) ↦
          let same_i : i' ≡ i = ground arith in
          let same_k : k ≡ j = ground arith in
          subst (λ q. Shows codec ring frames q i (write (mark i' v) m)) same_k
            (subst (λ q. Shows codec ring frames k q (write (mark i' v) m)) same_i
              (Shows-marked k i' v m shows))
    ]
  ]
  commit_shown k i j m (copy p i' bytes) ok up now = ground arith
  commit_shown k i j m (fields i' len p t v) ok up now = ground arith
  commit_shown k i j m (header i' bytes) ok up now = ground arith

  write_shown :
      (k i j : ℕ) (m : Memory) (w : Write)
      → Ok codec ring frames k m w
      → (commit_of m i ≡ j * 2 + 1 → Shows codec ring frames j i m)
      → commit_of (write w m) i ≡ j * 2 + 1
      → Shows codec ring frames j i (write w m)
  write_shown k i j m w ok before now = elim (write-Move codec ring frames k i m w ok) [
    | inl up ↦ commit_shown k i j m w ok up now
    | inr stays ↦ elim stays [
      | inl same ↦
          Shows-Same codec ring frames j i m (write w m) same
            (before (ap (λ s. s.seq_commit) (sym same.slot) ∙ now))
      | inr (is_even, kept) ↦ absurd (omega arith)
    ]
  ]

  abbrev state : Memory → ℕ → List Write → State
  state m n ws = record { memory = m; next_seq = n; pending = ws }

  step-Inv_at :
      (m : Memory) (n : ℕ) (ws : List Write)
      → IsAddressable ring
      → Inv codec ring frames (state m n ws)
      → n < 2 ^ 62
      → Inv codec ring frames (step codec ring frames (state m n ws))
  unfolding step Safe
  step-Inv_at m n [] wide inv small = start-Inv (state m n []) wide inv small
  step-Inv_at m n (w ∷ ws) wide inv small = elim inv.flight [
    | inl nothing ↦ cc
    | inr (k, (n_is, (ok, safe))) ↦ record {
      bound = λ i. ground (arith, n_is, write_bound k i m w ok, inv.bound i);
      shown = λ i j. write_shown k i j m w ok (inv.shown i j);
      flight = inr (k, (n_is, safe));
    }
  ]

  pub step-Inv :
      (s : State)
      → IsAddressable ring
      → Inv codec ring frames s
      → s.next_seq < 2 ^ 62
      → Inv codec ring frames (step codec ring frames s)
  step-Inv s wide inv small = step-Inv_at s.memory s.next_seq s.pending wide inv small

  step-Move_at :
      (i : ℕ) (m : Memory) (n : ℕ) (ws : List Write)
      → Inv codec ring frames (state m n ws)
      → Move ring.pools i m (step codec ring frames (state m n ws)).memory
  unfolding step Safe
  step-Move_at i m n [] inv =
      inr (inl (record { slot = refl; payload = λ p pool at found low high. refl }))
  step-Move_at i m n (w ∷ ws) inv = elim inv.flight [
    | inl nothing ↦ cc
    | inr (k, (n_is, (ok, safe))) ↦ write-Move codec ring frames k i m w ok
  ]

  pub step-Move :
      (s : State) (i : ℕ)
      → Inv codec ring frames s
      → Move ring.pools i s.memory (step codec ring frames s).memory
  step-Move s i inv = step-Move_at i s.memory s.next_seq s.pending inv

  pub step-next_seq :
      (s : State) (t : ℕ)
      → t < 2 ^ 62
      → s.next_seq ≤ t
      → (step codec ring frames s).next_seq ≤ suc t
  unfolding step offer_frame
  step-next_seq s t small h = ground arith
