-- ===== src/Progress/Ring.antt =====
-- How long a poller of progress messages remembers a frame without a consumer
-- (src/client/tp_progress_poller.c).
use tensor_pool_c.Common.{
  ℕ, suc, ◌+◌, ◌%◌, ◌<◌, ◌≤◌, ◌≡◌, ◌≢◌, ◌⊎◌, inl, inr, refl, ap, ◌∙◌, Bool, true, false, ◌&&◌, none,
  some, List, [], ◌∷◌, arith, length, length-set, get_elem?, get_elem?-set_self, get_elem?-set_ne,
  ltb, find_first, All, Bool-cases, Option-cases,
}
use tensor_pool_c.Progress.Poller.{
  FrameProgress, Entry, Poller, is_for, entry_of, validate_ring, enlarge, validate, Message, handle,
  handle_all,
}
use tensor_pool_c.Progress.Entries.{
  get_elem?-lt, Safe, set-Safe, length-update_first, update_first_keeps, find_first_finds,
  find_first-Safe, advance-Safe, find_first-none-Safe,
}
use tensor_pool_c.Progress.Turns.{before_turn, next_turn, full_turn}

-- The poller has an entry for the frame of `v`, and `turns` new frames do not take it.
record Remembers (v : FrameProgress) (capacity turns : ℕ) (p : Poller) : Type 0 where
  no_consumer : p.header_nslots ≡ 0
  size : length p.tracker ≡ capacity
  in_range : p.tracker_cursor < capacity
  safe : All (Safe v) p.tracker
  j : ℕ
  e : Entry
  at : get_elem? p.tracker j ≡ some e
  own : is_for v e ≡ true
  turn : turns ≤ before_turn capacity p.tracker_cursor j

module _ (v : FrameProgress) (capacity turns : ℕ) (p : Poller)
    (r : Remembers v capacity (suc turns) p) where
  fewer_turns : Remembers v capacity turns p
  fewer_turns = record {
    no_consumer = r.no_consumer;
    size = r.size;
    in_range = r.in_range;
    safe = r.safe;
    j = r.j;
    e = r.e;
    at = r.at;
    own = r.own;
    turn = omega (arith, r.turn);
  }

  after_turn :
      ((p.tracker_cursor + 1) % length p.tracker < capacity)
      × (turns ≤ before_turn capacity ((p.tracker_cursor + 1) % length p.tracker) r.j)
      × (p.tracker_cursor ≢ r.j)
  after_turn = rw r.size (
      next_turn capacity p.tracker_cursor r.j turns r.in_range
        (omega (arith, get_elem?-lt p.tracker r.j r.e r.at, r.size)) r.turn)

  -- An update whose frame has no entry is not for the frame of `v`.
  not_same :
      (w : FrameProgress) → find_first (is_for w) p.tracker ≡ none → is_for v (entry_of w) ≡ false
  not_same w new = elim (Bool-cases (is_for v (entry_of w))) [
    | inl same ↦
        absurd (find_first_finds w p.tracker r.j r.e r.at (ground (arith, same, r.own)) new)
    | inr other ↦ other
  ]

  validate_ring-Remembers :
      (valid : Bool) (w : FrameProgress) → Remembers v capacity turns (validate_ring valid p w).1
  unfolding validate_ring
  validate_ring-Remembers valid w = elim (Option-cases (find_first (is_for w) p.tracker)) [
    | inl new ↦
        rw (new, validate_ring)
          (elim (Bool-cases valid) [
            | inl agreed ↦ rw agreed (record {
              no_consumer = r.no_consumer;
              size = length-set p.tracker p.tracker_cursor (entry_of w) ∙ r.size;
              in_range = after_turn.0;
              safe =
                  set-Safe v p.tracker p.tracker_cursor (entry_of w) r.safe (inl (not_same w new));
              j = r.j;
              e = r.e;
              at = get_elem?-set_ne p.tracker p.tracker_cursor r.j (entry_of w) after_turn.2 ∙ r.at;
              own = r.own;
              turn = after_turn.1;
            })
            | inr refused ↦ rw refused fewer_turns
          ])
    | inr (e, found) ↦
        rw (found, validate_ring)
          (elim (Bool-cases (ltb w.payload_bytes_filled e.last_bytes)) [
            | inl back ↦ rw back fewer_turns
            | inr on ↦ elim (Bool-cases valid) [
              | inl agreed ↦
                  let (e', (at', own')) = update_first_keeps v w p.tracker r.j r.e r.at r.own in
                  rw (on, agreed)
                    (record {
                      no_consumer = r.no_consumer;
                      size = length-update_first w p.tracker ∙ r.size;
                      in_range = r.in_range;
                      safe = advance-Safe v w p.tracker e r.safe found (ground (arith, on));
                      j = r.j;
                      e = e';
                      at = at';
                      own = own';
                      turn = omega (arith, r.turn);
                    })
              | inr refused ↦ rw (on, refused) fewer_turns
            ]
          ])
  ]

-- Without a consumer a validation is refused for its length, or is one of the ring.
validate-ring :
    (memory valid : Bool) (p : Poller) (w : FrameProgress)
    → p.header_nslots ≡ 0
    → p.tracker_cursor < length p.tracker
    → (validate memory valid p w ≡ (false, p))
      ⊎ (validate memory valid p w ≡ validate_ring valid p w)
unfolding validate enlarge
validate-ring memory valid p w none_set in_range =
    elim (Bool-cases
      (ltb 0 p.max_payload_bytes && ltb p.max_payload_bytes w.payload_bytes_filled)) [
        | inl long ↦ inl (ground (arith, long))
        | inr fits ↦ inr (ground (arith, fits, none_set, in_range))
      ]

handle_all-Remembers :
    (v : FrameProgress) (capacity : ℕ) (messages : List Message) (p : Poller)
    → Remembers v capacity (length messages) p
    → Remembers v capacity 0 (handle_all p messages)
unfolding handle_all handle
handle_all-Remembers v capacity [] p r = r
handle_all-Remembers v capacity (m ∷ messages) p r =
    handle_all-Remembers v capacity messages _
      (elim (validate-ring m.memory m.valid p m.progress r.no_consumer
        (omega (arith, r.in_range, r.size))) [
          | inl e ↦ rw e (fewer_turns v capacity (length messages) p r)
          | inr e ↦
              rw e (validate_ring-Remembers v capacity (length messages) p r m.valid m.progress)
        ])

-- Once a new frame is accepted.
accepted-Remembers :
    (v : FrameProgress) (memory valid : Bool) (p : Poller) (turns : ℕ)
    → p.header_nslots ≡ 0
    → p.tracker_cursor < length p.tracker
    → find_first (is_for v) p.tracker ≡ none
    → (validate memory valid p v).0 ≡ true
    → suc turns ≤ length p.tracker
    → Remembers v (length p.tracker) turns (validate memory valid p v).1
unfolding validate_ring
accepted-Remembers v memory valid p turns none_set in_range new accepted few =
    elim (validate-ring memory valid p v none_set in_range) [
      | inl e ↦ absurd (cc (e, accepted))
      | inr e ↦
          rw (e, validate_ring, new)
            (elim (Bool-cases valid) [
              | inl agreed ↦ rw agreed (record {
                no_consumer = none_set;
                size = length-set p.tracker p.tracker_cursor (entry_of v);
                in_range = (full_turn (length p.tracker) p.tracker_cursor turns in_range few).0;
                safe =
                    set-Safe v p.tracker p.tracker_cursor (entry_of v)
                      (find_first-none-Safe v p.tracker new) (inr (omega arith));
                j = p.tracker_cursor;
                e = entry_of v;
                at = get_elem?-set_self p.tracker p.tracker_cursor (entry_of v) in_range;
                own = ground arith;
                turn = (full_turn (length p.tracker) p.tracker_cursor turns in_range few).1;
              })
              | inr refused ↦ absurd (refused_all e refused)
            ])
    ]
  where
    refused_all : validate memory valid p v ≡ validate_ring valid p v → valid ≢ false
    refused_all e refused = unfold validate_ring in ground (arith, e, refused, new, accepted)

refuses :
    (v u : FrameProgress) (memory valid : Bool) (capacity : ℕ) (p : Poller)
    → Remembers v capacity 0 p
    → u.stream_id ≡ v.stream_id
    → u.epoch ≡ v.epoch
    → u.seq ≡ v.seq
    → u.payload_bytes_filled < v.payload_bytes_filled
    → (validate memory valid p u).0 ≡ false
refuses v u memory valid capacity p r same_stream same_epoch same_seq less =
    elim (validate-ring memory valid p u r.no_consumer (omega (arith, r.in_range, r.size))) [
      | inl e ↦ ap (λ o. o.0) e
      | inr e ↦ ap (λ o. o.0) e ∙ back
    ]
  where
    same_frame : (f : Entry) → is_for u f ≡ is_for v f
    same_frame f = rw (same_stream, same_epoch, same_seq) refl

    back : (validate_ring valid p u).0 ≡ false
    back =
        unfold validate_ring in
        elim (Option-cases (find_first (is_for u) p.tracker)) [
          | inl none_found ↦
              absurd (find_first_finds u p.tracker r.j r.e r.at (same_frame r.e ∙ r.own) none_found)
          | inr (e, found) ↦
              let (own, safe) = find_first-Safe v u p.tracker e r.safe found in
              ground (arith, found, own, safe, same_frame e)
        ]

-- The poller forgets no frame early. Without a consumer, and its cursor in the tracker: once an
-- update for a frame that has no entry is accepted, then after any messages, fewer than the tracker
-- has entries, whatever they say and whatever the validator answers, an update for the same frame
-- with fewer bytes is refused.
pub refuses_fewer_bytes :
    (p : Poller) (v u : FrameProgress) (messages : List Message)
    (memory memory' valid valid' : Bool)
    → p.header_nslots ≡ 0
    → p.tracker_cursor < length p.tracker
    → find_first (is_for v) p.tracker ≡ none
    → (validate memory valid p v).0 ≡ true
    → length messages < length p.tracker
    → (u.stream_id ≡ v.stream_id) × (u.epoch ≡ v.epoch) × (u.seq ≡ v.seq)
    → u.payload_bytes_filled < v.payload_bytes_filled
    → (validate memory' valid' (handle_all (validate memory valid p v).1 messages) u).0 ≡ false
refuses_fewer_bytes p v u messages memory memory' valid valid' none_set in_range new accepted few
      same less =
    refuses v u memory' valid' (length p.tracker) _
      (handle_all-Remembers v (length p.tracker) messages _ (
        accepted-Remembers v memory valid p (length messages) none_set in_range new accepted
          (omega (arith, few))))
      same.0 same.1 same.2 less
