-- ===== src/Progress/Direct.antt =====
-- How long a poller of progress messages remembers a frame with a consumer
-- (src/client/tp_progress_poller.c).
use Prim.Native.Nat.{bit_and}
use tensor_pool_c.Common.{
  ℕ, ◌-◌, ◌<◌, ◌≤◌, ◌≡◌, ◌≢◌, ◌⊎◌, inl, inr, refl, sym, ap, ◌∙◌, Bool, true, false, ◌&&◌, some,
  List, [], ◌∷◌, arith, length, length-set, get_elem?, get_elem?-set_self, get_elem?-set_ne, set,
  ltb, All, Bool-cases, Option-cases, some_cancel,
}
use tensor_pool_c.Progress.Poller.{
  FrameProgress, Entry, Poller, is_for, entry_of, advance, validate_direct, slot_index, enlarge,
  validate, Message, handle, handle_all,
}
use tensor_pool_c.Progress.Entries.{get_elem?-lt}

-- The slot of `v` has an entry for its frame, with at least its bytes.
record Remembers (v : FrameProgress) (p : Poller) : Type 0 where
  consumer : 0 < p.header_nslots
  size : p.header_nslots ≤ length p.tracker
  e : Entry
  at : get_elem? p.tracker (slot_index p v) ≡ some e
  own : is_for v e ≡ true
  up : v.payload_bytes_filled ≤ e.last_bytes

abbrev pub SameFrame : FrameProgress → FrameProgress → Type 0
SameFrame u v = (u.stream_id ≡ v.stream_id) × (u.epoch ≡ v.epoch) × (u.seq ≡ v.seq)

-- With a consumer a validation is refused for its length, or is one of the header slot.
validate-direct :
    (memory valid : Bool) (p : Poller) (w : FrameProgress)
    → 0 < p.header_nslots
    → p.header_nslots ≤ length p.tracker
    → (validate memory valid p w ≡ (false, p))
      ⊎ (validate memory valid p w ≡ validate_direct valid p w)
unfolding validate enlarge
validate-direct memory valid p w consumer size =
    elim (Bool-cases
      (ltb 0 p.max_payload_bytes && ltb p.max_payload_bytes w.payload_bytes_filled)) [
        | inl long ↦ inl (ground (arith, long))
        | inr fits ↦ inr (ground (arith, fits, consumer, size))
      ]

-- What a validation in a header slot does.
abbrev Direct : Poller → FrameProgress → Bool × Poller → Type 0
Direct p w out =
    (out ≡ (false, p))
    ⊎ ((e : Entry) × ((get_elem? p.tracker (slot_index p w) ≡ some e)
          × ((is_for w e ≡ false) ⊎ (e.last_bytes ≤ w.payload_bytes_filled))
          × ((e' : Entry) × ((is_for w e' ≡ true)
                × (e'.last_bytes ≡ w.payload_bytes_filled)
                × (out ≡ (true, record p { tracker = set p.tracker (slot_index p w) e' }))))))

validate_direct-Direct :
    (valid : Bool) (p : Poller) (w : FrameProgress) → Direct p w (validate_direct valid p w)
unfolding validate_direct
validate_direct-Direct valid p w = elim (Bool-cases (ltb (length p.tracker) p.header_nslots)) [
  | inl small ↦ inl (ground (arith, small))
  | inr enough ↦ elim (Option-cases (get_elem? p.tracker (slot_index p w))) [
    | inl out ↦ inl (ground (arith, enough, out))
    | inr (e, at) ↦ elim (Bool-cases valid) [
      | inl agreed ↦ elim (Bool-cases (is_for w e)) [
        | inl same ↦ elim (Bool-cases (ltb w.payload_bytes_filled e.last_bytes)) [
          | inl back ↦ inl (ground (arith, enough, at, same, back))
          | inr on ↦ inr (
            e,
            (
              at,
              inr (ground (arith, on)),
              (advance w e, (same, refl, ground (arith, enough, at, same, on, agreed))),
            ),
          )
        ]
        | inr other ↦ inr (
          e,
          (
            at,
            inl other,
            (entry_of w, (ground arith, refl, ground (arith, enough, at, other, agreed))),
          ),
        )
      ]
      | inr refused ↦ elim (Bool-cases (is_for w e)) [
        | inl same ↦ inl (ground (arith, enough, at, same, refused))
        | inr other ↦ inl (ground (arith, enough, at, other, refused))
      ]
    ]
  ]
]

same_slot : (p : Poller) (u v : FrameProgress) → SameFrame u v → slot_index p u ≡ slot_index p v
same_slot p u v same = ap (λ (n : ℕ). bit_and n (p.header_nslots - 1)) same.2

same_entry : (u v : FrameProgress) (e : Entry) → SameFrame u v → is_for u e ≡ is_for v e
same_entry u v e same = rw (same.0, same.1, same.2) refl

Direct-Remembers :
    (v w : FrameProgress) (p : Poller) (out : Bool × Poller)
    → Remembers v p
    → SameFrame w v ⊎ (slot_index p w ≢ slot_index p v)
    → Direct p w out
    → Remembers v out.1
Direct-Remembers v w p out r apart (inl e) = rw e r
Direct-Remembers v w p out r (inl same) (inr (e, (at, cases, (e', (own, bytes, is))))) =
    rw is (record {
      consumer = r.consumer;
      size = omega (arith, r.size, length-set p.tracker (slot_index p w) e');
      e = e';
      at =
          ap (get_elem? (set p.tracker (slot_index p w) e')) (sym (same_slot p w v same))
          ∙ get_elem?-set_self p.tracker (slot_index p w) e'
              (get_elem?-lt p.tracker (slot_index p w) e at);
      own = sym (same_entry w v e' same) ∙ own;
      up = omega (arith, bytes, further);
    })
  where
    here : r.e ≡ e
    here = some_cancel (sym r.at ∙ ap (get_elem? p.tracker) (sym (same_slot p w v same)) ∙ at)

    further : v.payload_bytes_filled ≤ w.payload_bytes_filled
    further = elim cases [
      | inl other ↦ absurd (cc (other, same_entry w v e same, ap (is_for v) here, r.own))
      | inr le ↦ omega (arith, le, r.up, ap (λ x. x.last_bytes) here)
    ]
Direct-Remembers v w p out r (inr apart) (inr (e, (at, cases, (e', (own, bytes, is))))) =
    rw is (record {
      consumer = r.consumer;
      size = omega (arith, r.size, length-set p.tracker (slot_index p w) e');
      e = r.e;
      at = get_elem?-set_ne p.tracker (slot_index p w) (slot_index p v) e' apart ∙ r.at;
      own = r.own;
      up = r.up;
    })

validate-Direct :
    (memory valid : Bool) (p : Poller) (w : FrameProgress)
    → 0 < p.header_nslots
    → p.header_nslots ≤ length p.tracker
    → Direct p w (validate memory valid p w)
validate-Direct memory valid p w consumer size =
    elim (validate-direct memory valid p w consumer size) [
      | inl long ↦ inl long
      | inr e ↦ rw e (validate_direct-Direct valid p w)
    ]

-- The messages between are for the same frame, or for frames of other header slots.
abbrev pub Between : ℕ → FrameProgress → Message → Type 0
Between header_nslots v m =
    SameFrame m.progress v
    ⊎ (bit_and m.progress.seq (header_nslots - 1) ≢ bit_and v.seq (header_nslots - 1))

validate-keeps_nslots :
    (memory valid : Bool) (p : Poller) (w : FrameProgress)
    → 0 < p.header_nslots
    → p.header_nslots ≤ length p.tracker
    → (validate memory valid p w).1.header_nslots ≡ p.header_nslots
validate-keeps_nslots memory valid p w consumer size =
    elim (validate-Direct memory valid p w consumer size) [
      | inl e ↦ ap (λ o. o.1.header_nslots) e
      | inr (e, (at, cases, (e', (own, bytes, is)))) ↦ ap (λ o. o.1.header_nslots) is
    ]

handle_all-Remembers :
    (v : FrameProgress) (messages : List Message) (p : Poller)
    → Remembers v p
    → All (Between p.header_nslots v) messages
    → Remembers v (handle_all p messages)
unfolding handle_all handle
handle_all-Remembers v [] p r between = r
handle_all-Remembers v (m ∷ messages) p r between =
    handle_all-Remembers v messages _
      (Direct-Remembers v m.progress p _ r between.0
        (validate-Direct m.memory m.valid p m.progress r.consumer r.size))
      (rw (validate-keeps_nslots m.memory m.valid p m.progress r.consumer r.size) between.1)

-- With a consumer, and an entry for each of its header slots: once an update for a frame is
-- accepted, then as long as no message is for another frame of the same header slot, whatever the
-- messages say and whatever the validator answers, an update for the frame with fewer bytes is
-- refused.
pub refuses_in_slot :
    (p : Poller) (v u : FrameProgress) (messages : List Message)
    (memory memory' valid valid' : Bool)
    → 0 < p.header_nslots
    → p.header_nslots ≤ length p.tracker
    → (validate memory valid p v).0 ≡ true
    → All (Between p.header_nslots v) messages
    → SameFrame u v
    → u.payload_bytes_filled < v.payload_bytes_filled
    → (validate memory' valid' (handle_all (validate memory valid p v).1 messages) u).0 ≡ false
refuses_in_slot p v u messages memory memory' valid valid' consumer size accepted between same
      less =
    refused (handle_all (validate memory valid p v).1 messages) (
      handle_all-Remembers v messages _ remembered
        (rw (validate-keeps_nslots memory valid p v consumer size) between))
  where
    remembered : Remembers v (validate memory valid p v).1
    remembered = elim (validate-Direct memory valid p v consumer size) [
      | inl e ↦ absurd (cc (accepted, ap (λ o. o.0) e))
      | inr (e, (at, cases, (e', (own, bytes, is)))) ↦ rw is (record {
        consumer = consumer;
        size = omega (arith, size, length-set p.tracker (slot_index p v) e');
        e = e';
        at =
            get_elem?-set_self p.tracker (slot_index p v) e'
              (get_elem?-lt p.tracker (slot_index p v) e at);
        own = own;
        up = omega (arith, bytes);
      })
    ]

    refused : (q : Poller) → Remembers v q → (validate memory' valid' q u).0 ≡ false
    refused q r = elim (validate-Direct memory' valid' q u r.consumer r.size) [
      | inl e ↦ ap (λ o. o.0) e
      | inr (e, (at, cases, (e', (own, bytes, is)))) ↦
          let here : r.e ≡ e =
            some_cancel (sym r.at ∙ ap (get_elem? q.tracker) (sym (same_slot q u v same)) ∙ at) in
          elim cases [
            | inl other ↦ absurd (cc (other, same_entry u v e same, ap (is_for v) here, r.own))
            | inr le ↦ absurd (omega (arith, le, less, r.up, ap (λ x. x.last_bytes) here))
          ]
    ]
