-- ===== src/CommandQueue/Accesses.antt =====
-- What an access of a thread to a queue of src/common/tp_mpsc_queue.c does to its consistency.
use tensor_pool_c.Common.{
  ℕ, ◌+◌, ◌%◌, ◌^◌, ◌<◌, ◌≤◌, ◌≡◌, ◌≢◌, ◌⊎◌, inl, inr, refl, sym, ap, ◌∙◌, subst, none, some, List,
  [], ◌∷◌, ◌++◌, arith, get_elem?, ◌==◌, Bool-cases, some_cancel,
}
use tensor_pool_c.CommandQueue.Ring.{Slot, put_slot}
use native.Mathlib.Decide.{dec_lt}
use native.Mathlib.Nat.{add-mod_right}
use tensor_pool_c.CommandQueue.Writes.{put_slot_self, put_slot-other}
use tensor_pool_c.CommandQueue.Slots.{apart}
use tensor_pool_c.CommandQueue.Threads.{
  Producer, copies, Consumer, waits, World, set_producer, moves_to,
}
use tensor_pool_c.CommandQueue.Interleaved.{
  slot_at, holding, Claims, Offers, Ready, Polls, Consistent, holding-Claims, Offers-keep,
  Polls-keep, set_producer-All, set_producer-alone, get_elem?-append, get_elem?-behind, next_rest,
  append_assoc, length-snoc,
}

module _ (k : ℕ) (w : World) (freed : ℕ) (c : Consistent k w freed) where
  -- A thread goes on without a claim.
  pub offer_local :
      (i : ℕ) (p : Producer)
      → Offers k freed w.tail w.slots w.claimed p
      → holding p ≡ none
      → Consistent k (moves_to i p w) freed
  offer_local i p new no_claim = record {
    two_slots = c.two_slots;
    mask = c.mask;
    tail = c.tail;
    low = c.low;
    high = c.high;
    rest = c.rest;
    order = c.order;
    count = c.count;
    used = c.used;
    free = c.free;
    producers =
        set_producer-All (Offers k freed w.tail w.slots w.claimed) i p w.producers new
          (λ j differ. c.producers j);
    consumer = c.consumer;
    alone = set_producer-alone i p w.producers c.alone (λ a q ha hb. cc);
  }

  -- The consumer goes on.
  pub poll_local :
      (head : ℕ) (consumer : Consumer)
      → Polls k freed head w.tail w.slots w.claimed consumer
      → Consistent k (record w { head = head; consumer = consumer }) freed
  poll_local head consumer new = record {
    two_slots = c.two_slots;
    mask = c.mask;
    tail = c.tail;
    low = c.low;
    high = c.high;
    rest = c.rest;
    order = c.order;
    count = c.count;
    used = c.used;
    free = c.free;
    producers = c.producers;
    consumer = new;
    alone = c.alone;
  }

  held_below : (a q : ℕ) → holding (w.producers a) ≡ some q → w.tail ≢ q
  held_below a q h same =
      let claim =
        (holding-Claims k freed w.tail w.slots w.claimed (w.producers a) q (c.producers a) h).1 in
      omega (arith, claim.high, same)

  -- A thread claims the position at the tail.
  pub offer_claims :
      (i : ℕ) (x : List ℕ)
      → w.tail < freed + 2 ^ k
      → Consistent k
          (record w {
            tail = w.tail + 1;
            producers = set_producer i (copies w.tail x) w.producers;
            claimed = w.claimed ++ (x ∷ []);
          })
          freed
  offer_claims i x room = record {
    two_slots = c.two_slots;
    mask = c.mask;
    tail = omega (arith, c.tail, length-snoc w.claimed x);
    low = omega (arith, c.low);
    high = omega arith;
    rest = c.rest ++ (x ∷ []);
    order = ap (λ xs. xs ++ (x ∷ [])) c.order ∙ append_assoc w.received c.rest (x ∷ []);
    count = c.count;
    used = λ p from below. elim (Bool-cases (p == w.tail)) [
      | inl last ↦ inl (c.free p (ground arith) (ground arith))
      | inr before ↦ elim (c.used p from (ground (arith, below))) [
        | inl n ↦ inl n
        | inr (n, e) ↦ inr (n, get_elem?-append w.claimed (x ∷ []) p _ e)
      ]
    ];
    free = λ p from below. c.free p (omega arith) below;
    producers =
        set_producer-All (Offers k freed (w.tail + 1) w.slots (w.claimed ++ (x ∷ []))) i
          (copies w.tail x) w.producers own_claim
          (λ j differ.
            Offers-keep k freed freed w.tail (w.tail + 1) w.slots w.slots w.claimed
              (w.claimed ++ (x ∷ [])) (w.producers j) (omega arith) (omega arith)
              (λ pos y holds h. (
                record {
                  low = h.low;
                  high = omega (arith, h.high);
                  number = h.number;
                  own = get_elem?-append w.claimed (x ∷ []) pos y h.own;
                },
                refl,
              ))
              (c.producers j));
    consumer =
        Polls-keep k freed w.head w.tail (w.tail + 1) w.slots w.slots w.claimed
          (w.claimed ++ (x ∷ [])) w.consumer (omega arith) (λ n lt. refl)
          (λ y h. get_elem?-append w.claimed (x ∷ []) freed y h) c.consumer;
    alone =
        set_producer-alone i (copies w.tail x) w.producers c.alone
          (λ a q ha hb. absurd (held_below a q hb (some_cancel ha)));
  }
    where
      own_claim : Claims k freed (w.tail + 1) w.slots (w.claimed ++ (x ∷ [])) w.tail x
      own_claim = record {
        low = c.low;
        high = omega arith;
        number = c.free w.tail (omega arith) room;
        own =
            subst (λ n. get_elem? (w.claimed ++ (x ∷ [])) n ≡ some x) (sym c.tail)
              (get_elem?-behind w.claimed [] x);
      }

  -- A write to the slot of one position of the ring is not seen at another.
  other_slot :
      (p q : ℕ) (s : Slot)
      → freed ≤ p
      → p < freed + 2 ^ k
      → freed ≤ q
      → q < freed + 2 ^ k
      → q ≢ p
      → slot_at k (put_slot (p % 2 ^ k) s w.slots) q ≡ slot_at k w.slots q
  other_slot p q s p_low p_high q_low q_high differ =
      put_slot-other (p % 2 ^ k) (q % 2 ^ k) s w.slots (elim (dec_lt q p) [
        | yes before ↦ apart (2 ^ k) q p before (omega arith)
        | no after ↦
            λ same. apart (2 ^ k) p q (omega (arith, after, differ)) (omega arith) (sym same)
      ])

  -- A thread writes the slot that it has claimed.
  pub offer_writes :
      (i pos : ℕ) (x : List ℕ) (s : Slot) (p : Producer)
      → holding (w.producers i) ≡ some pos
      → Claims k freed w.tail w.slots w.claimed pos x
      → (s.sequence ≡ pos) ⊎ ((s.sequence ≡ pos + 1) × (s.data_bytes ≡ x))
      → Offers k freed w.tail (put_slot (pos % 2 ^ k) s w.slots) w.claimed p
      → ((q : ℕ) → holding p ≡ some q → q ≡ pos)
      → Consistent k
          (record w {
            slots = put_slot (pos % 2 ^ k) s w.slots;
            producers = set_producer i p w.producers;
          })
          freed
  offer_writes i pos x s p holds claim written new held = record {
    two_slots = c.two_slots;
    mask = c.mask;
    tail = c.tail;
    low = c.low;
    high = c.high;
    rest = c.rest;
    order = c.order;
    count = c.count;
    used = λ q from below. elim (Bool-cases (q == pos)) [
      | inl same ↦ subst Used (ground (arith, same)) own_slot
      | inr differ ↦
          rw (unseen q from (omega (arith, below, c.high)) (ground (arith, differ)))
            (c.used q from below)
    ];
    free = λ q from below.
        ap (λ t. t.sequence)
          (unseen q (omega (arith, c.low, from)) below (ground (arith, claim.high, from)))
        ∙ c.free q from below;
    producers =
        set_producer-All (Offers k freed w.tail (put_slot (pos % 2 ^ k) s w.slots) w.claimed) i p
          w.producers new
          (λ j differ.
            Offers-keep k freed freed w.tail w.tail w.slots _ w.claimed w.claimed (w.producers j)
              (omega arith) (omega arith)
              (λ q y other h.
                let same =
                  unseen q h.low (omega (arith, h.high, c.high))
                    (λ e. differ (c.alone j i pos (other ∙ ap some e) holds)) in
                (
                  record {
                    low = h.low;
                    high = h.high;
                    number = ap (λ t. t.sequence) same ∙ h.number;
                    own = h.own;
                  },
                  ap (λ t. t.data_bytes) same,
                ))
              (c.producers j));
    consumer =
        Polls-keep k freed w.head w.tail w.tail w.slots (put_slot (pos % 2 ^ k) s w.slots) w.claimed
          w.claimed w.consumer (omega arith)
          (λ n lt. unseen freed (omega arith) (omega (arith, lt, c.high)) (λ e.
            omega (arith, n, claim.number, ap (λ (m : ℕ). (slot_at k w.slots m).sequence) e, e)))
          (λ y h. h) c.consumer;
    alone =
        set_producer-alone i p w.producers c.alone
          (λ a q ha hb. c.alone a i pos (hb ∙ ap some (held q ha)) holds);
  }
    where
      Used : ℕ → Type 0
      Used q =
          ((slot_at k (put_slot (pos % 2 ^ k) s w.slots) q).sequence ≡ q)
          ⊎ (((slot_at k (put_slot (pos % 2 ^ k) s w.slots) q).sequence ≡ q + 1)
              × (get_elem? w.claimed q
                  ≡ some (slot_at k (put_slot (pos % 2 ^ k) s w.slots) q).data_bytes))

      own_slot : Used pos
      own_slot =
          rw (put_slot_self (pos % 2 ^ k) s w.slots)
            elim written [ inl n ↦ inl n | inr (n, e) ↦ inr (n, claim.own ∙ ap some (sym e)) ]

      unseen :
          (q : ℕ)
          → freed ≤ q
          → q < freed + 2 ^ k
          → q ≢ pos
          → slot_at k (put_slot (pos % 2 ^ k) s w.slots) q ≡ slot_at k w.slots q
      unseen q from below differ =
          other_slot pos q s claim.low (omega (arith, claim.high, c.high)) from below differ

  -- The consumer gives the first slot back, for the position a round later.
  pub poll_frees :
      (x : List ℕ)
      → w.head ≡ freed + 1
      → get_elem? w.claimed freed ≡ some x
      → Ready k freed w.tail w.slots
      → Consistent k
          (record w {
            slots =
                put_slot
                  (freed % 2 ^ k)
                  (record (w.slots (freed % 2 ^ k)) { sequence = freed + 2 ^ k })
                  w.slots;
            consumer = waits;
            received = w.received ++ (x ∷ []);
          })
          (freed + 1)
  poll_frees x head own ready = record {
    two_slots = c.two_slots;
    mask = c.mask;
    tail = c.tail;
    low = omega (arith, ready.0);
    high = omega (arith, c.high);
    rest = next.0;
    order =
        c.order ∙ ap (λ r. w.received ++ r) next.1 ∙ sym (append_assoc w.received (x ∷ []) next.0);
    count = length-snoc w.received x ∙ omega (arith, c.count);
    used = λ q from below.
        rw (unseen q (omega arith) (omega (arith, below, c.high)) (omega (arith, from)))
          (c.used q (omega arith) below);
    free = λ q from below. elim (Bool-cases (q == freed + 2 ^ k)) [
      | inl last ↦
          ap (λ (m : ℕ). (put_slot (freed % 2 ^ k) freed_slot w.slots m).sequence)
            (ap (λ (m : ℕ). m % 2 ^ k) {x = q} {y = freed + 2 ^ k} (ground (arith, last))
              ∙ add-mod_right freed (2 ^ k))
          ∙ ap (λ t. t.sequence) (put_slot_self (freed % 2 ^ k) freed_slot w.slots)
          ∙ ground (arith, last)
      | inr inside ↦
          ap (λ t. t.sequence)
            (unseen q (omega (arith, c.low, from)) (ground (arith, below, inside))
              (omega (arith, from, ready.0)))
          ∙ c.free q from (ground (arith, below, inside))
    ];
    producers = λ j.
        Offers-keep k freed (freed + 1) w.tail w.tail w.slots _ w.claimed w.claimed (w.producers j)
          (omega arith) (omega arith)
          (λ q y holds h.
            let same = unseen q h.low (omega (arith, h.high, c.high)) (later q h.number) in
            (
              record {
                low = omega (arith, h.low, later q h.number);
                high = h.high;
                number = ap (λ t. t.sequence) same ∙ h.number;
                own = h.own;
              },
              ap (λ t. t.data_bytes) same,
            ))
          (c.producers j);
    consumer = head;
    alone = c.alone;
  }
    where
      freed_slot : Slot
      freed_slot = record (w.slots (freed % 2 ^ k)) { sequence = freed + 2 ^ k }

      next : (rest : List (List ℕ)) × (c.rest ≡ x ∷ rest)
      next = next_rest w.received c.rest x (
          subst (λ (n : ℕ). get_elem? (w.received ++ c.rest) n ≡ some x) (sym c.count)
            (ap (λ xs. get_elem? xs freed) (sym c.order) ∙ own))

      unseen :
          (q : ℕ)
          → freed ≤ q
          → q < freed + 2 ^ k
          → q ≢ freed
          → slot_at k (put_slot (freed % 2 ^ k) freed_slot w.slots) q ≡ slot_at k w.slots q
      unseen q from below differ =
          other_slot freed q freed_slot (omega arith) (omega (arith, ready.0, c.high)) from below
            differ

      later : (q : ℕ) → (slot_at k w.slots q).sequence ≡ q → q ≢ freed
      later q n e = omega (arith, n, ready.1, ap (λ (m : ℕ). (slot_at k w.slots m).sequence) e, e)
