-- ===== src/CommandQueue/Steps.antt =====
-- A step of a thread in a queue of src/common/tp_mpsc_queue.c keeps the queue consistent.
use native.Mathlib.Nat.{add-mod_right, one-le-pow, pow-le-pow_right}
use tensor_pool_c.Common.{
  ℕ, ◌+◌, ◌%◌, ◌^◌, ◌<◌, ◌≤◌, ◌≡◌, inl, inr, refl, sym, ap, ◌∙◌, subst, Bool, not, ◌&&◌, none, some,
  [], ◌∷◌, ◌++◌, arith, get_elem?, ◌==◌, Bool-cases, some_cancel,
}
use tensor_pool_c.Common.Words.{add64}
use tensor_pool_c.CommandQueue.Ring.{is_before, put_slot}
use tensor_pool_c.CommandQueue.Threads.{
  Producer, idle, loads, swaps, copies, stores, Consumer, waits, looks, takes, reads, frees, World,
  Move, calls_offer, offers, calls_poll, polls, position, set_producer, moves_to, offer_step,
  poll_step, call_offer, call_poll, step,
}
use tensor_pool_c.CommandQueue.Interleaved.{
  slot_at, holding, Claims, Offers, Ready, Polls, Consistent, position-slot,
}
use tensor_pool_c.CommandQueue.Accesses.{
  offer_local, poll_local, offer_claims, offer_writes, poll_frees,
}
use tensor_pool_c.CommandQueue.Writes.{put_slot_self}
use tensor_pool_c.CommandQueue.Slots.{pow_two_slots}
use native.Mathlib.Decide.{dec_lt}

-- After a step the queue is consistent again, and at most one position more is claimed.
abbrev pub Stepped : ℕ → World → World → Type 0
Stepped k w w' = (freed : ℕ) × (Consistent k w' freed × (w'.tail ≤ w.tail + 1))

module _ (k : ℕ) (w : World) (freed : ℕ) (c : Consistent k w freed) where
  stays_local :
      (i : ℕ) (p : Producer)
      → Offers k freed w.tail w.slots w.claimed p
      → holding p ≡ none
      → Stepped k w (moves_to i p w)
  stays_local i p new e = (freed, (offer_local k w freed c i p new e, omega arith))

  -- A slot that has the number of its position, which is not beyond the tail, is in the ring.
  in_ring : (pos : ℕ) → pos ≤ w.tail → (slot_at k w.slots pos).sequence ≡ pos → pos < freed + 2 ^ k
  in_ring pos le number = elim (dec_lt pos (freed + 2 ^ k)) [
    | yes inside ↦ inside
    | no beyond ↦
        let same_slot : (slot_at k w.slots pos).sequence ≡ (slot_at k w.slots freed).sequence =
          ap (λ (m : ℕ). (w.slots m).sequence)
            (ap (λ (m : ℕ). m % 2 ^ k) {x = pos} {y = freed + 2 ^ k}
                (omega (arith, le, beyond, c.high))
              ∙ add-mod_right freed (2 ^ k)) in
        elim (c.used freed (omega arith) (omega (arith, pow_two_slots k c.two_slots, le, beyond))) [
          | inl n ↦
              absurd (omega (arith, pow_two_slots k c.two_slots, same_slot, number, beyond, n))
          | inr (n, _) ↦
              absurd (omega (arith, pow_two_slots k c.two_slots, same_slot, number, beyond, n))
        ]
  ]

  offer_step-Stepped :
      (i : ℕ) (fails : Bool) (p : Producer)
      → w.producers i ≡ p
      → Offers k freed w.tail w.slots w.claimed p
      → w.tail < 2 ^ 62
      → Stepped k w (offer_step i fails w p)
  unfolding offer_step
  offer_step-Stepped i fails idle at h small = (freed, (c, omega arith))
  offer_step-Stepped i fails (loads pos x) at h small =
      elim (Bool-cases ((w.slots (position w pos)).sequence == pos)) [
        | inl same ↦ rw same (
            stays_local i (swaps pos x)
              (
                h,
                in_ring pos h (
                    ap (λ (m : ℕ). (w.slots m).sequence) (sym (position-slot k w freed pos c))
                    ∙ ground (arith, same)),
              )
              refl)
        | inr differ ↦ elim (Bool-cases (is_before (w.slots (position w pos)).sequence pos)) [
          | inl before ↦ rw (differ, before) (stays_local i idle tt refl)
          | inr behind ↦ rw (differ, behind) (stays_local i (loads w.tail x) (omega arith) refl)
        ]
      ]
  offer_step-Stepped i fails (swaps pos x) at h small =
      elim (Bool-cases (not fails && (w.tail == pos))) [
        | inl won ↦
            rw (won, no_wrap (ground (arith, won)))
              (
                freed,
                (
                  subst
                      (λ q.
                        Consistent k
                          (record w {
                            tail = q + 1;
                            producers = set_producer i (copies q x) w.producers;
                            claimed = w.claimed ++ (x ∷ []);
                          })
                          freed)
                      (ground (arith, won)) (offer_claims k w freed c i x (ground (arith, won))),
                  ground (arith, won),
                ),
              )
        | inr lost ↦ rw lost (stays_local i (loads w.tail x) (omega arith) refl)
      ]
    where
      no_wrap : w.tail ≡ pos → add64 pos 1 ≡ pos + 1
      no_wrap e = omega (arith, e, small)
  offer_step-Stepped i fails (copies pos x) at h small = (
    freed,
    (
      rw (position-slot k w freed pos c) (
          offer_writes k w freed c i pos x _ (stores pos x) (ap holding at) h (inl h.number)
            (copied, ap (λ t. t.data_bytes) here) (λ q e. sym (some_cancel e))),
      omega arith,
    ),
  )
    where
      here :
          slot_at k
            (put_slot (pos % 2 ^ k) (record (w.slots (pos % 2 ^ k)) { data_bytes = x }) w.slots)
            pos
          ≡ record (w.slots (pos % 2 ^ k)) { data_bytes = x }
      here = put_slot_self (pos % 2 ^ k) _ w.slots

      copied :
          Claims k freed w.tail
            (put_slot (pos % 2 ^ k) (record (w.slots (pos % 2 ^ k)) { data_bytes = x }) w.slots)
            w.claimed
            pos
            x
      copied = record {
        low = h.low;
        high = h.high;
        number = ap (λ t. t.sequence) here ∙ h.number;
        own = h.own;
      }
  offer_step-Stepped i fails (stores pos x) at h small = (
    freed,
    (
      rw (position-slot k w freed pos c, no_wrap)
          (offer_writes k w freed c i pos x _ idle (ap holding at) h.0 (inr (refl, h.1)) tt
            (λ q e. cc)),
      omega arith,
    ),
  )
    where
      no_wrap : add64 pos 1 ≡ pos + 1
      no_wrap = omega (arith, h.0.high, small)

  first-Ready :
      (pos : ℕ)
      → pos ≡ freed
      → (w.slots (position w pos)).sequence ≡ add64 pos 1
      → w.tail < 2 ^ 62
      → Ready k freed w.tail w.slots
  first-Ready pos at e small = (
    elim (dec_lt freed w.tail) [
      | yes lt ↦ lt
      | no ge ↦ absurd (
          omega (
            arith,
            number,
            c.free freed (omega (arith, ge)) (omega (arith, pow_two_slots k c.two_slots)),
          ))
    ],
    number,
  )
    where
      number : (slot_at k w.slots freed).sequence ≡ freed + 1
      number =
          ap (λ (m : ℕ). (w.slots m).sequence)
            (sym (ap (position w) at ∙ position-slot k w freed freed c))
          ∙ e
          ∙ omega (arith, at, c.low, small)

  first_item :
      (pos : ℕ)
      → pos ≡ freed
      → Ready k freed w.tail w.slots
      → get_elem? w.claimed freed ≡ some (w.slots (position w pos)).data_bytes
  first_item pos at ready =
      rw (at, position-slot k w freed freed c)
        elim (c.used freed (omega arith) ready.0) [
          | inl n ↦ absurd (omega (arith, n, ready.1))
          | inr (_, e) ↦ e
        ]

  poll_step-Stepped :
      (fails : Bool) (p : Consumer)
      → Polls k freed w.head w.tail w.slots w.claimed p
      → w.tail < 2 ^ 62
      → k < 62
      → Stepped k w (poll_step fails w p)
  unfolding poll_step
  poll_step-Stepped fails waits h small few = (freed, (c, omega arith))
  poll_step-Stepped fails (looks pos) h small few =
      elim (Bool-cases ((w.slots (position w pos)).sequence == add64 pos 1)) [
        | inl same ↦ rw same (
          freed,
          (
            poll_local k w freed c w.head (takes pos)
                (h.0, h.1, first-Ready pos h.1 (ground (arith, same)) small),
            omega arith,
          ),
        )
        | inr differ ↦
            elim (Bool-cases (is_before (w.slots (position w pos)).sequence (add64 pos 1))) [
              | inl before ↦
                  rw (differ, before)
                    (freed, (poll_local k w freed c w.head waits h.0, omega arith))
              | inr behind ↦
                  rw (differ, behind)
                    (freed, (poll_local k w freed c w.head (looks w.head) (h.0, h.0), omega arith))
            ]
      ]
  poll_step-Stepped fails (takes pos) h small few =
      elim (Bool-cases (not fails && (w.head == pos))) [
        | inl won ↦ rw won (
          freed,
          (
            poll_local k w freed c (add64 pos 1) (reads pos)
                (omega (arith, h.1, h.2.0, small), h.1, h.2),
            omega arith,
          ),
        )
        | inr lost ↦
            rw lost (freed, (poll_local k w freed c w.head (looks w.head) (h.0, h.0), omega arith))
      ]
  poll_step-Stepped fails (reads pos) h small few = (
    freed,
    (
      poll_local k w freed c w.head (frees pos _) (h.0, h.1, first_item pos h.1 h.2, h.2),
      omega arith,
    ),
  )
  poll_step-Stepped fails (frees pos x) h small few = (
    freed + 1,
    (
      rw (h.1, position-slot k w freed freed c, no_wrap) (poll_frees k w freed c x h.0 h.2 h.3),
      omega arith,
    ),
  )
    where
      no_wrap : add64 (add64 freed w.mask) 1 ≡ freed + 2 ^ k
      no_wrap = omega (
        arith,
        h.3.0,
        small,
        c.mask,
        one-le-pow k 2 (omega arith),
        pow-le-pow_right {n = 2} (omega arith) {i = k} {j = 62} (omega (arith, few)),
      )

pub step-Stepped :
    (k : ℕ) (w : World) (freed : ℕ) (m : Move)
    → Consistent k w freed
    → w.tail < 2 ^ 62
    → k < 62
    → Stepped k w (step w m)
unfolding step call_offer call_poll
step-Stepped k w freed (calls_offer i x) c small few = called (w.producers i) refl
  where
    called : (p : Producer) → w.producers i ≡ p → Stepped k w (call_offer i x w p)
    called idle at =
        unfold call_offer in stays_local k w freed c i (loads w.tail x) (omega arith) refl
    called (loads pos y) at = unfold call_offer in (freed, (c, omega arith))
    called (swaps pos y) at = unfold call_offer in (freed, (c, omega arith))
    called (copies pos y) at = unfold call_offer in (freed, (c, omega arith))
    called (stores pos y) at = unfold call_offer in (freed, (c, omega arith))
step-Stepped k w freed (offers i fails) c small few =
    offer_step-Stepped k w freed c i fails (w.producers i) refl (c.producers i) small
step-Stepped k w freed calls_poll c small few = called w.consumer c.consumer
  where
    called :
        (p : Consumer)
        → Polls k freed w.head w.tail w.slots w.claimed p
        → Stepped k w (call_poll w p)
    called waits h =
        unfold call_poll in
        (freed, (poll_local k w freed c w.head (looks w.head) (h, h), omega arith))
    called (looks pos) h = unfold call_poll in (freed, (c, omega arith))
    called (takes pos) h = unfold call_poll in (freed, (c, omega arith))
    called (reads pos) h = unfold call_poll in (freed, (c, omega arith))
    called (frees pos y) h = unfold call_poll in (freed, (c, omega arith))
step-Stepped k w freed (polls fails) c small few =
    poll_step-Stepped k w freed c fails w.consumer c.consumer small few
