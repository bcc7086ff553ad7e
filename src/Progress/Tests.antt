-- ===== src/Progress/Tests.antt =====
-- Runs of the poller of progress messages.
use tensor_pool_c.Common.{ℕ, ◌≡◌, inl, inr, refl, true, false, List, [], ◌∷◌, arith}
use tensor_pool_c.Progress.Poller.{
  FrameProgress, Poller, Message, init, unused, set_consumer, resize, validate, enlarge,
  validate_ring, validate_direct, handle_all,
}
use tensor_pool_c.Progress.Ring
use tensor_pool_c.Progress.Direct

abbrev progress : ℕ → ℕ → FrameProgress
progress seq bytes = record {
  stream_id = 7;
  epoch = 2;
  seq = seq;
  payload_bytes_filled = bytes;
  state = 1;
}

abbrev messages : List Message
messages =
    record { memory = true; valid = true; progress = progress 6 10 }
    ∷ record { memory = true; valid = true; progress = progress 5 300 }
    ∷ record { memory = true; valid = false; progress = progress 5 400 }
    ∷ []

refuses_fewer_bytes_example :
    (validate true true
      (handle_all (validate true true init (progress 5 200)).1 messages)
      (progress 5 100)).0
    ≡ false
refuses_fewer_bytes_example =
    Ring.refuses_fewer_bytes init (progress 5 200) (progress 5 100) messages true true true true
      refl (omega arith) refl (unfold validate enlarge validate_ring in refl) (omega arith)
      (refl, refl, refl) (omega arith)

-- A tracker for four header slots.
abbrev poller : Poller
poller = record {
  tracker = unused 4;
  tracker_cursor = 0;
  header_nslots = 4;
  max_payload_bytes = 500;
}

refuses_in_slot_example :
    (validate true true
      (handle_all (validate true true poller (progress 5 200)).1 messages)
      (progress 5 100)).0
    ≡ false
refuses_in_slot_example =
    Direct.refuses_in_slot poller (progress 5 200) (progress 5 100) messages true true true true
      (omega arith) (omega arith) (unfold validate enlarge validate_direct in refl)
      (inr (omega arith), (inl (refl, refl, refl), (inl (refl, refl, refl), tt))) (refl, refl, refl)
      (omega arith)

set_consumer_test :
    set_consumer true
      (record { tracker = []; tracker_cursor = 9; header_nslots = 0; max_payload_bytes = 500 })
      4
    ≡ poller
unfolding set_consumer resize
set_consumer_test = refl
