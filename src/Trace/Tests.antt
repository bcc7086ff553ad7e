-- ===== src/Trace/Tests.antt =====
-- Runs of the generator of trace ids.
use tensor_pool_c.Common.{◌+◌, ◌*◌, ◌^◌, ◌≡◌, ◌≢◌, refl, true, false, none, List, [], ◌∷◌, arith}
use tensor_pool_c.Trace.Generator.{Generator, Attempt, init, proposal, round, ids, next}
use tensor_pool_c.Trace.Order
use tensor_pool_c.Trace.Order.{IsRunning}
use tensor_pool_c.Trace.Fields
use tensor_pool_c.Trace.Progress

-- Node 5, with 3 bits for the node and 2 for the sequence; the last id had time 7 and number 2.
abbrev fresh : Generator
fresh = record {
  timestamp_sequence = 0;
  node_id_bits = 3;
  sequence_bits = 2;
  node_id_and_sequence_bits = 5;
  max_node_id = 7;
  max_sequence = 3;
  node_bits = 20;
  timestamp_offset_ms = 1000;
}

init-IsRunning_example : IsRunning 3 2 5 fresh
init-IsRunning_example =
    Order.init-IsRunning 3 2 5 1000 1001 1001 fresh (omega arith) (unfold init in refl)

abbrev attempts : List Attempt
attempts =
    record { seen = 0; now_ms = 1007; spurious = false }
    ∷ record { seen = 0; now_ms = 1007; spurious = false }
    ∷ record { seen = 224; now_ms = 1007; spurious = true }
    ∷ record { seen = 224; now_ms = 1006; spurious = false }
    ∷ record { seen = 225; now_ms = 1009; spurious = false }
    ∷ []

ids_test : ids fresh attempts ≡ 244 ∷ 245 ∷ 308 ∷ []
unfolding ids round
ids_test = refl

running : IsRunning 3 2 5 fresh
running = init-IsRunning_example

ids-Ascending_example : Order.Ascending (0 + 5 * 2 ^ 2) (ids fresh attempts)
ids-Ascending_example =
    Order.ids-Ascending 3 2 5 fresh attempts running
      (omega arith, (omega arith, (omega arith, (omega arith, (omega arith, tt)))))

round-Reads_example : Fields.Reads fresh 5 running.word.t running.word.q 7 244
round-Reads_example =
    Fields.round-Reads 3 2 5 fresh (record { seen = 0; now_ms = 1007; spurious = false }) 244
      running (omega arith) (unfold round proposal in refl)

next_returns_example : next fresh ((1000, false) ∷ (1007, true) ∷ (1007, false) ∷ []) ≢ none
next_returns_example =
    Progress.next_returns fresh ((1000, false) ∷ (1007, true) ∷ (1007, false) ∷ []) refl
