-- ===== src/CommandQueue.antt =====
-- The bounded queue of commands, src/common/tp_mpsc_queue.c. Ring has the operations; Slots, Loops,
-- Inv, Writes, Refine and Session show that a ring of two slots or more is a bounded queue, and
-- Single that a ring of one slot is not. Threads has the calls of many threads, an access at a time;
-- Interleaved, Accesses, Steps and Delivery show that the items come out in order.
mod Tests
pub mod Ring
pub mod Slots
pub mod Loops
pub mod Inv
pub mod Writes
pub mod Refine
pub mod Session
pub mod Single
pub mod Threads
pub mod Interleaved
pub mod Accesses
pub mod Steps
pub mod Delivery
