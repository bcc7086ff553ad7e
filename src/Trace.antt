-- ===== src/Trace.antt =====
-- Trace ids, src/common/tp_trace.c: a time, a node and a sequence number in one word that several
-- threads advance by compare and swap. Generator has the operations; Words, Order and Fields prove
-- that ids grow and can be taken apart, and Progress that a call returns.
mod Tests
pub mod Generator
pub mod Words
pub mod Order
pub mod Fields
pub mod Progress
