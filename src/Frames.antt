-- ===== src/Frames.antt =====
-- Frames in shared memory: what src/client/tp_producer.c writes into the header ring and the
-- payload pools, and what src/client/tp_consumer.c reads out of them at the same time. The writes
-- stand in Memory and Publish, the read in Read; the other modules prove that a read is whole.
mod Tests
pub mod Memory
pub mod Bytes
pub mod Publish
pub mod Read
pub mod Writer
pub mod Stores
pub mod Stays
pub mod Whole
pub mod Pools
