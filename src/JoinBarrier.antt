-- ===== src/JoinBarrier.antt =====
-- The join barrier, src/common/tp_join_barrier.c: when the inputs of a join have come far enough
-- for an output. The operations stand in State, Maps, Update and Ready; the other modules prove
-- what holds of them.
mod Tests
pub mod State
pub mod Maps
pub mod Update
pub mod Ready
pub mod Sequence
pub mod Progress
pub mod Timestamp
pub mod Fresh
