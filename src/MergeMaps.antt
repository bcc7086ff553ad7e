-- ===== src/MergeMaps.antt =====
-- The registry of merge maps, src/common/tp_merge_map.c. Registry has the operations, Lookup what is
-- found after them.
mod Tests
pub mod Registry
pub mod Lookup
