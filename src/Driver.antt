-- ===== src/Driver.antt =====
-- The shared-memory driver, src/driver/tp_driver.c: streams, leases and their epochs.
-- The operations stand in State, Cooldowns, Ids, Attach, Leases and Run; the other modules
-- prove what holds of them.
pub mod State
pub mod Cooldowns
pub mod Ids
pub mod Attach
pub mod Leases
pub mod Ownership
pub mod Run
pub mod Epochs
mod Tests
