-- ===== src/ConsumerRegistry.antt =====
-- The producer's registry of consumers, src/client/tp_consumer_registry.c. The operations stand in
-- State, Update and Sweep; the other modules prove what holds of them.
mod Tests
pub mod State
pub mod Update
pub mod Sweep
pub mod Lookup
pub mod Sweeps
pub mod Wishes
