-- ===== src/Discovery.antt =====
-- The table of streams of the discovery service, src/discovery/tp_discovery_service.c. Table has the
-- operations on it and Query the search; Search and Streams hold the proofs.
mod Tests
pub mod Table
pub mod Query
pub mod Search
pub mod Streams
