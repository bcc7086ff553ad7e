-- ===== src/Progress.antt =====
-- The poller of progress messages, src/client/tp_progress_poller.c. Poller has the operations;
-- Entries, Turns, Ring and Direct show how long the poller remembers a frame.
mod Tests
pub mod Poller
pub mod Entries
pub mod Turns
pub mod Ring
pub mod Direct
