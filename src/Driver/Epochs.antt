-- ===== src/Driver/Epochs.antt =====
-- The epochs of src/driver/tp_driver.c: what an attach, a detach and an expiry do to the epoch of
-- the stream, and what the expiry sweep leaves.
pub mod Attach
pub mod Sweep
