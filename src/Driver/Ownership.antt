-- ===== src/Driver/Ownership.antt =====
-- Who owns the streams of src/driver/tp_driver.c: the invariant of the lease table, and that each
-- operation on one table keeps it.
pub mod Holder
pub mod Inv
pub mod Tables
pub mod Numbers
pub mod Resolve
pub mod Attach
pub mod Answer
pub mod Leases
pub mod Counter
pub mod Run
