-- ===== src/Store/Queue.antt =====
-- The abstract view of the store: one queue of messages for each route, oldest first.
pub mod View
pub mod Push
pub mod Take
pub mod Lease
pub mod Acked
pub mod Absent
pub mod Counter
pub mod Gone
pub mod Drained
pub mod Kept
pub mod Lasting
pub mod Receipt
pub mod Contract
