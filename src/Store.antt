-- ===== src/Store.antt =====
-- The durable store of src/store.rs.
pub mod Schema
pub mod Transaction
pub mod Sweep
pub mod Report
pub mod Keyed
pub mod Status
pub mod Invites
pub mod Enqueue
pub mod Pull
pub mod Ack
pub mod Open
pub mod Prepared
pub mod Version
pub mod Reopen
pub mod Calls
pub mod Valid
pub mod Delivery
pub mod Bounds
pub mod Queue
pub mod Mailbox
pub mod Slots
pub mod Tests
pub mod OpenTests
pub mod LastingTests
