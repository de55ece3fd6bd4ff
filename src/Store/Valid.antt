-- ===== src/Store/Valid.antt =====
-- The invariant of the tables of src/store.rs, and that every operation keeps it.
pub mod Unique
pub mod Keys
pub mod Order
pub mod Cascade
pub mod Invariant
pub mod Slots
pub mod Sweeping
pub mod Pushing
pub mod Draining
pub mod Pulling
pub mod Acking
pub mod Steps
