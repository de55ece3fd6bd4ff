-- ===== src/Store/Slots.antt =====
-- What the invite slots promise.
pub mod Find
pub mod Never
pub mod Once
pub mod Opened
pub mod Ticket
