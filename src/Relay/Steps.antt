-- ===== src/Relay/Steps.antt =====
-- The handlers as accesses to the shared state, one after another.
pub mod Pushing
pub mod Queueing
pub mod Inviting
pub mod Serving
