-- ===== src/Store/Bounds.antt =====
-- The three caps of the relay: messages on a route, live routes and invite slots.
pub mod Shrink
pub mod Within
pub mod Caps
