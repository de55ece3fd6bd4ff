-- ===== src/Config.antt =====
-- The configuration: the limits of src/lib.rs, the store's durations, and main's resolution.
pub mod Limits
pub mod Resolve
pub mod Bounds
pub mod Env
pub mod Agree
pub mod Spelled
