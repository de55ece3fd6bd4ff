-- ===== src/Rate.antt =====
-- The token bucket of src/lib.rs, which limits pushes and the creation of invites.
pub mod Bucket
pub mod Budget
pub mod Stale
