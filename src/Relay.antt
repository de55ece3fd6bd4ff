-- ===== src/Relay.antt =====
-- The handlers of src/lib.rs over the store, the rate buckets and the settings.
pub mod State
pub mod Buckets
pub mod Start
pub mod Main
pub mod Sweeper
pub mod Push
pub mod Queues
pub mod Slots
pub mod Info
pub mod Expiry
pub mod Posted
pub mod Created
pub mod Published
pub mod Admitted
pub mod Handshake
pub mod Interrupted
pub mod Delivered
pub mod Admission
pub mod Authorized
pub mod Requests
pub mod Actions
pub mod Steps
pub mod Reach
pub mod Sound
pub mod Started
pub mod Lives
pub mod Tests
pub mod HandshakeTests
pub mod InterruptedTests
pub mod StartTests
