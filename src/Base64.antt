-- ===== src/Base64.antt =====
-- src/lib.rs: `b64_decode` and `b64_encode`, URL-safe base64 without padding. A byte is a number
-- below 256, and a text its bytes.
pub mod Digits
pub mod Codec
pub mod Size
pub mod Loop
pub mod Words
pub mod RoundTrip
pub mod Canonical
pub mod Tests
