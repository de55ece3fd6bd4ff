-- ===== src/Secrets.antt =====
-- Secrets and names of src/lib.rs: digests in hexadecimal, their comparison, and header texts.
pub mod Hex
pub mod Trim
pub mod Trimmed
pub mod Compare
pub mod Headers
pub mod Equal
