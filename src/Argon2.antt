-- ===== src/Argon2.antt =====
-- The C target of the package, Sources/CArgon2.
pub mod Types
pub mod Messages
pub mod Validate
pub mod Base64
pub mod Decimal
pub mod Encoding
pub mod Index
pub mod Blake2b
pub mod Compare
pub mod Memory
pub mod Entry
