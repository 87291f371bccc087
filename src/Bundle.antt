-- ===== src/Bundle.antt =====
-- The bundle format, Sources/UltraLockedFormat.
pub mod Limits
pub mod Header
pub mod Failure
pub mod Crypto
pub mod ItemRecord
pub mod Random
pub mod KeyDerivation
pub mod Manifest
pub mod Builder
pub mod Parser
mod Sample
mod Tests
