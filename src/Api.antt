-- ===== src/Api.antt =====
-- The integration API (api/src).
pub mod Failure
pub mod Crypto
pub mod Hex
pub mod Metadata
pub mod Platform
pub mod NostrClient
pub mod Network
pub mod BlossomClient
pub mod Errors
pub mod Config
pub mod Routes
