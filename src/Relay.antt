-- ===== src/Relay.antt =====
-- The relay (nostream-share/src).
pub mod Kinds
pub mod Filter
pub mod ProofOfWork
pub mod SignedAuth
pub mod Expiration
pub mod Settings
pub mod Accept
pub mod Repository
pub mod Session
pub mod Subscribe
pub mod Strategies
pub mod EventHandler
pub mod RateLimit
pub mod Admission
pub mod Payments
pub mod Mirror
pub mod Adapter
pub mod Server
pub mod Runes
pub mod Query
pub mod Maintenance
