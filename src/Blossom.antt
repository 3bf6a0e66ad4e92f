-- ===== src/Blossom.antt =====
-- The blob server (blossom/src/server.ts).
pub mod Config
pub mod Auth
pub mod Server
