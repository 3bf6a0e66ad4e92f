-- ===== src/System.antt =====
-- The services together: what api/src/blossom/client.ts sends to blossom/src/server.ts.
pub mod Authorization
