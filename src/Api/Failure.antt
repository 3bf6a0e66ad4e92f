-- ===== src/Api/Failure.antt =====
-- What the API's code throws: one constructor for each `throw` of api/src and for each failure that
-- a library call hands on, with the values that its message shows.
use nostr_mesh.Prelude.{ℕ}
use nostr_mesh.Prelude.Text.{Str}

pub data Operation : Type 0 where
  upload download head : Operation

pub data Failure : Type 0 where
  -- crypto.ts
  encryption_key_size invalid_key_size payload_too_small : Failure
  unsupported_version : ℕ → Failure
  authentication_failed : Failure
  -- metadata/schema.ts
  name_required hash_not_hex size_not_natural folder_not_rooted server_not_url key_not_hex : Failure
  metadata_too_small : Failure
  unsupported_metadata_version : ℕ → Failure
  metadata_not_authentic not_json : Failure
  unexpected_kind : ℕ → Failure
  odd_hex invalid_hex : Failure
  -- nostr/client.ts
  all_relays_rejected query_failed : Failure
  -- blossom/client.ts
  blossom_failed : Operation → Str → Failure
  blossom_unreachable blossom_failed_plain : Operation → Failure
  no_sha256 : Failure
  -- routes/blobs.ts
  invalid_hash : Failure
