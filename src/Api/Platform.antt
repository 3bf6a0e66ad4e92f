-- ===== src/Api/Platform.antt =====
-- What the API uses of Node and of its packages, as parameters: the cipher, nostr-tools, SHA-256,
-- base64 and JSON. `parse` stands for `JSON.parse(…) as BlobMetadata` on the UTF-8 text: the cast is
-- not checked by the program, and `none` is a text that is no JSON or no object of that shape.
use nostr_mesh.Prelude.{◌≡◌, Option, some}
use nostr_mesh.Prelude.Text.{Str}
use nostr_mesh.Prelude.Bytes.{Bytes}
use nostr_mesh.Nostr.{Signer, Base64, EventJson}
use nostr_mesh.Api.Crypto.{Aead}
use nostr_mesh.Api.Metadata.Record.{BlobMetadata}

pub record Platform : Type 0 where
  pub aead : Aead
  pub signer : Signer
  pub sha256 : Str → Bytes
  pub base64 : Base64
  pub open base64 use {to_base64, from_base64, from-to_base64}
  pub json : EventJson
  pub open json use {stringify_event, parse_event, parse-stringify_event}
  pub stringify : BlobMetadata → Bytes
  pub parse : Bytes → Option BlobMetadata
  pub parse-stringify : (m : BlobMetadata) → parse (stringify m) ≡ some m
