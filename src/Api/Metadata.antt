-- ===== src/Api/Metadata.antt =====
-- api/src/metadata/schema.ts: the metadata event of a blob, validated, encrypted and signed. The
-- time and the nonce are arguments.
pub mod Record
pub mod Validation
pub mod Laws
use nostr_mesh.Prelude.{
  ℕ, zero, suc, ◌+◌, ◌-◌, ◌*◌, ◌/◌, ◌%◌, ◌^◌, ◌≤◌, ◌<◌, ◌≡◌, refl, sym, ap, subst, ◌∙◌, ◌≢◌, ◌↔◌,
  ◌⊎◌, inl, inr, Bool, true, false, not, ◌&&◌, ◌||◌, Option, none, some, List, [], ◌∷◌, ◌++◌, map,
  arith, ltb, leb, ◌==◌, if◌then◌else◌, ltb→lt, lt→ltb, leb→le, le_of_not_ltb, eq_of_not_ne,
  ==_refl, lt_of_le, ==_iff, &&_parts, Bool-cases, Option-cases, length, get_elem?, take, drop,
  length-append, length-drop, take-append, drop-append, any, all, find, All,
}
use nostr_mesh.Prelude.Text.{
  Str, codes, ◌===◌, ===_iff, ===_refl, starts_with, includes, is_space, trim, to_lower_case,
  is_hex, is_hash, is_hex_lower, is_hash_lower, is_hash_parts, is_hash_lower_parts,
}
use nostr_mesh.Prelude.Result.{
  Result, ok, err, ◌>>=◌, ◌>>◌, throw_if, throw_if-eq-ok, >>=-eq-ok, ok-injective,
}
use nostr_mesh.Prelude.Bytes.{
  Bytes, IsByte, hex_value, hex_digit, from_hex, to_hex, from_hex-to_hex, from_hex-IsByte,
  length-to_hex, to_hex-is_hash_lower, is_hash_of_lower,
}
use nostr_mesh.Nostr.{Event, EventTemplate, Tag, Signer}
use nostr_mesh.Api.Failure.{
  Failure, Operation, upload, download, head, encryption_key_size, invalid_key_size,
  payload_too_small, unsupported_version, authentication_failed, name_required, hash_not_hex,
  size_not_natural, folder_not_rooted, server_not_url, key_not_hex, metadata_too_small,
  unsupported_metadata_version, metadata_not_authentic, not_json, unexpected_kind, odd_hex,
  invalid_hex, all_relays_rejected, query_failed, blossom_failed, blossom_unreachable, no_sha256,
  invalid_hash,
}
use nostr_mesh.Api.Crypto.{frame, authentic, version_byte}
use nostr_mesh.Api.Hex.{hex_to_bytes}
use nostr_mesh.Api.Platform.{Platform}
use nostr_mesh.Api.Metadata.Record.{Size, whole, negative, fractional, BlobMetadata}

abbrev pub metadata_kind : ℕ
metadata_kind = 34578

abbrev pub metadata_encryption_version : ℕ
metadata_encryption_version = 1

-- `Number.isInteger(size) && size >= 0`.
abbrev pub is_natural : Size → Bool
is_natural (whole n) = true
is_natural _ = false

-- `/^https?:\/\//i`.
unfoldable pub is_http_url : Str → Bool
is_http_url url =
    let lower = to_lower_case url in
    starts_with lower (codes "http://") || starts_with lower (codes "https://")

unfoldable pub validate_metadata : BlobMetadata → Result Failure (Unit {0})
validate_metadata m = do
  throw_if (trim m.name === []) name_required
  throw_if (not (is_hash m.hash)) hash_not_hex
  throw_if (not (is_natural m.size)) size_not_natural
  throw_if (not (starts_with m.folder (codes "/"))) folder_not_rooted
  throw_if (not (is_http_url m.server)) server_not_url
  throw_if (not (is_hash m.encryption_key)) key_not_hex
  ok tt

abbrev pub parsed : Option BlobMetadata → Result Failure BlobMetadata
parsed none = err not_json
parsed (some m) = ok m

module _ (p : Platform) where
  unfoldable pub metadata_key_from_secret : Str → Bytes
  metadata_key_from_secret secret = p.sha256 (codes "nostrmesh:metadata:" ++ secret)

  unfoldable pub encrypt_metadata : Bytes → BlobMetadata → Str → Str
  encrypt_metadata iv metadata secret =
      let key = metadata_key_from_secret secret in
      p.to_base64 (frame p.aead metadata_encryption_version key iv (p.stringify metadata))

  unfoldable pub decrypt_metadata : Str → Str → Result Failure BlobMetadata
  decrypt_metadata content secret = do
    let payload = p.from_base64 content
    throw_if (ltb (length payload) 29) metadata_too_small
    let version = version_byte payload
    throw_if (not (version == metadata_encryption_version)) (unsupported_metadata_version version)
    let key = metadata_key_from_secret secret
    plaintext ←
        authentic metadata_not_authentic (
          p.aead.unseal key (take 12 (drop 1 payload)) (take 16 (drop 13 payload))
            (drop 29 payload))
    metadata ← parsed (p.parse plaintext)
    validate_metadata metadata
    ok metadata

  unfoldable pub metadata_template : ℕ → Bytes → BlobMetadata → Str → EventTemplate
  metadata_template now iv metadata secret = record {
    kind = metadata_kind;
    created_at = now;
    tags =
        (codes "d" ∷ metadata.hash ∷ [])
        ∷ (codes "client" ∷ codes "nostrmesh" ∷ [])
        ∷ (codes "encrypted" ∷ codes "aead-v1" ∷ [])
        ∷ [];
    content = encrypt_metadata iv metadata secret;
  }

  unfoldable pub build_metadata_event : ℕ → Bytes → BlobMetadata → Str → Result Failure Event
  build_metadata_event now iv metadata secret = do
    validate_metadata metadata
    secret_key ← hex_to_bytes secret
    ok (p.signer.finalize_event (metadata_template now iv metadata secret) secret_key)

  unfoldable pub parse_metadata_event : Event → Str → Result Failure BlobMetadata
  parse_metadata_event event secret = do
    throw_if (not (event.kind == metadata_kind)) (unexpected_kind event.kind)
    decrypt_metadata event.content secret

  unfoldable pub build_soft_delete_event : ℕ → Bytes → BlobMetadata → Str → Result Failure Event
  build_soft_delete_event now iv existing secret =
      build_metadata_event now iv (record existing { deleted = some true; uploaded_at = now })
        secret

pub record HashFilter : Type 0 where
  pub kinds : List ℕ
  pub d : List Str
  pub limit : ℕ

unfoldable pub metadata_filter_by_hash : Str → HashFilter
metadata_filter_by_hash hash = record { kinds = metadata_kind ∷ []; d = hash ∷ []; limit = 50 }
