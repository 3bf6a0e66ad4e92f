-- ===== src/Api/BlossomClient.antt =====
-- api/src/blossom/client.ts: the client of the blob server, its header and its reading of what axios
-- answers: a response of any status (`validateStatus` lets all through), or what the call threw.
pub mod Requests
use nostr_mesh.Prelude.{
  ℕ, zero, suc, ◌+◌, ◌-◌, ◌*◌, ◌/◌, ◌%◌, ◌^◌, ◌≤◌, ◌<◌, ◌≡◌, refl, sym, ap, subst, ◌∙◌, ◌≢◌, ◌↔◌,
  ◌⊎◌, inl, inr, Bool, true, false, not, ◌&&◌, ◌||◌, Option, none, some, List, [], ◌∷◌, ◌++◌, map,
  arith, ltb, leb, ◌==◌, if◌then◌else◌, ltb→lt, lt→ltb, leb→le, le_of_not_ltb, eq_of_not_ne,
  ==_refl, lt_of_le, ==_iff, &&_parts, Bool-cases, Option-cases, length, get_elem?, take, drop,
  length-append, length-drop, take-append, drop-append, any, all, find, All,
}
use nostr_mesh.Prelude.Text.{
  Str, codes, ◌===◌, ===_iff, ===_refl, starts_with, includes, is_space, trim, to_lower_case,
  is_hex, is_hash, is_hex_lower, is_hash_lower, is_hash_parts, is_hash_lower_parts,
}
use nostr_mesh.Prelude.Result.{
  Result, ok, err, ◌>>=◌, ◌>>◌, throw_if, throw_if-eq-ok, >>=-eq-ok, >>=-ok, ok-injective,
}
use nostr_mesh.Prelude.Bytes.{
  Bytes, IsByte, hex_value, hex_digit, from_hex, to_hex, from_hex-to_hex, from_hex-IsByte,
  length-to_hex, to_hex-is_hash_lower, is_hash_of_lower,
}
use nostr_mesh.Api.Failure.{
  Failure, Operation, encryption_key_size, invalid_key_size, payload_too_small, unsupported_version,
  authentication_failed, name_required, hash_not_hex, size_not_natural, folder_not_rooted,
  server_not_url, key_not_hex, metadata_too_small, unsupported_metadata_version,
  metadata_not_authentic, not_json, unexpected_kind, odd_hex, invalid_hex, all_relays_rejected,
  query_failed, blossom_failed, blossom_failed_plain, blossom_unreachable, no_sha256, invalid_hash,
}
use nostr_mesh.Prelude.Text.{strip_slash}
use nostr_mesh.Api.Network.{
  Thrown, no_response, with_response, plain_error, not_an_error, Response, Answer, answered, threw,
  UploadBody,
}
use nostr_mesh.Prelude.Number.{decimal}
use nostr_mesh.Nostr.{EventTemplate}
use nostr_mesh.Api.Platform.{Platform}
use nostr_mesh.Api.Hex.{hex_to_bytes}

pub data BlossomVerb : Type 0 where
  upload get : BlossomVerb

abbrev pub verb_text : BlossomVerb → Str
verb_text upload = codes "upload"
verb_text get = codes "get"

pub record BlossomUploadResult : Type 0 where
  pub sha256 : Str
  pub size : ℕ
  pub url : Str

-- `a || b` on texts, and `a ?? b`.
abbrev pub or_else : Str → Str → Str
or_else [] b = b
or_else (c ∷ cs) b = c ∷ cs

abbrev pub coalesce {ℓ} : {A : Type ℓ} → Option A → A → A
coalesce none b = b
coalesce (some a) b = a

abbrev pub or_option : Option Str → Option Str → Option Str
or_option none b = b
or_option (some a) b = some a

unfoldable pub normalize_blossom_error : Thrown → Operation → Failure
normalize_blossom_error no_response operation = blossom_unreachable operation
normalize_blossom_error (with_response error x_reason status_text) operation =
    blossom_failed operation (or_else (coalesce error []) (or_else x_reason status_text))
normalize_blossom_error (plain_error failure) operation = failure
normalize_blossom_error not_an_error operation = blossom_failed_plain operation

abbrev pub is_success : ℕ → Bool
is_success status = not (ltb status 200 || leb 300 status)

-- The `catch` clause.
abbrev pub catching :
    {A B : Type 0} → Operation → (Response A → Result Failure B) → Answer A → Result Failure B
catching operation k (answered r) = k r
catching operation k (threw t) = err (normalize_blossom_error t operation)

-- `!sha256` holds of a missing and of an empty text.
unfoldable pub upload_result :
    Str → ℕ → Option Str → UploadBody → Result Failure BlossomUploadResult
upload_result base_url sent none body = err no_sha256
upload_result base_url sent (some []) body = err no_sha256
upload_result base_url sent (some (c ∷ cs)) body = ok (record {
  sha256 = c ∷ cs;
  size = coalesce body.size sent;
  url = coalesce body.url (base_url ++ (codes "/" ++ (c ∷ cs)));
})

unfoldable pub read_upload : Str → ℕ → Response UploadBody → Result Failure BlossomUploadResult
unfolding upload_result
read_upload base_url sent r = do
  throw_if (not (is_success r.status))
      (blossom_failed Operation.upload (or_else r.x_reason r.status_text))
  upload_result base_url sent (or_option r.body.sha256 r.body.x) r.body

unfoldable pub read_download : Response Bytes → Result Failure Bytes
read_download r = do
  throw_if (not (is_success r.status))
      (blossom_failed Operation.download (or_else r.x_reason r.status_text))
  ok r.body

module _ (p : Platform) where
  unfoldable pub auth_template : ℕ → BlossomVerb → Str → ℕ → EventTemplate
  auth_template now verb content expiration_seconds = record {
    kind = 24242;
    created_at = now;
    tags =
        (codes "t" ∷ verb_text verb ∷ [])
        ∷ (codes "expiration" ∷ decimal (now + expiration_seconds) ∷ [])
        ∷ [];
    content = content;
  }

  unfoldable pub build_auth_header : Str → ℕ → BlossomVerb → Str → ℕ → Result Failure Str
  build_auth_header secret now verb content expiration_seconds = do
    secret_key ← hex_to_bytes secret
    let template = auth_template now verb content expiration_seconds
    let signed = p.signer.finalize_event template secret_key
    ok (codes "Nostr " ++ p.to_base64 (p.stringify_event signed))

pub record BlossomClient : Type 0 where
  pub base_url : Str
  pub secret_key_hex : Str

abbrev pub new_client : Str → Str → BlossomClient
new_client base_url secret_key_hex = record {
  base_url = strip_slash base_url;
  secret_key_hex = secret_key_hex;
}
