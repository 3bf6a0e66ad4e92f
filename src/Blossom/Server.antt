-- ===== src/Blossom/Server.antt =====
-- The requests that blossom/src/server.ts serves. The folder of blobs is a list of names with their
-- contents; express reads the request and its body, SHA-256 is a parameter.
pub mod Laws
pub mod Access
use nostr_mesh.Prelude.{
  ℕ, zero, suc, ◌+◌, ◌-◌, ◌*◌, ◌/◌, ◌%◌, ◌^◌, ◌≤◌, ◌<◌, ◌≡◌, refl, sym, ap, subst, ◌∙◌, ◌≢◌, ◌↔◌,
  ◌⊎◌, inl, inr, Bool, true, false, not, ◌&&◌, ◌||◌, Option, none, some, List, [], ◌∷◌, ◌++◌, map,
  arith, ltb, leb, ◌==◌, if◌then◌else◌, ltb→lt, lt→ltb, leb→le, le_of_not_ltb, eq_of_not_ne,
  ==_refl, lt_of_le, ==_iff, &&_parts, Bool-cases, Option-cases, length, get_elem?, take, drop,
  length-append, length-drop, take-append, drop-append, any, all, find, All,
}
use nostr_mesh.Prelude.Text.{
  Str, codes, ◌===◌, ===_iff, ===_refl, starts_with, includes, is_space, trim, to_lower_case,
  is_hex, is_hash, is_hex_lower, is_hash_lower, is_hash_parts, is_hash_lower_parts,
}
use nostr_mesh.Prelude.Result.{
  Result, ok, err, ◌>>=◌, ◌>>◌, throw_if, throw_if-eq-ok, >>=-eq-ok, >>=-ok, ok-injective,
}
use nostr_mesh.Prelude.Bytes.{
  Bytes, IsByte, hex_value, hex_digit, from_hex, to_hex, from_hex-to_hex, from_hex-IsByte,
  length-to_hex, to_hex-is_hash_lower, is_hash_of_lower,
}
use nostr_mesh.Nostr.{Signer, Base64, EventJson}
use nostr_mesh.Blossom.Config.{BlossomConfig}
use nostr_mesh.Blossom.Auth.{
  AuthVerb, upload, get, HttpError, invalid_hash, empty_body, not_found, origin_not_allowed,
  error_status, parse_auth_event,
}

abbrev pub Blobs : Type 0
Blobs = List (Str × Bytes)

-- `existsSync` and `readFileSync` of `blobPath(hash)`, and `writeFileSync` of a new file.
unfoldable pub lookup : Str → Blobs → Option Bytes
lookup hash [] = none
lookup hash ((name, content) ∷ blobs) = if name === hash then some content else lookup hash blobs

unfoldable pub exists_sync : Str → Blobs → Bool
exists_sync hash blobs = elim (lookup hash blobs) [ none ↦ false | some _ ↦ true ]

-- The body as `express.raw` leaves it: above the limit it throws, without a body it leaves no buffer.
pub data Body : Type 0 where
  too_large no_buffer : Body
  buffer : Bytes → Body

pub data Target : Type 0 where
  health : Target
  put_upload : Body → Target
  head_blob get_blob : Str → Target

pub record Request : Type 0 where
  pub origin : Option Str
  pub is_options : Bool
  pub authorization : Option Str
  pub target : Target

pub data Reply : Type 0 where
  no_content healthy : Reply
  uploaded : Str → ℕ → Str → Reply
  found : Reply
  blob : Bytes → Reply
  entity_too_large : Reply
  thrown : HttpError → Reply

-- The status, those of the error handler included.
abbrev pub status : Reply → ℕ
status no_content = 204
status entity_too_large = 413
status (thrown e) = error_status e
status _ = 200

-- `!origin` holds of a missing and of an empty header.
unfoldable pub is_allowed_origin : BlossomConfig → Option Str → Bool
is_allowed_origin config none = true
is_allowed_origin config (some []) = true
is_allowed_origin config (some (c ∷ cs)) =
    includes config.allowed_origins (codes "*") || includes config.allowed_origins (c ∷ cs)

abbrev hash_or_throw : Str → Bool → Result HttpError Str
hash_or_throw hash true = ok hash
hash_or_throw hash false = err invalid_hash

unfoldable pub normalize_hash : Str → Result HttpError Str
normalize_hash input =
    let hash = to_lower_case (trim input) in hash_or_throw hash (is_hash_lower hash)

-- `!Buffer.isBuffer(req.body) || req.body.length === 0`.
abbrev body_content : Body → Result HttpError Bytes
body_content (buffer (b ∷ bs)) = ok (b ∷ bs)
body_content _ = err empty_body

abbrev or_not_found : Option Bytes → Result HttpError Bytes
or_not_found none = err not_found
or_not_found (some content) = ok content

-- `next(error)`.
abbrev pub caught : Result HttpError Reply → Reply
caught (ok reply) = reply
caught (err e) = thrown e

module _ (signer : Signer) (base64 : Base64) (json : EventJson) (sha256 : Bytes → Str)
    (config : BlossomConfig) where
  -- `writeFileSync` where the name is new.
  unfoldable pub write_new : Bytes → Blobs → Blobs
  unfolding exists_sync
  write_new content blobs =
      if exists_sync (sha256 content) blobs then blobs else (sha256 content, content) ∷ blobs

  abbrev store : Blobs → Result HttpError Bytes → Reply × Blobs
  store blobs (err e) = (thrown e, blobs)
  store blobs (ok content) = (
    uploaded (sha256 content) (length content)
        (config.public_base_url ++ (codes "/" ++ sha256 content)),
    write_new content blobs,
  )

  -- PUT /upload; `express.raw` comes before the handler.
  unfoldable pub put : Option Str → Body → ℕ → Blobs → Reply × Blobs
  put authorization too_large now blobs = (entity_too_large, blobs)
  put authorization body now blobs =
      store blobs
        (do parse_auth_event signer base64 json config authorization upload now; body_content body)

  unfoldable pub find_blob : Option Str → Str → ℕ → Blobs → Result HttpError Bytes
  find_blob authorization input now blobs = do
    parse_auth_event signer base64 json config authorization get now
    hash ← normalize_hash input
    or_not_found (lookup hash blobs)

  -- HEAD /:sha256 and GET /:sha256
  unfoldable pub head : Option Str → Str → ℕ → Blobs → Reply
  head authorization input now blobs =
      caught (do content ← find_blob authorization input now blobs; ok found)

  unfoldable pub get_content : Option Str → Str → ℕ → Blobs → Reply
  get_content authorization input now blobs =
      caught (do content ← find_blob authorization input now blobs; ok (blob content))

  abbrev route : Request → Target → ℕ → Blobs → Reply × Blobs
  route r health now blobs = (healthy, blobs)
  route r (put_upload body) now blobs = put r.authorization body now blobs
  route r (head_blob hash) now blobs = (head r.authorization hash now blobs, blobs)
  route r (get_blob hash) now blobs = (get_content r.authorization hash now blobs, blobs)

  -- The first middleware and the routes behind it.
  unfoldable pub handle : Request → ℕ → Blobs → Reply × Blobs
  handle r now blobs =
      if not (is_allowed_origin config r.origin)
      then (thrown (origin_not_allowed (elim r.origin [ none ↦ [] | some o ↦ o ])), blobs)
      else if r.is_options
      then (no_content, blobs)
      else route r r.target now blobs

  -- The requests of a run of the server, each with the time at which it comes.
  unfoldable pub serve : List (Request × ℕ) → Blobs → Blobs
  unfolding handle
  serve [] blobs = blobs
  serve ((r, now) ∷ rest) blobs = serve rest (handle r now blobs).1
