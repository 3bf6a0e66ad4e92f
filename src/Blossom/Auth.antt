-- ===== src/Blossom/Auth.antt =====
-- `parseAuthEvent` of blossom/src/server.ts: who may upload and read. The clock, in seconds, is an
-- argument; nostr-tools, base64 and JSON are parameters.
pub mod Laws
use nostr_mesh.Prelude.{
  ℕ, zero, suc, ◌+◌, ◌-◌, ◌*◌, ◌/◌, ◌%◌, ◌^◌, ◌≤◌, ◌<◌, ◌≡◌, refl, sym, ap, subst, ◌∙◌, ◌≢◌, ◌↔◌,
  ◌⊎◌, inl, inr, Bool, true, false, not, ◌&&◌, ◌||◌, Option, none, some, List, [], ◌∷◌, ◌++◌, map,
  arith, ltb, leb, ◌==◌, if◌then◌else◌, ltb→lt, lt→ltb, leb→le, le_of_not_ltb, eq_of_not_ne,
  ==_refl, lt_of_le, ==_iff, &&_parts, Bool-cases, Option-cases, length, get_elem?, take, drop,
  length-append, length-drop, take-append, drop-append, any, all, find, All,
}
use nostr_mesh.Prelude.Text.{
  Str, codes, ◌===◌, ===_iff, ===_refl, starts_with, includes, is_space, trim, to_lower_case,
  is_hex, is_hash, is_hex_lower, is_hash_lower, is_hash_parts, is_hash_lower_parts,
}
use nostr_mesh.Prelude.Result.{
  Result, ok, err, ◌>>=◌, ◌>>◌, throw_if, throw_if-eq-ok, >>=-eq-ok, >>=-ok, ok-injective,
}
use nostr_mesh.Prelude.Bytes.{
  Bytes, IsByte, hex_value, hex_digit, from_hex, to_hex, from_hex-to_hex, from_hex-IsByte,
  length-to_hex, to_hex-is_hash_lower, is_hash_of_lower,
}
use nostr_mesh.Prelude.Number.{ℤ, pos, negsuc, parse_int}
use nostr_mesh.Nostr.{AuthEvent, Tag, find_tag, Signer, Base64, EventJson}
use nostr_mesh.Blossom.Config.{BlossomConfig}

pub data AuthVerb : Type 0 where
  upload get : AuthVerb

abbrev pub verb_text : AuthVerb → Str
verb_text upload = codes "upload"
verb_text get = codes "get"

-- What the server throws as an `HttpError`, with the values that the message shows.
pub data HttpError : Type 0 where
  missing_header not_base64_json wrong_kind missing_fields bad_signature : HttpError
  wrong_verb : AuthVerb → HttpError
  no_expiration expired invalid_hash empty_body not_found : HttpError
  origin_not_allowed : Str → HttpError

abbrev pub error_status : HttpError → ℕ
error_status (wrong_verb _) = 403
error_status (origin_not_allowed _) = 403
error_status invalid_hash = 400
error_status empty_body = 400
error_status not_found = 404
error_status _ = 401

-- `if (!field)`: missing, or an empty text.
abbrev pub is_present : Option Str → Bool
is_present none = false
is_present (some []) = false
is_present (some (c ∷ cs)) = true

abbrev pub text_of : Option Str → Str
text_of none = []
text_of (some s) = s

abbrev pub header_value : Option Str → Result HttpError Str
header_value none = err missing_header
header_value (some value) =
    if starts_with value (codes "Nostr ") then ok (trim (drop 6 value)) else err missing_header

abbrev pub parsed : Option AuthEvent → Result HttpError AuthEvent
parsed none = err not_base64_json
parsed (some event) = ok event

abbrev tag_is : Option Str → Str → Bool
tag_is none s = false
tag_is (some t) s = t === s

-- `expirationValue ? Number.parseInt(expirationValue, 10) : NaN`, with NaN as `none`.
abbrev pub expiration_of : Option Str → Option ℤ
expiration_of none = none
expiration_of (some []) = none
expiration_of (some (c ∷ cs)) = parse_int (c ∷ cs)

-- The numbers from here on are read as Infinity: the greatest double and half of its last place.
unfoldable pub infinite_from : ℕ
infinite_from = 2 ^ 1024 - 2 ^ 970

-- `Number.isFinite` of a number that was read.
abbrev pub is_finite : ℤ → Bool
is_finite (pos n) = ltb n infinite_from
is_finite (negsuc n) = ltb (suc n) infinite_from

abbrev pub finite : Option ℤ → Result HttpError ℤ
finite none = err no_expiration
finite (some e) = if is_finite e then ok e else err no_expiration

-- `expiration < now - skew`.
abbrev pub is_before : ℤ → ℕ → ℕ → Bool
is_before (pos e) now skew = ltb (e + skew) now
is_before (negsuc k) now skew = ltb skew (now + k + 1)

module _ (signer : Signer) (base64 : Base64) (json : EventJson) where
  -- The checks on the event, after it was decoded.
  unfoldable pub check_event : BlossomConfig → AuthEvent → AuthVerb → ℕ → Result HttpError Str
  check_event config event expected_verb now = do
    throw_if (not (event.kind == 24242)) wrong_kind
    throw_if (not (is_present event.id && is_present event.sig && is_present event.pubkey))
        missing_fields
    throw_if (not (signer.verify_event event)) bad_signature
    throw_if (not (tag_is (find_tag event.tags (codes "t")) (verb_text expected_verb)))
        (wrong_verb expected_verb)
    expiration ← finite (expiration_of (find_tag event.tags (codes "expiration")))
    throw_if (is_before expiration now config.max_clock_skew_seconds) expired
    ok (text_of event.pubkey)

  unfoldable pub read_event : Option Str → Result HttpError AuthEvent
  read_event header = do
    encoded ← header_value header
    parsed (json.parse_event (base64.from_base64 encoded))

  unfoldable pub parse_auth_event : BlossomConfig → Option Str → AuthVerb → ℕ → Result HttpError Str
  parse_auth_event config header expected_verb now =
      if not config.require_auth
      then ok (codes "anonymous")
      else do event ← read_event header; check_event config event expected_verb now
