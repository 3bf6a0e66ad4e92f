-- ===== src/Tests/BlossomExamples.antt =====
-- The theorems on blossom/ at concrete inputs.
use nostr_mesh.Prelude.{
  ℕ, ◌≡◌, refl, sym, ap, ◌∙◌, ◌≢◌, ◌↔◌, inl, inr, true, false, Option, none, some, [], ◌∷◌, ◌++◌,
  arith, if◌then◌else◌, Bool-cases,
}
use nostr_mesh.Prelude.Text.{Str, codes, ◌===◌, ===_iff, ===_refl, is_hex_lower, is_hash_lower}
use nostr_mesh.Prelude.Bytes.{Bytes}
use nostr_mesh.Prelude.Result.{ok}
use nostr_mesh.Nostr.{Event, AuthEvent}
use nostr_mesh.Blossom.Config.{BlossomConfig, default_config}
use nostr_mesh.Blossom.Auth.{get, missing_header, text_of, read_event, parse_auth_event}
use nostr_mesh.Blossom.Auth.Laws.{Accepted, parse_auth_event_iff}
use nostr_mesh.Blossom.Server.{
  lookup, buffer, put_upload, Request, uploaded, blob, put, get_content, handle, serve, write_new,
}
use nostr_mesh.Blossom.Server.Laws.{ContentAddressed, serve-ContentAddressed}
use nostr_mesh.Blossom.Server.Access.{Refused, handle-Refused, get-put}
use nostr_mesh.Tests.Instances.{notary, shifted, numbers}

abbrev hash_a : Str
hash_a = codes "00112233445566778899aabbccddeeff00112233445566778899aabbccddeeff"

abbrev hash_b : Str
hash_b = codes "11112233445566778899aabbccddeeff00112233445566778899aabbccddeeff"

abbrev hi : Bytes
hi = 104 ∷ 105 ∷ []

-- Stands for SHA-256: one content has the first hash, all others the second.
abbrev digest : Bytes → Str
digest bs = if bs === hi then hash_a else hash_b

hash_a-is_hash_lower : is_hash_lower hash_a ≡ true
unfolding is_hash_lower is_hex_lower
hash_a-is_hash_lower = refl

hash_b-is_hash_lower : is_hash_lower hash_b ≡ true
unfolding is_hash_lower is_hex_lower
hash_b-is_hash_lower = refl

digest-is_hash_lower : (bs : Bytes) → is_hash_lower (digest bs) ≡ true
digest-is_hash_lower bs = elim (Bool-cases (bs === hi)) [
  | inl same ↦ rw same hash_a-is_hash_lower
  | inr other ↦ rw other hash_b-is_hash_lower
]

abbrev first_of : Str → ℕ
first_of (a ∷ b ∷ c ∷ _) = a
first_of _ = 0

first_apart : (a b : ℕ) → a ≡ 49 → b ≡ 48 → a ≢ b
first_apart a b p q h = absurd (omega arith)

apart : hash_b ≢ hash_a
apart h = first_apart (first_of hash_b) (first_of hash_a) refl refl (ap first_of h)

digest_free : (other : Bytes) → digest other ≡ digest hi → other ≡ hi
unfolding ◌===◌
digest_free other h = elim (Bool-cases (other === hi)) [
  | inl same ↦ (===_iff other hi).0 same
  | inr differs ↦ absurd (apart (sym (rw differs refl) ∙ h))
]

abbrev note : Str → Event
note verb =
    notary.finalize_event
      (record {
        kind = 24242;
        created_at = 1000;
        content = [];
        tags = (codes "t" ∷ verb ∷ []) ∷ (codes "expiration" ∷ codes "1300" ∷ []) ∷ [];
      })
      []

-- The first requests after the start: an upload without a header, at two times.
abbrev knocking : Request
knocking = record {
  origin = none;
  is_options = false;
  authorization = none;
  target = put_upload (buffer hi);
}

abbrev open_config : BlossomConfig
open_config = record default_config { require_auth = false }

nothing-ContentAddressed : ContentAddressed digest []
nothing-ContentAddressed = tt

serve-ContentAddressed_example :
    ContentAddressed digest
      (serve notary shifted numbers digest open_config ((knocking, 5) ∷ (knocking, 6) ∷ []) [])
serve-ContentAddressed_example =
    serve-ContentAddressed notary shifted numbers digest open_config
      ((knocking, 5) ∷ (knocking, 6) ∷ []) [] nothing-ContentAddressed

found : lookup hash_a ((hash_a, hi) ∷ []) ≡ some hi
unfolding lookup
found = rw (===_refl hash_a) refl

refused : Refused notary shifted numbers digest default_config none 5
unfolding parse_auth_event read_event
refused = (missing_header, refl)

handle-Refused_example : (handle notary shifted numbers digest default_config knocking 5 []).1 ≡ []
handle-Refused_example =
    handle-Refused notary shifted numbers digest default_config knocking 5 [] refused

abbrev header : Option Str
header = some (codes "Nostr " ++ shifted.to_base64 (numbers.stringify_event (note (codes "get"))))

parse_auth_event_iff_example :
    (parse_auth_event notary shifted numbers default_config header get 1010 ≡ ok (codes "key")) ↔ (
      (event : AuthEvent) × (read_event notary shifted numbers header ≡ ok event)
      × Accepted notary default_config get 1010 event
      × (codes "key" ≡ text_of event.pubkey))
parse_auth_event_iff_example =
    parse_auth_event_iff notary shifted numbers default_config header get 1010 (codes "key") refl

put_ok :
    put notary shifted numbers digest open_config none (buffer hi) 5 []
    ≡ (uploaded hash_a 2 (codes "http://localhost:3000/" ++ hash_a), (hash_a, hi) ∷ [])
unfolding put parse_auth_event write_new lookup ◌===◌
put_ok = refl

let_in : parse_auth_event notary shifted numbers open_config none get 9 ≡ ok (codes "anonymous")
unfolding parse_auth_event
let_in = refl

get-put_example :
    (hash_a ≡ digest hi)
    × (get_content notary shifted numbers digest open_config none hash_a 9
          (serve notary shifted numbers digest open_config ((knocking, 6) ∷ []) ((hash_a, hi) ∷ []))
        ≡ blob hi)
get-put_example =
    get-put notary shifted numbers digest open_config none hi 5 [] ((hash_a, hi) ∷ []) hash_a
      (codes "http://localhost:3000/" ++ hash_a) 2 ((knocking, 6) ∷ []) none (codes "anonymous") 9
      digest-is_hash_lower digest_free nothing-ContentAddressed put_ok let_in
