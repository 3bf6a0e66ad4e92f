-- ===== src/Tests/ApiExamples.antt =====
-- The theorems on api/ at concrete inputs.
use nostr_mesh.Prelude.{ℕ, ◌≡◌, refl, true, none, some, List, [], ◌∷◌, ◌++◌, arith, All}
use nostr_mesh.Prelude.Text.{Str, codes, ◌===◌, starts_with, trim, to_lower_case, is_hex, is_hash}
use nostr_mesh.Prelude.Bytes.{Bytes, IsByte, from_hex, to_hex}
use nostr_mesh.Prelude.Result.{ok}
use nostr_mesh.Nostr.{Event, find_tag}
use nostr_mesh.Api.Crypto.{EncryptedBlob, encrypt_blob, decrypt_blob, frame}
use nostr_mesh.Api.Crypto.Laws.{decrypt-encrypt}
use nostr_mesh.Api.Hex.Laws.{hex_to_bytes-is_hash}
use nostr_mesh.Api.Metadata.Record.{whole, BlobMetadata}
use nostr_mesh.Api.Metadata.{
  is_http_url, validate_metadata, build_metadata_event, build_soft_delete_event,
  parse_metadata_event, metadata_template,
}
use nostr_mesh.Api.Metadata.Validation.{IsValid, validate_metadata_iff}
use nostr_mesh.Api.Metadata.Laws.{parse-build}
use nostr_mesh.Api.NostrClient.{dedupe_events, dedupe_key}
use nostr_mesh.Api.NostrClient.Laws.{find_key, newest, find_key-dedupe}
use nostr_mesh.Api.NostrClient.Keys.{AllKeyed}
use nostr_mesh.Tests.Instances.{plain, platform}

abbrev pub iv : Bytes
iv = 1 ∷ 2 ∷ 3 ∷ 4 ∷ 5 ∷ 6 ∷ 7 ∷ 8 ∷ 9 ∷ 10 ∷ 11 ∷ 12 ∷ []

abbrev pub key : Bytes
key = iv ++ (iv ++ (1 ∷ 2 ∷ 3 ∷ 4 ∷ 5 ∷ 6 ∷ 7 ∷ 255 ∷ []))

abbrev pub hash : Str
hash = codes "00112233445566778899aabbccddeeff00112233445566778899aabbccddeeff"

abbrev pub content : Bytes
content = 104 ∷ 105 ∷ []

abbrev pub sealed : EncryptedBlob
sealed = record { ciphertext = frame plain 1 key iv content; encryption_key = to_hex key }

key-IsByte : All IsByte key
key-IsByte = omega arith

encrypted : encrypt_blob plain key iv content none ≡ ok sealed
unfolding encrypt_blob
encrypted = refl

decrypt-encrypt_example : decrypt_blob plain sealed.ciphertext sealed.encryption_key ≡ ok content
decrypt-encrypt_example = decrypt-encrypt plain key iv content none sealed key-IsByte refl encrypted

abbrev pub metadata : BlobMetadata
metadata = record {
  name = codes "a.txt";
  hash = hash;
  size = whole 2;
  type = codes "text/plain";
  folder = codes "/";
  uploaded_at = 100;
  server = codes "http://localhost:3000";
  encryption_key = hash;
  deleted = none;
}

checked : validate_metadata metadata ≡ ok tt
unfolding validate_metadata ◌===◌ trim is_hash is_hex starts_with is_http_url to_lower_case
checked = refl

valid : IsValid metadata
valid = (validate_metadata_iff metadata).0 checked

pub hash-is_hash : is_hash hash ≡ true
unfolding is_hash is_hex
hash-is_hash = refl

abbrev pub signed : BlobMetadata → ℕ → Event
signed m now =
    platform.signer.finalize_event (metadata_template platform now iv m hash) (from_hex hash)

pub built : build_metadata_event platform 200 iv metadata hash ≡ ok (signed metadata 200)
unfolding build_metadata_event
built = rw (checked, hex_to_bytes-is_hash hash hash-is_hash) refl

parse-build_example : parse_metadata_event platform (signed metadata 200) hash ≡ ok metadata
parse-build_example = parse-build platform 200 iv metadata hash (signed metadata 200) refl built

abbrev pub erased : BlobMetadata
erased = record metadata { deleted = some true; uploaded_at = 300 }

pub checked_again : validate_metadata erased ≡ ok tt
unfolding validate_metadata ◌===◌ trim is_hash is_hex starts_with is_http_url to_lower_case
checked_again = refl

pub buried : build_soft_delete_event platform 300 iv metadata hash ≡ ok (signed erased 300)
unfolding build_soft_delete_event build_metadata_event
buried = rw (checked_again, hex_to_bytes-is_hash hash hash-is_hash) refl

decrypted : decrypt_blob plain sealed.ciphertext sealed.encryption_key ≡ ok content
unfolding decrypt_blob from_hex to_hex frame
decrypted = refl

abbrev note : Str → ℕ → Event
note id created_at = record {
  id = id;
  pubkey = codes "author";
  created_at = created_at;
  kind = 34578;
  tags = (codes "d" ∷ hash ∷ []) ∷ [];
  content = [];
  sig = codes "sig";
}

abbrev notes : List Event
notes = note (codes "old") 1 ∷ note (codes "new") 3 ∷ note (codes "middle") 2 ∷ []

find_key-dedupe_example :
    find_key (codes "d:" ++ hash) (dedupe_events notes) ≡ newest (codes "d:" ++ hash) notes
find_key-dedupe_example = find_key-dedupe (codes "d:" ++ hash) notes

notes-AllKeyed : AllKeyed (codes "d:" ++ hash) notes
unfolding dedupe_key find_tag ◌===◌
notes-AllKeyed = (refl, (refl, (refl, tt)))
