-- ===== src/Tests/RoutesExamples.antt =====
-- The theorems on the routes of api/, and on its header before the blob server, at concrete inputs.
use nostr_mesh.Prelude.{◌≡◌, refl, ap, true, false, Option, none, some, List, [], ◌∷◌, ◌++◌}
use nostr_mesh.Prelude.Text.{Str, codes, trim, to_lower_case, is_hex_lower, is_hash_lower}
use nostr_mesh.Prelude.Result.{Result, ok, err}
use nostr_mesh.Prelude.Bytes.{Bytes, from_hex}
use nostr_mesh.Nostr.{Event}
use nostr_mesh.Api.Failure.{Failure}
use nostr_mesh.Api.Hex.{hex_to_bytes}
use nostr_mesh.Api.Hex.Laws.{hex_to_bytes-is_hash}
use nostr_mesh.Api.Crypto.{decrypt_blob, frame}
use nostr_mesh.Api.Metadata.Laws.{parse-build}
use nostr_mesh.Api.Metadata.{parse_metadata_event}
use nostr_mesh.Api.Metadata.Record.{BlobMetadata}
use nostr_mesh.Api.NostrClient.{
  dedupe_events, sort_newest, insert_newest, collect, holds_key, publish_event,
}
use nostr_mesh.Api.Network.{Network, answered, threw, no_response}
use nostr_mesh.Api.BlossomClient.{upload, auth_template, build_auth_header, read_download}
use nostr_mesh.Api.BlossomClient.Requests.{download_blob}
use nostr_mesh.Api.Config.{ApiConfig}
use nostr_mesh.Api.Routes.Blobs.{
  Draws, Reply, deleted, sent, normalize_hash, fetch_events, resolve_metadata, or_else,
  octet_stream, is_deleted, send_blob, publish, download, mark_deleted, delete_blob,
}
use nostr_mesh.Api.Routes.Laws.{Downloaded, download-Downloaded}
use nostr_mesh.Tests.Instances.{plain, platform}
use nostr_mesh.Tests.ApiExamples.{
  iv, key, hash, content, sealed, metadata, signed, erased, built, buried, hash-is_hash,
}

abbrev header : Str
header =
    codes "Nostr "
    ++ platform.base64.to_base64 (
        platform.json.stringify_event (
          platform.signer.finalize_event (auth_template platform 100 upload (codes "Upload") 60)
            (from_hex hash)))

-- One relay that keeps what it is sent, and a blob server that holds one blob.
abbrev network : Network
network = record {
  World = List Event;
  put = λ url auth payload w. (threw no_response, w);
  get = λ url auth w. (
    answered (record { status = 200; x_reason = []; status_text = []; body = sealed.ciphertext }),
    w,
  );
  head = λ url auth w. (threw no_response, w);
  publish = λ urls event w. (true ∷ [], event ∷ w);
  query_sync = λ urls filter w. (ok w, w);
}

abbrev config : ApiConfig
config = record {
  port = none;
  relay_urls = codes "ws://relay" ∷ [];
  blossom_url = codes "http://localhost:3000";
  blossom_public_url = codes "http://localhost:3000";
  nostr_secret_key = hash;
}

abbrev draws : Draws
draws = record {
  random_key = key;
  blob_iv = iv;
  metadata_iv = iv;
  auth_time = 300;
  uploaded_at = 300;
  event_time = 300;
}

abbrev kept : List Event
kept = signed metadata 200 ∷ []

normalized : normalize_hash hash ≡ ok hash
unfolding normalize_hash is_hash_lower is_hex_lower trim to_lower_case
normalized = refl

read_back : parse_metadata_event platform (signed metadata 200) hash ≡ ok metadata
read_back = parse-build platform 200 iv metadata hash (signed metadata 200) refl built

deduped : dedupe_events kept ≡ kept
unfolding dedupe_events sort_newest insert_newest collect holds_key
deduped = refl

abbrev shown : Result Failure BlobMetadata → Result Failure (Option BlobMetadata)
shown r = elim r [ ok metadata ↦ ok (some metadata) | err failure ↦ err failure ]

resolved_one :
    (event : Event) (m : BlobMetadata)
    → dedupe_events (event ∷ []) ≡ event ∷ []
    → parse_metadata_event platform event hash ≡ ok m
    → resolve_metadata platform network config hash (event ∷ []) ≡ (ok (some m), event ∷ [])
unfolding resolve_metadata fetch_events
resolved_one event m alone read = rw alone (ap (λ r. (shown r, event ∷ [])) read)

resolved : resolve_metadata platform network config hash kept ≡ (ok (some metadata), kept)
resolved = resolved_one (signed metadata 200) metadata deduped read_back

decrypted : decrypt_blob plain sealed.ciphertext hash ≡ ok content
unfolding decrypt_blob from_hex frame
decrypted = refl

sent_one :
    (m : BlobMetadata) (w : List Event) (secret blob : Bytes)
    → hex_to_bytes hash ≡ ok secret
    → decrypt_blob plain sealed.ciphertext m.encryption_key ≡ ok blob
    → send_blob platform network config 300 hash m w
      ≡ (ok (sent (or_else m.type octet_stream) m.name blob), w)
unfolding send_blob download_blob build_auth_header read_download
sent_one m w secret blob decoded opened = rw (decoded, opened) refl

downloaded_one :
    (m : BlobMetadata) (w : List Event) (answer : Result Failure Reply)
    → normalize_hash hash ≡ ok hash
    → resolve_metadata platform network config hash w ≡ (ok (some m), w)
    → is_deleted platform network config m ≡ false
    → send_blob platform network config 300 hash m w ≡ (answer, w)
    → download platform network config 300 hash w ≡ (answer, w)
unfolding download
downloaded_one m w answer well found there done = rw (well, found, there) done

downloaded :
    download platform network config 300 hash kept
    ≡ (ok (sent (codes "text/plain") (codes "a.txt") content), kept)
downloaded = downloaded_one metadata kept _ normalized resolved refl (
    sent_one metadata kept (from_hex hash) content (hex_to_bytes-is_hash hash hash-is_hash)
      decrypted)

abbrev buried_event : Event
buried_event = signed erased 300

deleted_one :
    delete_blob platform network config draws hash kept
    ≡ (ok (deleted hash buried_event.id), buried_event ∷ kept)
unfolding delete_blob mark_deleted publish publish_event
deleted_one = rw (normalized, resolved, buried) refl

download-Downloaded_example :
    Downloaded platform network config 300 hash kept (codes "a.txt") content
download-Downloaded_example =
    download-Downloaded platform network config 300 hash kept kept (codes "text/plain")
      (codes "a.txt") content downloaded
