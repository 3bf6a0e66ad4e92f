-- ===== src/Api/Routes/Blobs.antt =====
-- The handlers of api/src/routes/blobs.ts and api/src/routes/events.ts as actions on the network,
-- and `next(error)`, which the error handler of api/src/index.ts answers by 500.
use nostr_mesh.Prelude.{
  ℕ, Bool, true, false, Option, none, some, List, [], ◌∷◌, ◌++◌, if◌then◌else◌,
}
use nostr_mesh.Prelude.Text.{Str, codes, ◌===◌, trim, to_lower_case, is_hash_lower}
use nostr_mesh.Prelude.Bytes.{Bytes}
use nostr_mesh.Prelude.Result.{Result, ok, err}
use nostr_mesh.Nostr.{Event}
use nostr_mesh.Api.Failure.{Failure, invalid_hash}
use nostr_mesh.Api.Crypto.{encrypt_blob, decrypt_blob}
use nostr_mesh.Api.Metadata.Record.{whole, BlobMetadata}
use nostr_mesh.Api.Metadata.{
  build_metadata_event, build_soft_delete_event, parse_metadata_event, metadata_filter_by_hash,
}
use nostr_mesh.Api.Platform.{Platform}
use nostr_mesh.Api.Network.{Network, Action, lift, call, ◌>>=◌, ◌>>◌, Filter, by_hash, by_ids}
use nostr_mesh.Api.NostrClient.{dedupe_events, publish_event}
use nostr_mesh.Api.BlossomClient.{BlossomClient, new_client}
use nostr_mesh.Api.BlossomClient.Requests.{upload_blob, download_blob}
use nostr_mesh.Api.Config.{ApiConfig}

pub record UploadedFile : Type 0 where
  pub buffer : Bytes
  pub original_name : Str
  pub size : ℕ
  pub mimetype : Str

pub data Reply : Type 0 where
  created : Str → Str → Str → BlobMetadata → Reply
  resolved : BlobMetadata → Str → Reply
  sent : Str → Str → Bytes → Reply
  deleted : Str → Str → Reply
  one_event : Event → Reply
  events : List Event → Reply
  missing_file metadata_not_found metadata_deleted blob_not_found event_not_found : Reply
  missing_hash invalid_hash_format : Reply
  failed : Failure → Reply

-- `res.status(…)`; the handlers that set none answer 200.
abbrev pub status : Reply → ℕ
status (created _ _ _ _) = 201
status missing_file = 400
status missing_hash = 400
status invalid_hash_format = 400
status metadata_not_found = 404
status blob_not_found = 404
status event_not_found = 404
status metadata_deleted = 410
status (failed _) = 500
status _ = 200

-- `try { … } catch (error) { next(error) }`.
abbrev pub caught : Result Failure Reply → Reply
caught (ok reply) = reply
caught (err failure) = failed failure

abbrev pub handled : {W : Type 0} → Action W Reply → W → Reply × W
handled action w = let (r, w') = action w in (caught r, w')

abbrev hash_or_throw : Str → Bool → Result Failure Str
hash_or_throw hash true = ok hash
hash_or_throw hash false = err invalid_hash

unfoldable pub normalize_hash : Str → Result Failure Str
normalize_hash hash =
    let normalized = to_lower_case (trim hash) in
    hash_or_throw normalized (is_hash_lower normalized)

-- `text || fallback`.
abbrev pub or_else : Str → Str → Str
or_else [] b = b
or_else (c ∷ cs) b = c ∷ cs

-- The folder of the form, or the root where it is no text or blank.
unfoldable pub choose_folder : Option Str → Str
choose_folder none = codes "/"
choose_folder (some folder) = if trim folder === [] then codes "/" else folder

abbrev pub octet_stream : Str
octet_stream = codes "application/octet-stream"

unfoldable pub download_url : Str → Str
download_url hash = codes "/blobs/" ++ (hash ++ codes "/download")

-- The random bytes that a request draws and the times at which it reads the clock, in seconds.
pub record Draws : Type 0 where
  pub random_key : Bytes
  pub blob_iv : Bytes
  pub metadata_iv : Bytes
  pub auth_time : ℕ
  pub uploaded_at : ℕ
  pub event_time : ℕ

abbrev pub first : List Event → Option Event
first [] = none
first (e ∷ _) = some e

module _ (p : Platform) (net : Network) (config : ApiConfig) where
  open net use {World}

  abbrev pub client : BlossomClient
  client = new_client config.blossom_url config.nostr_secret_key

  -- `publishEvent` and `fetchEvents` of api/src/nostr/client.ts.
  unfoldable pub publish : Event → Action World (Unit {0})
  publish event = do
    outcomes ← call (net.publish config.relay_urls event)
    lift (publish_event outcomes)

  unfoldable pub fetch_events : Filter → Action World (List Event)
  fetch_events filter = do
    found ← net.query_sync config.relay_urls filter
    lift (ok (dedupe_events found))

  unfoldable pub fetch_event_by_id : Str → Action World (Option Event)
  fetch_event_by_id event_id = do
    found ← fetch_events (by_ids (event_id ∷ []) 1)
    lift (ok (first found))

  abbrev pub parse_first : Option Event → Result Failure (Option BlobMetadata)
  parse_first none = ok none
  parse_first (some event) = elim (parse_metadata_event p event config.nostr_secret_key) [
    | ok metadata ↦ ok (some metadata)
    | err failure ↦ err failure
  ]

  unfoldable pub resolve_metadata : Str → Action World (Option BlobMetadata)
  resolve_metadata hash = do
    found ← fetch_events (by_hash (metadata_filter_by_hash hash))
    lift (parse_first (first found))

  unfoldable pub new_metadata : Draws → UploadedFile → Option Str → Str → Str → BlobMetadata
  new_metadata draws file folder sha256 encryption_key = record {
    name = file.original_name;
    hash = sha256;
    size = whole file.size;
    type = or_else file.mimetype octet_stream;
    folder = choose_folder folder;
    uploaded_at = draws.uploaded_at;
    server = config.blossom_public_url;
    encryption_key = encryption_key;
    deleted = none;
  }

  unfoldable pub store_file : Draws → UploadedFile → Option Str → Action World Reply
  store_file draws file folder = do
    encrypted ← lift (encrypt_blob p.aead draws.random_key draws.blob_iv file.buffer none)
    uploaded ← upload_blob p net client draws.auth_time encrypted.ciphertext file.original_name
    let metadata = new_metadata draws file folder uploaded.sha256 encrypted.encryption_key
    event ←
        lift (
          build_metadata_event p draws.event_time draws.metadata_iv metadata
            config.nostr_secret_key)
    publish event
    lift (ok (created event.id metadata.hash (download_url metadata.hash) metadata))

  -- POST /blobs
  unfoldable pub post_blob : Draws → Option UploadedFile → Option Str → Action World Reply
  post_blob draws none folder = lift (ok missing_file)
  post_blob draws (some file) folder = store_file draws file folder

  -- `metadata.deleted` is true.
  abbrev pub is_deleted : BlobMetadata → Bool
  is_deleted m = elim m.deleted [ none ↦ false | some b ↦ b ]

  abbrev show : Str → Option BlobMetadata → Reply
  show hash none = metadata_not_found
  show hash (some m) = if is_deleted m then metadata_deleted else resolved m (download_url hash)

  -- GET /blobs/:hash
  unfoldable pub get_blob : Str → Action World Reply
  get_blob param = do
    hash ← lift (normalize_hash param)
    metadata ← resolve_metadata hash
    lift (ok (show hash metadata))

  unfoldable pub send_blob : ℕ → Str → BlobMetadata → Action World Reply
  send_blob now hash metadata = do
    payload ← download_blob p net client now hash
    decrypted ← lift (decrypt_blob p.aead payload metadata.encryption_key)
    lift (ok (sent (or_else metadata.type octet_stream) metadata.name decrypted))

  abbrev pub send_found : ℕ → Str → Option BlobMetadata → Action World Reply
  send_found now hash none = lift (ok blob_not_found)
  send_found now hash (some m) =
      if is_deleted m then lift (ok blob_not_found) else send_blob now hash m

  -- GET /blobs/:hash/download
  unfoldable pub download : ℕ → Str → Action World Reply
  download now param = do
    hash ← lift (normalize_hash param)
    metadata ← resolve_metadata hash
    send_found now hash metadata

  unfoldable pub mark_deleted : Draws → Str → BlobMetadata → Action World Reply
  mark_deleted draws hash metadata = do
    event ← lift (
        build_soft_delete_event p draws.event_time draws.metadata_iv metadata
          config.nostr_secret_key)
    publish event
    lift (ok (deleted hash event.id))

  abbrev pub delete_found : Draws → Str → Option BlobMetadata → Action World Reply
  delete_found draws hash none = lift (ok metadata_not_found)
  delete_found draws hash (some m) = mark_deleted draws hash m

  -- DELETE /blobs/:hash
  unfoldable pub delete_blob : Draws → Str → Action World Reply
  delete_blob draws param = do
    hash ← lift (normalize_hash param)
    metadata ← resolve_metadata hash
    delete_found draws hash metadata

  abbrev show_event : Option Event → Reply
  show_event none = event_not_found
  show_event (some e) = one_event e

  -- GET /events/:eventId
  unfoldable pub get_event : Str → Action World Reply
  get_event event_id = do event ← fetch_event_by_id event_id; lift (ok (show_event event))

  unfoldable pub query_events : Str → Action World Reply
  query_events hash = do
    found ← fetch_events (by_hash (metadata_filter_by_hash hash))
    lift (ok (events found))

  abbrev list_normalized : Str → Action World Reply
  list_normalized [] = lift (ok missing_hash)
  list_normalized (c ∷ cs) =
      if is_hash_lower (c ∷ cs) then query_events (c ∷ cs) else lift (ok invalid_hash_format)

  -- GET /events?hash=…; a query that is no text counts as an empty one.
  unfoldable pub list_events : Option Str → Action World Reply
  list_events none = list_normalized []
  list_events (some hash) = list_normalized (to_lower_case (trim hash))
