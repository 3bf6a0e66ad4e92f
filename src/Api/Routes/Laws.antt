-- ===== src/Api/Routes/Laws.antt =====
-- The handlers of api/src/routes/blobs.ts: what they answer to a text that is no hash, and what has
-- happened when they answer that a blob was sent or deleted.
use nostr_mesh.Prelude.{
  ℕ, ◌≡◌, refl, ap, ◌∙◌, Bool, true, false, Option, none, some, List, arith, if◌then◌else◌, any,
}
use nostr_mesh.Prelude.Text.{Str, trim, to_lower_case, is_hash_lower}
use nostr_mesh.Prelude.Result.{Result, ok, err, ok-injective}
use nostr_mesh.Nostr.{Event}
use nostr_mesh.Prelude.Bytes.{Bytes}
use nostr_mesh.Api.Failure.{Failure, invalid_hash}
use nostr_mesh.Api.Crypto.{decrypt_blob}
use nostr_mesh.Api.Metadata.Record.{BlobMetadata}
use nostr_mesh.Api.Metadata.{build_soft_delete_event, parse_metadata_event, metadata_filter_by_hash}
use nostr_mesh.Api.Platform.{Platform}
use nostr_mesh.Api.Network.{Network, Action, by_hash, lift}
use nostr_mesh.Api.Network
use nostr_mesh.Api.NostrClient.{dedupe_events, publish_event}
use nostr_mesh.Api.BlossomClient.Requests.{download_blob}
use nostr_mesh.Api.Config.{ApiConfig}
use nostr_mesh.Api.Routes.Blobs.{
  Draws, Reply, deleted, sent, failed, normalize_hash, client, first, handled, parse_first,
  is_deleted, publish, fetch_events, resolve_metadata, get_blob, send_blob, send_found, download,
  blob_not_found, mark_deleted, delete_found, delete_blob,
}

normalize_hash_malformed :
    (param : Str)
    → is_hash_lower (to_lower_case (trim param)) ≡ false
    → normalize_hash param ≡ err invalid_hash
unfolding normalize_hash
normalize_hash_malformed param bad = rw bad refl

module _ (p : Platform) (net : Network) (config : ApiConfig) where
  -- A text that is no hash is answered by the failure of all three handlers of a blob, before
  -- anything is asked of the relays or of the blob server.
  pub malformed_hash :
      (param : Str) (now : ℕ) (draws : Draws) (w : net.World)
      → is_hash_lower (to_lower_case (trim param)) ≡ false
      → (handled (get_blob p net config param) w ≡ (failed invalid_hash, w))
        × (handled (download p net config now param) w ≡ (failed invalid_hash, w))
        × (handled (delete_blob p net config draws param) w ≡ (failed invalid_hash, w))
  unfolding get_blob download delete_blob
  malformed_hash param now draws w bad = rw (normalize_hash_malformed param bad) (refl, refl, refl)

  -- What the relays knew of a hash: the newest event of their answer, which its fields identify.
  pub record Found (hash : Str) (w : net.World) (m : BlobMetadata) : Type 0 where
    pub events : List Event
    pub event : Event
    pub asked :
        (net.query_sync config.relay_urls (by_hash (metadata_filter_by_hash hash)) w).0 ≡ ok events
    pub newest : first (dedupe_events events) ≡ some event
    pub parsed : parse_metadata_event p event config.nostr_secret_key ≡ ok m

  parsed_to :
      (event : Event) (r : Result Failure BlobMetadata) (m : BlobMetadata)
      → elim r [ ok metadata ↦ ok (some metadata) | err failure ↦ err failure ] ≡ ok (some m)
      → r ≡ ok m
  parsed_to event (ok metadata) m h = ap ok (cc (ok-injective h))
  parsed_to event (err failure) m h = cc h

  parse_first-eq-ok :
      (o : Option Event) (m : BlobMetadata)
      → parse_first p net config o ≡ ok (some m)
      → (event : Event) × (o ≡ some event)
        × (parse_metadata_event p event config.nostr_secret_key ≡ ok m)
  parse_first-eq-ok none m h = cc (ok-injective h)
  parse_first-eq-ok (some event) m h = (event, refl, parsed_to event _ m h)

  fetch_events-eq-ok :
      (filter : Network.Filter) (w : net.World) (found : List Event)
      → (fetch_events p net config filter w).0 ≡ ok found
      → (raw : List Event) × ((net.query_sync config.relay_urls filter w).0 ≡ ok raw)
        × (dedupe_events raw ≡ found)
  unfolding fetch_events
  fetch_events-eq-ok filter w found h =
      let (raw, asked, made) =
        Network.>>=-eq-ok (net.query_sync config.relay_urls filter) _ w _ found
          (ap (λ r. (r, (fetch_events p net config filter w).1)) h) in
      (raw, asked, ok-injective (ap (λ pair. pair.0) made))

  resolve_metadata-Found :
      (hash : Str) (w : net.World) (m : BlobMetadata)
      → (resolve_metadata p net config hash w).0 ≡ ok (some m)
      → Found hash w m
  unfolding resolve_metadata
  resolve_metadata-Found hash w m h =
      let (found, fetched, parsed) =
        Network.>>=-eq-ok (fetch_events p net config (by_hash (metadata_filter_by_hash hash))) _ w _
          (some m) (ap (λ r. (r, (resolve_metadata p net config hash w).1)) h) in
      let (raw, asked, deduped) = fetch_events-eq-ok _ w found fetched in
      let (event, newest, read) = parse_first-eq-ok (first found) m (ap (λ pair. pair.0) parsed) in
      record {
        events = raw;
        event = event;
        asked = asked;
        newest = rw deduped newest;
        parsed = read;
      }

  -- What has happened when a download is answered by a blob.
  pub record Downloaded (now : ℕ) (param : Str) (w : net.World) (name : Str) (blob : Bytes)
      : Type 0 where
    pub hash : Str
    pub metadata : BlobMetadata
    pub before : net.World
    pub payload : Bytes
    pub well_formed : normalize_hash param ≡ ok hash
    pub found : Found hash w metadata
    pub not_deleted : is_deleted p net config metadata ≡ false
    pub named : metadata.name ≡ name
    pub fetched : (download_blob p net (client p net config) now hash before).0 ≡ ok payload
    pub decrypted : decrypt_blob p.aead payload metadata.encryption_key ≡ ok blob

  if_kept :
      (gone : Bool) (k : Action net.World Reply) {w w' : net.World} {type name : Str} {blob : Bytes}
      → (if gone then lift (ok blob_not_found) else k) w ≡ (ok (sent type name blob), w')
      → (gone ≡ false) × (k w ≡ (ok (sent type name blob), w'))
  if_kept true k h = cc (ok-injective (ap (λ pair. pair.0) h))
  if_kept false k h = (refl, h)

  send_blob-eq-ok :
      (now : ℕ) (hash : Str) (m : BlobMetadata) (w w' : net.World) (type name : Str) (blob : Bytes)
      → send_blob p net config now hash m w ≡ (ok (sent type name blob), w')
      → (payload : Bytes) × ((download_blob p net (client p net config) now hash w).0 ≡ ok payload)
        × (decrypt_blob p.aead payload m.encryption_key ≡ ok blob)
        × (m.name ≡ name)
  unfolding send_blob
  send_blob-eq-ok now hash m w w' type name blob h =
      let (payload, fetched, rest) =
        Network.>>=-eq-ok (download_blob p net (client p net config) now hash) _ w w' _ h in
      let (bytes, decrypted, answer) =
        Network.>>=-eq-ok (lift (decrypt_blob p.aead payload m.encryption_key)) _ _ w' _ rest in
      let same = ok-injective (ap (λ pair. pair.0) answer) in
      (payload, fetched, decrypted ∙ ap ok (cc same), cc same)

  send_found-eq-ok :
      (now : ℕ) (hash : Str) (o : Option BlobMetadata) (w w' : net.World) (type name : Str)
      → (blob : Bytes) → send_found p net config now hash o w ≡ (ok (sent type name blob), w')
      → (m : BlobMetadata) × (o ≡ some m)
        × (is_deleted p net config m ≡ false)
        × (send_blob p net config now hash m w ≡ (ok (sent type name blob), w'))
  send_found-eq-ok now hash none w w' type name blob h = cc (ok-injective (ap (λ pair. pair.0) h))
  send_found-eq-ok now hash (some m) w w' type name blob h =
      let (kept, done) =
        if_kept (is_deleted p net config m) (send_blob p net config now hash m) h in
      (m, refl, kept, done)

  -- A download answers with a blob only if the path holds a hash, the newest event that the relays
  -- returned for it holds metadata of this name that is not deleted, the blob server gave a payload
  -- for the hash, and the blob is what that payload decrypts to under the key of the metadata.
  pub download-Downloaded :
      (now : ℕ) (param : Str) (w w' : net.World) (type name : Str) (blob : Bytes)
      → download p net config now param w ≡ (ok (sent type name blob), w')
      → Downloaded now param w name blob
  unfolding download
  download-Downloaded now param w w' type name blob h =
      let (hash, well, rest) = Network.>>=-eq-ok (lift (normalize_hash param)) _ w w' _ h in
      let (o, resolved, sending) =
        Network.>>=-eq-ok (resolve_metadata p net config hash) _ w w' _ rest in
      let (m, o_some, kept, done) = send_found-eq-ok now hash o _ w' type name blob sending in
      let (payload, fetched, decrypted, named) =
        send_blob-eq-ok now hash m _ w' type name blob done in
      record {
        hash = hash;
        metadata = m;
        before = (resolve_metadata p net config hash w).1;
        payload = payload;
        well_formed = well;
        found = resolve_metadata-Found hash w m (resolved ∙ ap ok o_some);
        not_deleted = kept;
        named = named;
        fetched = fetched;
        decrypted = decrypted;
      }

  -- What has happened when a deletion is answered by the identifier of an event.
  pub record Published (draws : Draws) (param : Str) (w w' : net.World) (id : Str) : Type 0 where
    pub hash : Str
    pub metadata : BlobMetadata
    pub event : Event
    pub before : net.World
    pub well_formed : normalize_hash param ≡ ok hash
    pub found : Found hash w metadata
    pub built :
        build_soft_delete_event p draws.event_time draws.metadata_iv metadata
          config.nostr_secret_key
        ≡ ok event
    pub accepted : any (λ b. b) (net.publish config.relay_urls event before).0 ≡ true
    pub after : (net.publish config.relay_urls event before).1 ≡ w'
    pub named : event.id ≡ id

  accepted_by_one :
      (outcomes : List Bool) (u : Unit {0})
      → publish_event outcomes ≡ ok u
      → any (λ b. b) outcomes ≡ true
  unfolding publish_event
  accepted_by_one outcomes u h = ground (arith, h)

  mark_deleted-eq-ok :
      (draws : Draws) (hash : Str) (m : BlobMetadata) (w w' : net.World) (h id : Str)
      → mark_deleted p net config draws hash m w ≡ (ok (deleted h id), w')
      → (event : Event) × (build_soft_delete_event p draws.event_time draws.metadata_iv m
            config.nostr_secret_key
          ≡ ok event)
        × (any (λ b. b) (net.publish config.relay_urls event w).0 ≡ true)
        × ((net.publish config.relay_urls event w).1 ≡ w')
        × (event.id ≡ id)
  unfolding mark_deleted publish publish_event
  mark_deleted-eq-ok draws hash m w w' h id answered =
      let (event, built, rest) =
        Network.>>=-eq-ok
          (lift (
            build_soft_delete_event p draws.event_time draws.metadata_iv m config.nostr_secret_key))
          _ w w' _ answered in
      let (u, published, answer) = Network.>>=-eq-ok (publish p net config event) _ w w' _ rest in
      (
        event,
        built,
        accepted_by_one (net.publish config.relay_urls event w).0 u published,
        ap (λ pair. pair.1) answer,
        cc (ok-injective (ap (λ pair. pair.0) answer)),
      )

  deleted_only_found :
      (draws : Draws) (hash : Str) (o : Option BlobMetadata) (w w' : net.World) (h id : Str)
      → delete_found p net config draws hash o w ≡ (ok (deleted h id), w')
      → (m : BlobMetadata) × (o ≡ some m)
        × (mark_deleted p net config draws hash m w ≡ (ok (deleted h id), w'))
  deleted_only_found draws hash none w w' h id answered =
      cc (ok-injective (ap (λ pair. pair.0) answered))
  deleted_only_found draws hash (some m) w w' h id answered = (m, refl, answered)

  -- A deletion answers with an event only if the path holds a hash, the newest event that the relays
  -- returned for it holds metadata, the event is the soft deletion of that metadata, and at least
  -- one relay accepted it; the world is then the one that the publication left.
  pub delete_blob-Published :
      (draws : Draws) (param : Str) (w w' : net.World) (hash id : Str)
      → delete_blob p net config draws param w ≡ (ok (deleted hash id), w')
      → Published draws param w w' id
  unfolding delete_blob
  delete_blob-Published draws param w w' h id answered =
      let (hash, well, rest) = Network.>>=-eq-ok (lift (normalize_hash param)) _ w w' _ answered in
      let (o, resolved, marking) =
        Network.>>=-eq-ok (resolve_metadata p net config hash) _ w w' _ rest in
      let (m, o_some, done) = deleted_only_found draws hash o _ w' h id marking in
      let (event, built, accepted, after, named) = mark_deleted-eq-ok draws hash m _ w' h id done in
      record {
        hash = hash;
        metadata = m;
        event = event;
        before = (resolve_metadata p net config hash w).1;
        well_formed = well;
        found = resolve_metadata-Found hash w m (resolved ∙ ap ok o_some);
        built = built;
        accepted = accepted;
        after = after;
        named = named;
      }
