-- ===== src/Api/Metadata/Laws.antt =====
-- Building a metadata event and parsing it.
use nostr_mesh.Prelude.{ℕ, ◌≡◌, subst, true, not, some, ltb, ◌==◌, lt_of_le, length, take, drop}
use nostr_mesh.Prelude.Text.{Str, codes, is_hash}
use nostr_mesh.Prelude.Result.{ok, ◌>>◌, throw_if, throw_if-eq-ok, >>=-eq-ok, >>=-ok, ok-injective}
use nostr_mesh.Prelude.Bytes.{Bytes, from_hex}
use nostr_mesh.Nostr.{Event, find_tag}
use nostr_mesh.Api.Failure.{
  metadata_too_small, unsupported_metadata_version, metadata_not_authentic,
}
use nostr_mesh.Api.Crypto.{authentic, version_byte}
use nostr_mesh.Api.Crypto.Laws.{frame_parts, version-frame}
use nostr_mesh.Api.Hex.{hex_to_bytes}
use nostr_mesh.Api.Hex.Laws.{hex_to_bytes-is_hash}
use nostr_mesh.Api.Platform.{Platform}
use nostr_mesh.Api.Metadata.Record.{BlobMetadata}
use nostr_mesh.Api.Metadata.{
  parsed, metadata_encryption_version, metadata_key_from_secret, validate_metadata,
  encrypt_metadata, decrypt_metadata, metadata_template, build_metadata_event, parse_metadata_event,
  build_soft_delete_event,
}
use nostr_mesh.Api.Metadata.Validation.{IsValid, validate_metadata_iff}

validated : (m : BlobMetadata) {u : Unit {0}} → validate_metadata m ≡ ok u → IsValid m
validated m {u = tt} e = (validate_metadata_iff m).0 e

checked-IsValid : (m m' : BlobMetadata) → (validate_metadata m >> ok m) ≡ ok m' → IsValid m'
checked-IsValid m m' e =
    let (u, valid, same) = >>=-eq-ok (validate_metadata m) (λ _. ok m) e in
    subst IsValid (ok-injective same) (validated m valid)

module _ (p : Platform) where
  decrypt-encrypt_metadata :
      (iv : Bytes) (m : BlobMetadata) (secret : Str)
      → length iv ≡ 12
      → IsValid m
      → decrypt_metadata p (encrypt_metadata p iv m secret) secret ≡ ok m
  unfolding decrypt_metadata encrypt_metadata
  decrypt-encrypt_metadata iv m secret hi v =
      let key = metadata_key_from_secret p secret in
      let text = p.stringify m in
      let (at_iv, at_tag, at_text, long) =
        frame_parts p.aead metadata_encryption_version key iv text hi in
      rw (
        p.from-to_base64,
        lt_of_le _ _ long,
        version-frame p.aead metadata_encryption_version key iv text,
        at_iv,
        at_tag,
        at_text,
        p.aead.unseal-seal,
        p.parse-stringify,
        (validate_metadata_iff m).1 v,
      )

  parse_finalized :
      (now : ℕ) (iv : Bytes) (m : BlobMetadata) (secret : Str) (key : Bytes)
      → length iv ≡ 12
      → IsValid m
      → parse_metadata_event p
          (p.signer.finalize_event (metadata_template p now iv m secret) key)
          secret
        ≡ ok m
  unfolding parse_metadata_event metadata_template
  parse_finalized now iv m secret key hi v =
      rw (p.signer.finalize-kind, p.signer.finalize-content)
        (decrypt-encrypt_metadata iv m secret hi v)

  -- What a built event is: the signed template of valid metadata.
  pub build_inversion :
      (now : ℕ) (iv : Bytes) (m : BlobMetadata) (secret : Str) (event : Event)
      → build_metadata_event p now iv m secret ≡ ok event
      → IsValid m
        × ((key : Bytes) × (p.signer.finalize_event (metadata_template p now iv m secret) key
              ≡ event))
  unfolding build_metadata_event
  build_inversion now iv m secret event e =
      let (u, valid, e₁) = >>=-eq-ok (validate_metadata m) _ e in
      let (key, _, e₂) = >>=-eq-ok (hex_to_bytes secret) _ e₁ in
      (validated m valid, (key, ok-injective e₂))

  -- An event built with a nonce of 12 bytes is parsed, by the same secret, to the metadata that
  -- it was built from.
  pub parse-build :
      (now : ℕ) (iv : Bytes) (m : BlobMetadata) (secret : Str) (event : Event)
      → length iv ≡ 12
      → build_metadata_event p now iv m secret ≡ ok event
      → parse_metadata_event p event secret ≡ ok m
  parse-build now iv m secret event hi e =
      let (valid, (key, same)) = build_inversion now iv m secret event e in
      subst (λ ev. parse_metadata_event p ev secret ≡ ok m) same
        (parse_finalized now iv m secret key hi valid)

  -- Valid metadata and a secret of 64 hexadecimal digits always give an event.
  pub build_total :
      (now : ℕ) (iv : Bytes) (m : BlobMetadata) (secret : Str)
      → IsValid m
      → is_hash secret ≡ true
      → (event : Event) × (build_metadata_event p now iv m secret ≡ ok event)
  unfolding build_metadata_event
  build_total now iv m secret v h = (
    p.signer.finalize_event (metadata_template p now iv m secret) (from_hex secret),
    rw ((validate_metadata_iff m).1 v, hex_to_bytes-is_hash secret h),
  )

  -- A soft deletion built with a nonce of 12 bytes is parsed to the metadata as it was, but for
  -- the mark and the time.
  pub parse-soft_delete :
      (now : ℕ) (iv : Bytes) (m : BlobMetadata) (secret : Str) (event : Event)
      → length iv ≡ 12
      → build_soft_delete_event p now iv m secret ≡ ok event
      → parse_metadata_event p event secret
        ≡ ok (record m { deleted = some true; uploaded_at = now })
  unfolding build_soft_delete_event
  parse-soft_delete now iv m secret event hi e = parse-build now iv _ secret event hi e

  decrypt-IsValid :
      (content secret : Str) (m : BlobMetadata)
      → decrypt_metadata p content secret ≡ ok m
      → IsValid m
  unfolding decrypt_metadata
  decrypt-IsValid content secret m =
      let payload = p.from_base64 content in
      let key = metadata_key_from_secret p secret in
      let version = version_byte payload in
      let wrong = not (version == metadata_encryption_version) in
      let opened =
        p.aead.unseal key (take 12 (drop 1 payload)) (take 16 (drop 13 payload))
          (drop 29 payload) in
      >>=-ok IsValid (throw_if (ltb (length payload) 29) metadata_too_small) _ λ _.
        >>=-ok IsValid (throw_if wrong (unsupported_metadata_version version)) _ λ _.
          >>=-ok IsValid (authentic metadata_not_authentic opened) _
            λ text. >>=-ok IsValid (parsed (p.parse text)) _ λ m'. checked-IsValid m' m

  -- What is parsed is valid, whatever the event.
  pub parse-IsValid :
      (event : Event) (secret : Str) (m : BlobMetadata)
      → parse_metadata_event p event secret ≡ ok m
      → IsValid m
  unfolding parse_metadata_event
  parse-IsValid event secret m e =
      let (_, e₁) = throw_if-eq-ok _ _ (decrypt_metadata p event.content secret) e in
      decrypt-IsValid event.content secret m e₁

  -- The event is found by the hash: that is its tag "d".
  pub find_tag-build :
      (now : ℕ) (iv : Bytes) (m : BlobMetadata) (secret : Str) (event : Event)
      → build_metadata_event p now iv m secret ≡ ok event
      → (find_tag event.tags (codes "d") ≡ some m.hash) × (event.created_at ≡ now)
  find_tag-build now iv m secret event e =
      let (_, (key, same)) = build_inversion now iv m secret event e in
      subst (λ ev. (find_tag ev.tags (codes "d") ≡ some m.hash) × (ev.created_at ≡ now)) same
        (unfold metadata_template find_tag in
          (rw p.signer.finalize-tags, p.signer.finalize-created_at _ key))
