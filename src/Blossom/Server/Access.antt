-- ===== src/Blossom/Server/Access.antt =====
-- Who may write and read on blossom/src/server.ts, and that what was uploaded can be read.
use nostr_mesh.Prelude.{
  ℕ, ◌≡◌, refl, sym, ap, ◌∙◌, ◌≢◌, inl, inr, true, Option, none, some, List, [], ◌∷◌, arith,
  Bool-cases, Option-cases,
}
use nostr_mesh.Prelude.Text.{Str, ===_refl, is_hash_lower}
use nostr_mesh.Prelude.Result.{Result, ok, err, >>=-eq-ok, ok-injective}
use nostr_mesh.Prelude.Bytes.{Bytes}
use nostr_mesh.Prelude.Hash.{normal_hash}
use nostr_mesh.Nostr.{Signer, Base64, EventJson}
use nostr_mesh.Blossom.Config.{BlossomConfig}
use nostr_mesh.Blossom.Auth.{upload, get, HttpError, parse_auth_event}
use nostr_mesh.Blossom.Server.{
  Blobs, lookup, Body, buffer, too_large, no_buffer, Request, Reply, uploaded, blob, normalize_hash,
  body_content, write_new, put, find_blob, get_content, handle, serve, store, route, Target, health,
  put_upload, head_blob, get_blob, is_allowed_origin,
}
use nostr_mesh.Blossom.Server.Laws.{
  ContentAddressed, write_new-ContentAddressed, lookup-ContentAddressed, serve-Extends,
}

normalize_hash_lower : (s : Str) → is_hash_lower s ≡ true → normalize_hash s ≡ ok s
unfolding normalize_hash
normalize_hash_lower s h = rw (normal_hash s h, h)

module _ (signer : Signer) (base64 : Base64) (json : EventJson) (sha256 : Bytes → Str)
    (config : BlossomConfig) where
  -- Nobody may upload with this header at this time.
  abbrev pub Refused : Option Str → ℕ → Type 0
  Refused header now =
      (e : HttpError) × (parse_auth_event signer base64 json config header upload now ≡ err e)

  put-Refused :
      (header : Option Str) (body : Body) (now : ℕ) (blobs : Blobs)
      → Refused header now
      → (put signer base64 json sha256 config header body now blobs).1 ≡ blobs
  unfolding put
  put-Refused header too_large now blobs r = refl
  put-Refused header no_buffer now blobs (e, r) = rw r
  put-Refused header (buffer content) now blobs (e, r) = rw r

  route-Refused :
      (r : Request) (t : Target) (now : ℕ) (blobs : Blobs)
      → Refused r.authorization now
      → (route signer base64 json sha256 config r t now blobs).1 ≡ blobs
  route-Refused r health now blobs h = refl
  route-Refused r (put_upload body) now blobs h = put-Refused r.authorization body now blobs h
  route-Refused r (head_blob hash) now blobs h = refl
  route-Refused r (get_blob hash) now blobs h = refl

  -- A request whose header is refused for uploads changes no blob, whatever its method and target.
  pub handle-Refused :
      (r : Request) (now : ℕ) (blobs : Blobs)
      → Refused r.authorization now
      → (handle signer base64 json sha256 config r now blobs).1 ≡ blobs
  unfolding handle
  handle-Refused r now blobs h = elim (Bool-cases (is_allowed_origin config r.origin)) [
    | inl allowed ↦ elim (Bool-cases r.is_options) [
      | inl options ↦ simp (allowed, options)
      | inr other ↦ simp (allowed, other) (route-Refused r r.target now blobs h)
    ]
    | inr refused ↦ simp refused
  ]

  -- After a write there is a blob under the hash.
  stored :
      (content : Bytes) (blobs : Blobs)
      → lookup (sha256 content) (write_new signer base64 json sha256 config content blobs) ≢ none
  unfolding write_new lookup
  stored content blobs = ground (arith, ===_refl (sha256 content))

  store_uploaded :
      (r : Result HttpError Bytes) (blobs after : Blobs) (hash url : Str) (size : ℕ)
      → store signer base64 json sha256 config blobs r ≡ (uploaded hash size url, after)
      → (content : Bytes) × (r ≡ ok content)
        × (hash ≡ sha256 content)
        × (after ≡ write_new signer base64 json sha256 config content blobs)
  store_uploaded (err e) blobs after hash url size h = cc (ap (λ (t : Reply × Blobs). t.0) h)
  store_uploaded (ok content) blobs after hash url size h = (
    content,
    refl,
    cc (ap (λ (t : Reply × Blobs). t.0) h),
    sym (ap (λ (t : Reply × Blobs). t.1) h),
  )

  body_content-eq-ok :
      (body content : Bytes) → body_content (buffer body) ≡ ok content → body ≡ content
  body_content-eq-ok [] content h = cc
  body_content-eq-ok (b ∷ bs) content h = ok-injective h

  put_uploaded :
      (header : Option Str) (body : Bytes) (now : ℕ) (blobs after : Blobs) (hash url : Str)
      (size : ℕ)
      → put signer base64 json sha256 config header (buffer body) now blobs
        ≡ (uploaded hash size url, after)
      → (hash ≡ sha256 body) × (after ≡ write_new signer base64 json sha256 config body blobs)
  unfolding put
  put_uploaded header body now blobs after hash url size h =
      let (content, returned, at, state) = store_uploaded _ blobs after hash url size h in
      let (key, _, same) =
        >>=-eq-ok (parse_auth_event signer base64 json config header upload now) _ returned in
      let e = body_content-eq-ok body content same in rw e (at, state)

  find-stored :
      (reader : Option Str) (reader_key hash : Str) (later : ℕ) (blobs : Blobs) (content : Bytes)
      → is_hash_lower hash ≡ true
      → parse_auth_event signer base64 json config reader get later ≡ ok reader_key
      → lookup hash blobs ≡ some content
      → get_content signer base64 json sha256 config reader hash later blobs ≡ blob content
  unfolding get_content find_blob
  find-stored reader reader_key hash later blobs content lower let_in found =
      rw (let_in, normalize_hash_lower hash lower, found)

  -- An accepted upload of a body answers its hash, and any later read of that hash that is let in
  -- answers the body, whatever requests were served in between; if digests are 64 lower-case
  -- hexadecimal digits, no other content has that hash, and every blob stood under its hash
  -- before.
  pub get-put :
      (header : Option Str) (body : Bytes) (now : ℕ) (blobs after : Blobs) (hash url : Str)
      (size : ℕ) (requests : List (Request × ℕ)) (reader : Option Str) (reader_key : Str)
      (later : ℕ)
      → ((bytes : Bytes) → is_hash_lower (sha256 bytes) ≡ true)
      → ((other : Bytes) → sha256 other ≡ sha256 body → other ≡ body)
      → ContentAddressed sha256 blobs
      → put signer base64 json sha256 config header (buffer body) now blobs
        ≡ (uploaded hash size url, after)
      → parse_auth_event signer base64 json config reader get later ≡ ok reader_key
      → (hash ≡ sha256 body)
        × (get_content signer base64 json sha256 config reader hash later
              (serve signer base64 json sha256 config requests after)
            ≡ blob body)
  get-put header body now blobs after hash url size requests reader reader_key later lower free
        addressed put_ok let_in =
      let (at, state) = put_uploaded header body now blobs after hash url size put_ok in
      elim (Option-cases
        (lookup (sha256 body) (write_new signer base64 json sha256 config body blobs))) [
          | inl missing ↦ absurd (stored body blobs missing)
          | inr (content, found) ↦
              let addressed' =
                write_new-ContentAddressed signer base64 json sha256 config body blobs addressed in
              let same =
                free content
                  (sym (lookup-ContentAddressed sha256 (sha256 body) _ content addressed' found)) in
              let kept =
                serve-Extends signer base64 json sha256 config requests after (sha256 body) content
                  (rw state found) in
              rw at (
                refl,
                find-stored reader reader_key (sha256 body) later _ content (lower body) let_in kept
                    ∙ ap blob same,
              )
        ]
