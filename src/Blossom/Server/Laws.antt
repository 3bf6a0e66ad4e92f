-- ===== src/Blossom/Server/Laws.antt =====
-- What blossom/src/server.ts keeps of the blobs that it was given.
use nostr_mesh.Prelude.{
  ℕ, ◌≡◌, refl, sym, ap, ◌∙◌, ◌⊎◌, inl, inr, Option, some, List, [], ◌∷◌, arith, Bool-cases,
}
use nostr_mesh.Prelude.Text.{Str, ◌===◌, ===_iff}
use nostr_mesh.Prelude.Result.{Result, ok, err}
use nostr_mesh.Prelude.Bytes.{Bytes}
use nostr_mesh.Nostr.{Signer, Base64, EventJson}
use nostr_mesh.Blossom.Config.{BlossomConfig}
use nostr_mesh.Blossom.Auth.{HttpError}
use nostr_mesh.Blossom.Server.{
  Blobs, lookup, Body, buffer, too_large, no_buffer, Request, write_new, put, handle, serve,
  is_allowed_origin, store, route, Target, health, put_upload, head_blob, get_blob,
}

module _ (sha256 : Bytes → Str) where
  -- Every blob stands under its hash.
  abbrev pub ContentAddressed : Blobs → Type 0
  ContentAddressed [] = Unit
  ContentAddressed ((name, content) ∷ blobs) = (name ≡ sha256 content) × ContentAddressed blobs

  pub lookup-ContentAddressed :
      (hash : Str) (blobs : Blobs) (content : Bytes)
      → ContentAddressed blobs
      → lookup hash blobs ≡ some content
      → hash ≡ sha256 content
  unfolding lookup
  lookup-ContentAddressed hash [] content h e = cc
  lookup-ContentAddressed hash ((name, c) ∷ blobs) content (k, h) e =
      elim (Bool-cases (name === hash)) [
        | inl same ↦
            let first : c ≡ content = ground (arith, same) in
            sym ((===_iff name hash).0 same) ∙ k ∙ ap sha256 first
        | inr other ↦ lookup-ContentAddressed hash blobs content h (rw other at e)
      ]

-- Every blob of the first is there in the second, with its content.
abbrev pub Extends : Blobs → Blobs → Type 0
Extends old new =
    (hash : Str) (content : Bytes) → lookup hash old ≡ some content → lookup hash new ≡ some content

module _ (signer : Signer) (base64 : Base64) (json : EventJson) (sha256 : Bytes → Str)
    (config : BlossomConfig) where
  lookup-write_new_old :
      (content : Bytes) (blobs : Blobs)
      → Extends blobs (write_new signer base64 json sha256 config content blobs)
  unfolding write_new lookup
  lookup-write_new_old content blobs hash old e = ground (arith, ===_iff (sha256 content) hash)

  pub write_new-ContentAddressed :
      (content : Bytes) (blobs : Blobs)
      → ContentAddressed sha256 blobs
      → ContentAddressed sha256 (write_new signer base64 json sha256 config content blobs)
  unfolding write_new
  write_new-ContentAddressed content blobs h = ground arith

  -- A request leaves the blobs as they are, or writes one that is new.
  abbrev Outcome : Blobs → Blobs → Type 0
  Outcome old new =
      (new ≡ old)
      ⊎ ((content : Bytes) × (new ≡ write_new signer base64 json sha256 config content old))

  store-Outcome :
      (blobs : Blobs) (r : Result HttpError Bytes)
      → Outcome blobs (store signer base64 json sha256 config blobs r).1
  store-Outcome blobs (err e) = inl refl
  store-Outcome blobs (ok content) = inr (content, refl)

  put-Outcome :
      (authorization : Option Str) (body : Body) (now : ℕ) (blobs : Blobs)
      → Outcome blobs (put signer base64 json sha256 config authorization body now blobs).1
  unfolding put
  put-Outcome authorization too_large now blobs = inl refl
  put-Outcome authorization no_buffer now blobs = store-Outcome blobs _
  put-Outcome authorization (buffer content) now blobs = store-Outcome blobs _

  route-Outcome :
      (r : Request) (t : Target) (now : ℕ) (blobs : Blobs)
      → Outcome blobs (route signer base64 json sha256 config r t now blobs).1
  route-Outcome r health now blobs = inl refl
  route-Outcome r (put_upload body) now blobs = put-Outcome r.authorization body now blobs
  route-Outcome r (head_blob hash) now blobs = inl refl
  route-Outcome r (get_blob hash) now blobs = inl refl

  handle-Outcome :
      (r : Request) (now : ℕ) (blobs : Blobs)
      → Outcome blobs (handle signer base64 json sha256 config r now blobs).1
  unfolding handle
  handle-Outcome r now blobs = elim (Bool-cases (is_allowed_origin config r.origin)) [
    | inl allowed ↦ elim (Bool-cases r.is_options) [
      | inl options ↦ simp (allowed, options) (inl refl)
      | inr other ↦ simp (allowed, other) (route-Outcome r r.target now blobs)
    ]
    | inr refused ↦ simp refused (inl refl)
  ]

  Outcome-ContentAddressed :
      (old new : Blobs)
      → Outcome old new
      → ContentAddressed sha256 old
      → ContentAddressed sha256 new
  Outcome-ContentAddressed old new (inl same) h = rw same h
  Outcome-ContentAddressed old new (inr (content, same)) h =
      rw same (write_new-ContentAddressed content old h)

  Outcome-Extends : (old new : Blobs) → Outcome old new → Extends old new
  Outcome-Extends old new (inl same) hash c e = rw same e
  Outcome-Extends old new (inr (content, same)) hash c e =
      rw same (lookup-write_new_old content old hash c e)

  -- Whatever requests come, every blob stands under the hash of its content, if it did so before.
  pub serve-ContentAddressed :
      (requests : List (Request × ℕ)) (blobs : Blobs)
      → ContentAddressed sha256 blobs
      → ContentAddressed sha256 (serve signer base64 json sha256 config requests blobs)
  unfolding serve
  serve-ContentAddressed [] blobs h = h
  serve-ContentAddressed ((r, now) ∷ rest) blobs h =
      serve-ContentAddressed rest _ (Outcome-ContentAddressed _ _ (handle-Outcome r now blobs) h)

  -- Whatever requests come, a blob that is there stays, with its content.
  pub serve-Extends :
      (requests : List (Request × ℕ)) (blobs : Blobs) (hash : Str) (content : Bytes)
      → lookup hash blobs ≡ some content
      → lookup hash (serve signer base64 json sha256 config requests blobs) ≡ some content
  unfolding serve
  serve-Extends [] blobs hash content e = e
  serve-Extends ((r, now) ∷ rest) blobs hash content e =
      serve-Extends rest _ hash content
        (Outcome-Extends _ _ (handle-Outcome r now blobs) hash content e)
