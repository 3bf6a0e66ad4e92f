-- ===== src/Api/Crypto/Laws.antt =====
-- What api/src/crypto.ts guarantees: decryption undoes encryption, encryption with a fresh key
-- never fails, and what decryption accepts has the format.
use nostr_mesh.Prelude.{
  ℕ, ◌≤◌, ◌≡◌, refl, sym, ap, ◌∙◌, Option, none, some, [], ◌∷◌, ◌++◌, length, take, drop, arith,
  take-append, drop-append, length-append, All, eq_of_not_ne, le_of_not_ltb, subst, lt_of_le,
}
use mathlib.Core.List.{append_assoc}
use nostr_mesh.Prelude.Text.{Str}
use nostr_mesh.Prelude.Bytes.{Bytes, IsByte, from_hex, to_hex, from_hex-to_hex, from_hex-IsByte}
use nostr_mesh.Prelude.Result.{ok, throw_if-eq-ok, ok-injective}
use nostr_mesh.Api.Failure.{Failure}
use nostr_mesh.Api.Crypto.{
  Aead, EncryptedBlob, choose_key, frame, encrypt_blob, decrypt_blob, payload_version, authentic,
  version_byte,
}

choose_key-IsByte :
    (random : Bytes) (existing : Option Str)
    → All IsByte random
    → All IsByte (choose_key random existing)
unfolding choose_key
choose_key-IsByte random none h = h
choose_key-IsByte random (some []) h = h
choose_key-IsByte random (some (c ∷ cs)) h = from_hex-IsByte (c ∷ cs)

authentic-eq-ok :
    (e : Failure) (o : Option Bytes) {content : Bytes}
    → authentic e o ≡ ok content
    → o ≡ some content
authentic-eq-ok e none h = cc
authentic-eq-ok e (some text) h = cc

module _ (aead : Aead) where
  open aead use {seal, unseal, length-tag, unseal-seal}

  -- The payload of a frame falls apart into what it was made of.
  pub frame_parts :
      (v : ℕ) (key iv text : Bytes)
      → length iv ≡ 12
      → (take 12 (drop 1 (frame aead v key iv text)) ≡ iv)
        × (take 16 (drop 13 (frame aead v key iv text)) ≡ (seal key iv text).1)
        × (drop 29 (frame aead v key iv text) ≡ (seal key iv text).0)
        × (29 ≤ length (frame aead v key iv text))
  unfolding frame
  frame_parts v key iv text h = (
    take-append 12 iv _ h,
    ap (take 16) (drop-append 12 iv _ h) ∙ take-append 16 _ _ (length-tag key iv text),
    ap (drop 28) (sym (append_assoc iv (seal key iv text).1 (seal key iv text).0))
        ∙ drop-append 28 (iv ++ (seal key iv text).1) _
            (omega (arith, length-append iv (seal key iv text).1, length-tag key iv text)),
    omega (
      arith,
      length-append iv ((seal key iv text).1 ++ (seal key iv text).0),
      length-append (seal key iv text).1 (seal key iv text).0,
      length-tag key iv text,
    ),
  )

  pub version-frame : (v : ℕ) (key iv text : Bytes) → version_byte (frame aead v key iv text) ≡ v
  unfolding frame
  version-frame v key iv text = refl

  decrypt_frame :
      (key iv content : Bytes)
      → All IsByte key
      → length key ≡ 32
      → length iv ≡ 12
      → decrypt_blob aead (frame aead payload_version key iv content) (to_hex key) ≡ ok content
  unfolding decrypt_blob
  decrypt_frame key iv content hb hk hi =
      let (at_iv, at_tag, at_text, long) = frame_parts payload_version key iv content hi in
      rw (
        from_hex-to_hex key hb,
        hk,
        lt_of_le _ _ long,
        version-frame,
        at_iv,
        at_tag,
        at_text,
        unseal-seal,
      )

  -- Whatever key was chosen, what `encryptBlob` returns is decrypted by the key that it returns,
  -- if the random key consists of bytes and the nonce has 12 bytes.
  pub decrypt-encrypt :
      (random_key iv content : Bytes) (existing : Option Str) (blob : EncryptedBlob)
      → All IsByte random_key
      → length iv ≡ 12
      → encrypt_blob aead random_key iv content existing ≡ ok blob
      → decrypt_blob aead blob.ciphertext blob.encryption_key ≡ ok content
  unfolding encrypt_blob
  decrypt-encrypt random_key iv content existing blob hk hi e =
      let (k, same) = throw_if-eq-ok _ _ _ e in
      subst (λ b. decrypt_blob aead b.ciphertext b.encryption_key ≡ ok content) (ok-injective same)
        (decrypt_frame _ iv content (choose_key-IsByte random_key existing hk) (eq_of_not_ne _ _ k)
          hi)

  -- With a fresh random key of 32 bytes encryption never fails.
  pub encrypt_total :
      (random_key iv content : Bytes)
      → length random_key ≡ 32
      → (blob : EncryptedBlob) × (encrypt_blob aead random_key iv content none ≡ ok blob)
  unfolding encrypt_blob
  encrypt_total random_key iv content h = (
    record {
      ciphertext = frame aead payload_version random_key iv content;
      encryption_key = to_hex random_key;
    },
    ground arith,
  )

  -- What `decryptBlob` accepts has the version byte 1, at least 29 bytes and a key of 32 bytes, and
  -- the cipher accepts its parts.
  pub decrypt_inversion :
      (payload : Bytes) (key_hex : Str) (content : Bytes)
      → decrypt_blob aead payload key_hex ≡ ok content
      → (length (from_hex key_hex) ≡ 32)
        × (29 ≤ length payload)
        × (version_byte payload ≡ 1)
        × (unseal
              (from_hex key_hex)
              (take 12 (drop 1 payload))
              (take 16 (drop 13 payload))
              (drop 29 payload)
            ≡ some content)
  unfolding decrypt_blob
  decrypt_inversion payload key_hex content e =
      let (k₁, e₁) = throw_if-eq-ok _ _ _ e in
      let (k₂, e₂) = throw_if-eq-ok _ _ _ e₁ in
      let (k₃, e₃) = throw_if-eq-ok _ _ _ e₂ in
      (eq_of_not_ne _ _ k₁, le_of_not_ltb _ _ k₂, eq_of_not_ne _ _ k₃, authentic-eq-ok _ _ e₃)
