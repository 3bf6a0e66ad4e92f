-- ===== src/Api/Crypto.antt =====
-- api/src/crypto.ts: the blob payload is a version byte, the nonce, the authentication tag and the
-- AES-256-GCM ciphertext. The cipher is Node's, a parameter; `randomBytes` is an argument.
pub mod Laws
use nostr_mesh.Prelude.{
  ℕ, zero, suc, ◌+◌, ◌≡◌, Bool, true, false, not, Option, none, some, List, [], ◌∷◌, ◌++◌, length,
  take, drop, get_elem?, ltb, ◌==◌, ◌<◌,
}
use nostr_mesh.Prelude.Text.{Str}
use nostr_mesh.Prelude.Bytes.{Bytes, from_hex, to_hex}
use nostr_mesh.Prelude.Result.{Result, ok, err, throw_if, ◌>>=◌, ◌>>◌}
use nostr_mesh.Api.Failure.{
  Failure, encryption_key_size, invalid_key_size, payload_too_small, unsupported_version,
  authentication_failed,
}

abbrev pub payload_version : ℕ
payload_version = 1

abbrev pub key_length : ℕ
key_length = 32

abbrev pub iv_length : ℕ
iv_length = 12

abbrev pub auth_tag_length : ℕ
auth_tag_length = 16

-- AES-256-GCM of Node's crypto: `seal key iv plaintext` is the ciphertext and the tag, and
-- `unseal key iv tag ciphertext` is `none` where `decipher.final` throws.
pub record Aead : Type 0 where
  pub seal : Bytes → Bytes → Bytes → Bytes × Bytes
  pub unseal : Bytes → Bytes → Bytes → Bytes → Option Bytes
  pub length-tag : (key iv text : Bytes) → length (seal key iv text).1 ≡ 16
  pub unseal-seal :
      (key iv text : Bytes) → unseal key iv (seal key iv text).1 (seal key iv text).0 ≡ some text

pub record EncryptedBlob : Type 0 where
  pub ciphertext : Bytes
  pub encryption_key : Str

abbrev pub version_byte : Bytes → ℕ
version_byte [] = 0
version_byte (b ∷ _) = b

-- `existingKeyHex ? Buffer.from(existingKeyHex, "hex") : randomBytes(KEY_LENGTH)`; an empty text is
-- false.
unfoldable pub choose_key : Bytes → Option Str → Bytes
choose_key random none = random
choose_key random (some []) = random
choose_key random (some (c ∷ cs)) = from_hex (c ∷ cs)

abbrev pub authentic : Failure → Option Bytes → Result Failure Bytes
authentic e none = err e
authentic e (some text) = ok text

module _ (aead : Aead) where
  open aead use {seal, unseal}

  unfoldable pub frame : ℕ → Bytes → Bytes → Bytes → Bytes
  frame version key iv text =
      let sealed = seal key iv text in version ∷ iv ++ (sealed.1 ++ sealed.0)

  unfoldable pub encrypt_blob : Bytes → Bytes → Bytes → Option Str → Result Failure EncryptedBlob
  unfolding choose_key frame
  encrypt_blob random_key random_iv content existing = do
    let key = choose_key random_key existing
    throw_if (not (length key == key_length)) encryption_key_size
    ok (record {
      ciphertext = frame payload_version key random_iv content;
      encryption_key = to_hex key;
    })

  unfoldable pub decrypt_blob : Bytes → Str → Result Failure Bytes
  decrypt_blob payload key_hex = do
    let key = from_hex key_hex
    throw_if (not (length key == key_length)) invalid_key_size
    throw_if (ltb (length payload) (1 + iv_length + auth_tag_length)) payload_too_small
    let version = version_byte payload
    throw_if (not (version == payload_version)) (unsupported_version version)
    let iv = take 12 (drop 1 payload)
    let tag = take 16 (drop 13 payload)
    let encrypted = drop 29 payload
    authentic authentication_failed (unseal key iv tag encrypted)
