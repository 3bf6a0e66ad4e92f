-- ===== src/Api/Config/Laws.antt =====
-- What api/src/config.ts hands to the rest of the API.
use nostr_mesh.Prelude.{
  ◌≡◌, refl, subst, inl, inr, true, Option, none, some, arith, Bool-cases, length, All,
}
use nostr_mesh.Prelude.Text.{Str, trim, to_lower_case, is_hash, is_hash_lower}
use nostr_mesh.Prelude.Bytes.{Bytes, IsByte, to_hex-is_hash_lower}
use nostr_mesh.Prelude.Hash.{to_lower-is_hash}
use nostr_mesh.Api.Config.{accepted, use_or_create, get_or_create_secret_key}

use_or_create-is_hash_lower :
    (o : Option Str) (random : Bytes) (env_file : Option Str)
    → ((s : Str) → o ≡ some s → is_hash_lower s ≡ true)
    → All IsByte random
    → length random ≡ 32
    → is_hash_lower (use_or_create o random env_file).0 ≡ true
use_or_create-is_hash_lower none random env_file given h k = to_hex-is_hash_lower random h k
use_or_create-is_hash_lower (some s) random env_file given h k = given s refl

accepted-is_hash_lower : (o : Option Str) (s : Str) → accepted o ≡ some s → is_hash_lower s ≡ true
accepted-is_hash_lower none s e = cc
accepted-is_hash_lower (some v) s e = elim (Bool-cases (is_hash (trim v))) [
  | inl good ↦
      let same : to_lower_case (trim v) ≡ s = ground (arith, good) in
      subst (λ t. is_hash_lower t ≡ true) same (to_lower-is_hash (trim v) good)
  | inr bad ↦ cc (rw bad at e)
]

-- Whatever the environment and the file, the secret is 64 lower-case hexadecimal digits, if 32
-- random bytes are drawn.
pub secret_key-is_hash_lower :
    (current : Option Str) (random : Bytes) (env_file : Option Str)
    → All IsByte random
    → length random ≡ 32
    → is_hash_lower (get_or_create_secret_key current random env_file).0 ≡ true
unfolding get_or_create_secret_key
secret_key-is_hash_lower current random env_file h k =
    use_or_create-is_hash_lower (accepted current) random env_file (accepted-is_hash_lower current)
      h k
