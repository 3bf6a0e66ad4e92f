-- ===== src/Api/Metadata/Validation.antt =====
-- What `validateMetadata` accepts.
use nostr_mesh.Prelude.{
  ℕ, ◌≡◌, refl, sym, ◌∙◌, ◌↔◌, Bool, true, false, not, ◌&&◌, [], ◌∷◌, ◌++◌, arith, all,
}
use nostr_mesh.Prelude.Text.{Str, codes, ◌===◌, starts_with, is_space, trim, is_hash}
use nostr_mesh.Prelude.Result.{ok, throw_if-eq-ok}
use mathlib.Core.List.{reverse, reverse-cons}
use nostr_mesh.Prelude.Text.{trim_start}
use nostr_mesh.Api.Metadata.Record.{Size, whole, BlobMetadata}
use nostr_mesh.Api.Metadata.{is_natural, is_http_url, validate_metadata}

-- A name with some code unit that is no white space; 64 hexadecimal digits as the hash and as the
-- key; a natural number of bytes; a folder below the root; a server reached by HTTP.
pub record IsValid (m : BlobMetadata) : Type 0 where
  pub named : all is_space m.name ≡ false
  pub hash_hex : is_hash m.hash ≡ true
  pub size : (n : ℕ) × (m.size ≡ whole n)
  pub rooted : (rest : Str) × (m.folder ≡ b'/' ∷ rest)
  pub server : is_http_url m.server ≡ true
  pub key_hex : is_hash m.encryption_key ≡ true

all-append : (q : ℕ → Bool) (xs ys : Str) → all q (xs ++ ys) ≡ (all q xs && all q ys)
all-append q [] ys = refl
all-append q (x ∷ xs) ys = ground (arith, all-append q xs ys)

all-reverse : (q : ℕ → Bool) (xs : Str) → all q (reverse xs) ≡ all q xs
all-reverse q [] = refl
all-reverse q (x ∷ xs) =
    rw (reverse-cons, all-append q (reverse xs) (x ∷ []), all-reverse q xs) (ground arith)

all-trim_start : (s : Str) → all is_space (trim_start s) ≡ all is_space s
unfolding trim_start
all-trim_start [] = refl
all-trim_start (c ∷ s) = ground (arith, all-trim_start s)

trim_start_blank : (s : Str) → (trim_start s === []) ≡ all is_space s
unfolding trim_start ◌===◌
trim_start_blank [] = refl
trim_start_blank (c ∷ s) = ground (arith, trim_start_blank s)

concat_not_empty : (s : Str) (c : ℕ) → (s ++ c ∷ [] === []) ≡ false
unfolding ◌===◌
concat_not_empty [] c = refl
concat_not_empty (d ∷ s) c = refl

reverse_empty : (s : Str) → (reverse s === []) ≡ (s === [])
unfolding ◌===◌
reverse_empty [] = refl
reverse_empty (c ∷ s) = rw reverse-cons (concat_not_empty (reverse s) c)

-- `!text.trim()` holds exactly for a text of white space.
pub trim_blank : (s : Str) → (trim s === []) ≡ all is_space s
unfolding trim
trim_blank s =
    reverse_empty (trim_start (reverse (trim_start s)))
    ∙ trim_start_blank (reverse (trim_start s))
    ∙ all-reverse is_space (trim_start s)
    ∙ all-trim_start s

rooted_iff : (s : Str) → (starts_with s (codes "/") ≡ true) ↔ ((rest : Str) × (s ≡ b'/' ∷ rest))
unfolding starts_with
rooted_iff [] = (λ h. cc, λ h. cc h.1)
rooted_iff (c ∷ s) = (λ h. (s, ground arith), λ h. ground (arith, h.1))

whole_iff : (size : Size) → (is_natural size ≡ true) ↔ ((n : ℕ) × (size ≡ whole n))
whole_iff (whole n) = (λ h. (n, refl), λ h. refl)
whole_iff (Size.negative n) = (λ h. cc, λ h. cc h.1)
whole_iff Size.fractional = (λ h. cc, λ h. cc h.1)

true_of_not : (b : Bool) → not b ≡ false → b ≡ true
true_of_not b h = ground arith

validate_metadata_sound : (m : BlobMetadata) → validate_metadata m ≡ ok tt → IsValid m
unfolding validate_metadata
validate_metadata_sound m e =
    let (name, e₁) = throw_if-eq-ok _ _ _ e in
    let (hash, e₂) = throw_if-eq-ok _ _ _ e₁ in
    let (size, e₃) = throw_if-eq-ok _ _ _ e₂ in
    let (folder, e₄) = throw_if-eq-ok _ _ _ e₃ in
    let (server, e₅) = throw_if-eq-ok _ _ _ e₄ in
    let (key, _) = throw_if-eq-ok _ _ _ e₅ in
    record {
      named = sym (trim_blank m.name) ∙ name;
      hash_hex = true_of_not _ hash;
      size = (whole_iff m.size).0 (true_of_not _ size);
      rooted = (rooted_iff m.folder).0 (true_of_not _ folder);
      server = true_of_not _ server;
      key_hex = true_of_not _ key;
    }

validate_metadata_complete : (m : BlobMetadata) → IsValid m → validate_metadata m ≡ ok tt
unfolding validate_metadata
validate_metadata_complete m v = rw (
  trim_blank m.name,
  v.named,
  v.hash_hex,
  (whole_iff m.size).1 v.size,
  (rooted_iff m.folder).1 v.rooted,
  v.server,
  v.key_hex,
)

-- `validateMetadata` returns exactly for valid metadata.
pub validate_metadata_iff : (m : BlobMetadata) → (validate_metadata m ≡ ok tt) ↔ IsValid m
validate_metadata_iff m = (validate_metadata_sound m, validate_metadata_complete m)
