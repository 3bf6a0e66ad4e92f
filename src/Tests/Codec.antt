-- ===== src/Tests/Codec.antt =====
-- Self-delimiting encodings of events and of metadata as lists of numbers: an instance of the JSON
-- parameters, for the examples.
use nostr_mesh.Prelude.{
  ℕ, zero, suc, ◌≡◌, refl, sym, ap, ◌∙◌, Bool, true, false, Option, none, some, List, [], ◌∷◌, ◌++◌,
  length,
}
use nostr_mesh.Prelude.Text.{Str}
use nostr_mesh.Prelude.Bytes.{Bytes}
use nostr_mesh.Nostr.{Event}
use nostr_mesh.Api.Metadata.Record.{Size, whole, negative, fractional, BlobMetadata}

pub record Codec (A : Type 0) : Type 0 where
  pub put : A → Bytes
  pub get : Bytes → Option (A × Bytes)
  pub get-put : (a : A) (rest : Bytes) → get (put a ++ rest) ≡ some (a, rest)

abbrev number : Codec ℕ
number = record {
  put = λ n. n ∷ [];
  get = λ bs. elim bs [ [] ↦ none | n ∷ rest ↦ some (n, rest) ];
  get-put = λ n rest. refl;
}

pub append_assoc : (xs ys zs : Bytes) → (xs ++ ys) ++ zs ≡ xs ++ (ys ++ zs)
append_assoc [] ys zs = refl
append_assoc (x ∷ xs) ys zs = ap (λ l. x ∷ l) (append_assoc xs ys zs)

abbrev with_first : {A B : Type 0} → A → Option (B × Bytes) → Option ((A × B) × Bytes)
with_first a none = none
with_first a (some (b, rest)) = some ((a, b), rest)

abbrev then_get : {A B : Type 0} → Codec B → Option (A × Bytes) → Option ((A × B) × Bytes)
then_get d none = none
then_get d (some (a, rest)) = with_first a (d.get rest)

abbrev pair : {A B : Type 0} → Codec A → Codec B → Codec (A × B)
pair c d = record {
  put = λ ab. c.put ab.0 ++ d.put ab.1;
  get = λ bs. then_get d (c.get bs);
  get-put = λ (a, b) rest. rw (append_assoc (c.put a) (d.put b) rest, c.get-put a, d.get-put b);
}

abbrev put_all : {A : Type 0} → Codec A → List A → Bytes
put_all c [] = []
put_all c (a ∷ as') = c.put a ++ put_all c as'

abbrev join : {A : Type 0} → Option ((A × List A) × Bytes) → Option (List A × Bytes)
join none = none
join (some ((a, as'), rest)) = some (a ∷ as', rest)

abbrev get_all : {A : Type 0} → Codec A → ℕ → Bytes → Option (List A × Bytes)
get_all c zero bs = some ([], bs)
get_all c (suc n) bs = elim (c.get bs) [
  | none ↦ none
  | some (a, rest) ↦ join (with_first a (get_all c n rest))
]

pub get_all-put_all :
    {A : Type 0} (c : Codec A) (as' : List A) (rest : Bytes)
    → get_all c (length as') (put_all c as' ++ rest) ≡ some (as', rest)
get_all-put_all c [] rest = refl
get_all-put_all c (a ∷ as') rest =
    rw (append_assoc (c.put a) (put_all c as') rest, c.get-put a, get_all-put_all c as' rest)

abbrev list : {A : Type 0} → Codec A → Codec (List A)
list c = record {
  put = λ as'. length as' ∷ put_all c as';
  get = λ bs. elim bs [ [] ↦ none | n ∷ rest ↦ get_all c n rest ];
  get-put = λ as' rest. get_all-put_all c as' rest;
}

abbrev map_first : {A B : Type 0} → (A → B) → Option (A × Bytes) → Option (B × Bytes)
map_first f none = none
map_first f (some (a, rest)) = some (f a, rest)

abbrev via : {A B : Type 0} (f : A → B) (g : B → A) → ((b : B) → f (g b) ≡ b) → Codec A → Codec B
via f g same c = record {
  put = λ b. c.put (g b);
  get = λ bs. map_first f (c.get bs);
  get-put = λ b rest. rw (c.get-put (g b) rest, same b);
}

abbrev text : Codec Str
text = list number

abbrev pub event_codec : Codec Event
event_codec =
    via
      (λ ((id, pubkey), (created_at, (kind, (tags, (content, sig))))). record {
        id = id;
        pubkey = pubkey;
        created_at = created_at;
        kind = kind;
        tags = tags;
        content = content;
        sig = sig;
      })
      (λ e. ((e.id, e.pubkey), (e.created_at, (e.kind, (e.tags, (e.content, e.sig)))))) (λ e. refl)
      (pair (pair text text) (pair number (pair number (pair (list (list text)) (pair text text)))))

abbrev size_of : ℕ × ℕ → Size
size_of (zero, n) = whole n
size_of (suc zero, n) = negative n
size_of (suc (suc _), n) = fractional

abbrev size_numbers : Size → ℕ × ℕ
size_numbers (whole n) = (0, n)
size_numbers (negative n) = (1, n)
size_numbers fractional = (2, 0)

pub size_of-size_numbers : (s : Size) → size_of (size_numbers s) ≡ s
size_of-size_numbers (whole n) = refl
size_of-size_numbers (negative n) = refl
size_of-size_numbers fractional = refl

abbrev mark_of : ℕ → Option Bool
mark_of zero = none
mark_of (suc zero) = some true
mark_of (suc (suc _)) = some false

abbrev mark_number : Option Bool → ℕ
mark_number none = 0
mark_number (some true) = 1
mark_number (some false) = 2

pub mark_of-mark_number : (m : Option Bool) → mark_of (mark_number m) ≡ m
mark_of-mark_number none = refl
mark_of-mark_number (some true) = refl
mark_of-mark_number (some false) = refl

abbrev size_codec : Codec Size
size_codec = via size_of size_numbers size_of-size_numbers (pair number number)

abbrev mark_codec : Codec (Option Bool)
mark_codec = via mark_of mark_number mark_of-mark_number number

abbrev pub metadata_codec : Codec BlobMetadata
metadata_codec =
    via
      (λ ((name, hash), (size, (type, (folder, (uploaded_at, (server, (key, deleted))))))). record {
        name = name;
        hash = hash;
        size = size;
        type = type;
        folder = folder;
        uploaded_at = uploaded_at;
        server = server;
        encryption_key = key;
        deleted = deleted;
      })
      (λ m. (
        (m.name, m.hash),
        (m.size, (m.type, (m.folder, (m.uploaded_at, (m.server, (m.encryption_key, m.deleted)))))),
      ))
      (λ m. refl)
      (pair (pair text text)
        (pair size_codec (pair text (pair text (pair number (pair text (pair text mark_codec)))))))

abbrev pub decoded : {A : Type 0} → Codec A → Bytes → Option A
decoded c bs = elim (c.get bs) [ none ↦ none | some (a, _) ↦ some a ]

append-nil : (bs : Bytes) → bs ++ [] ≡ bs
append-nil [] = refl
append-nil (b ∷ bs) = ap (λ l. b ∷ l) (append-nil bs)

pub decoded-put : {A : Type 0} (c : Codec A) (a : A) → decoded c (c.put a) ≡ some a
decoded-put c a =
    ap (λ bs. decoded c bs) (sym (append-nil (c.put a))) ∙ rw (decoded, c.get-put a []) refl
