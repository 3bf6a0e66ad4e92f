-- ===== src/Tests/Instances.antt =====
-- Concrete instances of the parameters: a cipher, a signer, base64, JSON, and sorted sets.
use nostr_mesh.Prelude.{
  ℕ, ◌+◌, ◌-◌, ◌≡◌, refl, ap, ◌∙◌, ◌≢◌, Bool, true, ◌&&◌, none, some, List, [], ◌∷◌, ◌++◌, arith,
  leb, if◌then◌else◌, all,
}
use nostr_mesh.Prelude.Text.{Str, codes, ◌===◌, ===_iff, ===_refl, is_space, trim}
use nostr_mesh.Prelude.Bytes.{Bytes}
use nostr_mesh.Prelude.Text.{trim_start}
use mathlib.Core.List.{reverse, reverse-cons, reverse-reverse}
use nostr_mesh.Nostr.{auth_event, Signer, Base64, EventJson}
use nostr_mesh.Api.Crypto.{Aead}
use nostr_mesh.Api.Platform.{Platform}
use nostr_mesh.Tests.Codec.{event_codec, metadata_codec, decoded, decoded-put}
use nostr_mesh.Relay.RateLimit.{Member, total, has_member, in_window, SortedSets}

abbrev sixteen : Bytes
sixteen = 1 ∷ 2 ∷ 3 ∷ 4 ∷ 5 ∷ 6 ∷ 7 ∷ 8 ∷ 9 ∷ 10 ∷ 11 ∷ 12 ∷ 13 ∷ 14 ∷ 15 ∷ 16 ∷ []

-- A cipher that hides nothing, with a constant tag.
abbrev pub plain : Aead
plain = record {
  seal = λ key iv text. (text, sixteen);
  unseal = λ key iv tag text. some text;
  length-tag = λ key iv text. refl;
  unseal-seal = λ key iv text. refl;
}

pub not_empty : {A : Type 0} (x : A) (xs : List A) → (x ∷ xs) ≢ []
not_empty x xs h = cc h

abbrev pub notary : Signer
notary = record {
  finalize_event = λ t key. record {
    id = codes "id";
    pubkey = codes "key";
    created_at = t.created_at;
    kind = t.kind;
    tags = t.tags;
    content = t.content;
    sig = codes "sig";
  };
  verify_event = λ e. true;
  finalize-kind = λ t key. refl;
  finalize-created_at = λ t key. refl;
  finalize-tags = λ t key. refl;
  finalize-content = λ t key. refl;
  finalize_complete = λ t key. (not_empty _ _, not_empty _ _, not_empty _ _);
  verify-finalize = λ t key. refl;
}

abbrev raised : Bytes → Str
raised [] = []
raised (b ∷ bs) = (b + 70000) ∷ raised bs

abbrev lowered : Str → Bytes
lowered [] = []
lowered (c ∷ cs) = (c - 70000) ∷ lowered cs

pub lowered-raised : (bs : Bytes) → lowered (raised bs) ≡ bs
lowered-raised [] = refl
lowered-raised (b ∷ bs) = ground (arith, lowered-raised bs)

abbrev is_high : ℕ → Bool
is_high c = leb 70000 c

high_start : (s : Str) → all is_high s ≡ true → trim_start s ≡ s
unfolding trim_start is_space
high_start [] h = refl
high_start (c ∷ cs) h = ground arith

all_join : (xs ys : Str) → all is_high (xs ++ ys) ≡ (all is_high xs && all is_high ys)
all_join [] ys = refl
all_join (x ∷ xs) ys = ground (arith, all_join xs ys)

high_reverse : (xs : Str) → all is_high (reverse xs) ≡ all is_high xs
high_reverse [] = refl
high_reverse (x ∷ xs) =
    rw (reverse-cons, all_join (reverse xs) (x ∷ []), high_reverse xs) (ground arith)

high_raised : (bs : Bytes) → all is_high (raised bs) ≡ true
high_raised [] = refl
high_raised (b ∷ bs) = ground (arith, high_raised bs)

high_trim : (s : Str) → all is_high s ≡ true → trim s ≡ s
unfolding trim
high_trim s h =
    ap (λ t. reverse (trim_start (reverse t))) (high_start s h)
    ∙ ap reverse (high_start (reverse s) (high_reverse s ∙ h))
    ∙ reverse-reverse s

pub trim-raised : (bs : Bytes) → trim (raised bs) ≡ raised bs
trim-raised bs = high_trim (raised bs) (high_raised bs)

abbrev pub shifted : Base64
shifted = record {
  to_base64 = raised;
  from_base64 = lowered;
  from-to_base64 = lowered-raised;
  trim-to_base64 = trim-raised;
}

abbrev pub numbers : EventJson
numbers = record {
  stringify_event = λ e. event_codec.put e;
  parse_event = λ bs. elim (decoded event_codec bs) [ none ↦ none | some e ↦ some (auth_event e) ];
  parse-stringify_event = λ e. rw (decoded-put event_codec e) refl;
}

abbrev pub platform : Platform
platform = record {
  aead = plain;
  signer = notary;
  sha256 = λ s. s;
  base64 = shifted;
  json = numbers;
  stringify = λ m. metadata_codec.put m;
  parse = λ bs. decoded metadata_codec bs;
  parse-stringify = λ m. decoded-put metadata_codec m;
}

-- Redis as a function from keys to members.
abbrev put_at : Str → List Member → (Str → List Member) → Str → List Member
put_at key ms c other = if key === other then ms else c other

pub add_total :
    (timestamp step : ℕ) (ms : List Member)
    → total (if has_member timestamp step ms then ms else (timestamp, step) ∷ ms)
      ≡ (if has_member timestamp step ms then total ms else step + total ms)
unfolding total
add_total timestamp step ms = ground arith

pub put_at_same : (key : Str) (ms : List Member) (c : Str → List Member) → put_at key ms c key ≡ ms
put_at_same key ms c = rw (===_refl key) refl

pub put_at_other :
    (key other : Str) (ms : List Member) (c : Str → List Member)
    → key ≢ other
    → put_at key ms c other ≡ c other
put_at_other key other ms c apart = ground (arith, ===_iff key other)

abbrev pub in_memory : SortedSets
in_memory = record {
  Cache = Str → List Member;
  members = λ key c. c key;
  remove_older = λ key now period c. put_at key (in_window now period (c key)) c;
  add = λ key timestamp step c.
      put_at key (if has_member timestamp step (c key) then c key else (timestamp, step) ∷ c key) c;
  members-remove = λ key now period c. put_at_same key _ c;
  total-add =
      λ key timestamp step c. ap total (put_at_same key _ c) ∙ add_total timestamp step (c key);
  members-remove_other = λ key other now period c apart. put_at_other key other _ c apart;
  members-add_other = λ key other timestamp step c apart. put_at_other key other _ c apart;
}
