-- ===== src/Nostr.antt =====
-- Nostr events as all the services exchange them (nostr-tools' `Event`, and
-- nostream-share/src/@types/event.ts), with the look-up of a tag, and what the API and the blob
-- server use of the package nostr-tools, as a parameter.
use nostr_mesh.Prelude.{ℕ, ◌≡◌, ◌≢◌, Bool, true, Option, none, some, List, [], ◌∷◌, get_elem?, find}
use nostr_mesh.Prelude.Text.{Str, ◌===◌, trim}
use nostr_mesh.Prelude.Bytes.{Bytes}

abbrev pub Tag : Type 0
Tag = List Str

pub record Event : Type 0 where
  pub id : Str
  pub pubkey : Str
  pub created_at : ℕ
  pub kind : ℕ
  pub tags : List Tag
  pub content : Str
  pub sig : Str

-- nostr-tools' `EventTemplate`: an event before it is signed.
pub record EventTemplate : Type 0 where
  pub kind : ℕ
  pub created_at : ℕ
  pub tags : List Tag
  pub content : Str

-- `entry[0] === key`; an empty tag has no first item.
unfoldable pub has_key : Str → Tag → Bool
unfolding ◌===◌
has_key key [] = Bool.false
has_key key (name ∷ _) = name === key

abbrev second : Option Tag → Option Str
second none = none
second (some tag) = get_elem? tag 1

-- `tags.find((entry) => entry[0] === key)?.[1]`.
unfoldable pub find_tag : List Tag → Str → Option Str
unfolding has_key
find_tag tags key = second (find (has_key key) tags)

-- An event as the blob server reads it from JSON (`NostrAuthEvent` of blossom/src/server.ts): three
-- fields may be missing.
pub record AuthEvent : Type 0 where
  pub id : Option Str
  pub sig : Option Str
  pub pubkey : Option Str
  pub kind : ℕ
  pub created_at : ℕ
  pub tags : List Tag
  pub content : Option Str

abbrev pub auth_event : Event → AuthEvent
auth_event e = record {
  id = some e.id;
  sig = some e.sig;
  pubkey = some e.pubkey;
  kind = e.kind;
  created_at = e.created_at;
  tags = e.tags;
  content = some e.content;
}

-- nostr-tools: signing keeps the template, and what was signed verifies.
pub record Signer : Type 0 where
  pub finalize_event : EventTemplate → Bytes → Event
  pub verify_event : AuthEvent → Bool
  pub finalize-kind : (t : EventTemplate) (key : Bytes) → (finalize_event t key).kind ≡ t.kind
  pub finalize-created_at :
      (t : EventTemplate) (key : Bytes) → (finalize_event t key).created_at ≡ t.created_at
  pub finalize-tags : (t : EventTemplate) (key : Bytes) → (finalize_event t key).tags ≡ t.tags
  pub finalize-content :
      (t : EventTemplate) (key : Bytes) → (finalize_event t key).content ≡ t.content
  pub finalize_complete :
      (t : EventTemplate) (key : Bytes)
      → ((finalize_event t key).id ≢ [])
        × ((finalize_event t key).sig ≢ [])
        × ((finalize_event t key).pubkey ≢ [])
  pub verify-finalize :
      (t : EventTemplate) (key : Bytes) → verify_event (auth_event (finalize_event t key)) ≡ true

-- `Buffer.from(text, "base64")` and `toString("base64")`.
pub record Base64 : Type 0 where
  pub to_base64 : Bytes → Str
  pub from_base64 : Str → Bytes
  pub from-to_base64 : (bs : Bytes) → from_base64 (to_base64 bs) ≡ bs
  -- White space is no digit of base64.
  pub trim-to_base64 : (bs : Bytes) → trim (to_base64 bs) ≡ to_base64 bs

-- `JSON.stringify` of an event and `JSON.parse(…) as NostrAuthEvent`, as UTF-8; `none` is a text that
-- is no JSON.
pub record EventJson : Type 0 where
  pub stringify_event : Event → Bytes
  pub parse_event : Bytes → Option AuthEvent
  pub parse-stringify_event : (e : Event) → parse_event (stringify_event e) ≡ some (auth_event e)
