-- ===== src/Api/NostrClient.antt =====
-- api/src/nostr/client.ts: what relays answer is reduced to the newest event for each key. The map
-- from keys to events is the list of its values in the order of insertion: the key of an entry is the
-- key of its event. `Array.prototype.sort` is stable.
pub mod Order
pub mod Laws
pub mod Keys
use nostr_mesh.Prelude.{
  ℕ, zero, suc, ◌+◌, ◌-◌, ◌*◌, ◌/◌, ◌%◌, ◌^◌, ◌≤◌, ◌<◌, ◌≡◌, refl, sym, ap, subst, ◌∙◌, ◌≢◌, ◌↔◌,
  ◌⊎◌, inl, inr, Bool, true, false, not, ◌&&◌, ◌||◌, Option, none, some, List, [], ◌∷◌, ◌++◌, map,
  arith, ltb, leb, ◌==◌, if◌then◌else◌, ltb→lt, lt→ltb, leb→le, le_of_not_ltb, eq_of_not_ne,
  ==_refl, lt_of_le, ==_iff, &&_parts, Bool-cases, Option-cases, length, get_elem?, take, drop,
  length-append, length-drop, take-append, drop-append, any, all, find, All,
}
use nostr_mesh.Prelude.Text.{
  Str, codes, ◌===◌, ===_iff, ===_refl, starts_with, includes, is_space, trim, to_lower_case,
  is_hex, is_hash, is_hex_lower, is_hash_lower, is_hash_parts, is_hash_lower_parts,
}
use nostr_mesh.Prelude.Result.{
  Result, ok, err, ◌>>=◌, ◌>>◌, throw_if, throw_if-eq-ok, >>=-eq-ok, >>=-ok, ok-injective,
}
use nostr_mesh.Nostr.{Event, find_tag}
use nostr_mesh.Api.Failure.{Failure, all_relays_rejected}

unfoldable pub d_tag : Event → Option Str
unfolding find_tag
d_tag event = find_tag event.tags (codes "d")

-- A missing and an empty tag are false.
abbrev key_of : Option Str → Str → Str
key_of none id = codes "id:" ++ id
key_of (some []) id = codes "id:" ++ id
key_of (some (c ∷ cs)) id = codes "d:" ++ (c ∷ cs)

unfoldable pub dedupe_key : Event → Str
unfolding d_tag
dedupe_key event = key_of (d_tag event) event.id

-- `sort((a, b) => b.created_at - a.created_at)`.
unfoldable pub insert_newest : Event → List Event → List Event
insert_newest x [] = x ∷ []
insert_newest x (y ∷ ys) =
    let later = y ∷ insert_newest x ys in
    if ltb x.created_at y.created_at then later else x ∷ y ∷ ys

unfoldable pub sort_newest : List Event → List Event
unfolding insert_newest
sort_newest [] = []
sort_newest (x ∷ xs) = insert_newest x (sort_newest xs)

-- `byKey.has(key)`.
unfoldable pub holds_key : Str → List Event → Bool
unfolding ◌===◌
holds_key key [] = false
holds_key key (e ∷ es) = dedupe_key e === key || holds_key key es

-- The loop over the sorted events.
unfoldable pub collect : List Event → List Event → List Event
collect by_key [] = by_key
collect by_key (e ∷ es) =
    collect (if holds_key (dedupe_key e) by_key then by_key else by_key ++ e ∷ []) es

unfoldable pub dedupe_events : List Event → List Event
dedupe_events events = sort_newest (collect [] (sort_newest events))

-- `await Promise.any(publishPromises)`: one outcome for each relay, true if it accepted.
unfoldable pub publish_event : List Bool → Result Failure (Unit {0})
publish_event outcomes = throw_if (not (any (λ accepted. accepted) outcomes)) all_relays_rejected

abbrev pub head : List Event → Option Event
head [] = none
head (e ∷ _) = some e
