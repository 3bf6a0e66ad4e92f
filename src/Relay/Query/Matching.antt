-- ===== src/Relay/Query/Matching.antt =====
-- The selection of nostream-share/src/repositories/event-repository.ts against the match of a live
-- event with a filter, `isEventMatchingFilter` of nostream-share/src/utils/event.ts.
use nostr_mesh.Prelude.{
  ℕ, ◌≡◌, refl, ◌∙◌, Bool, true, false, not, ◌&&◌, Option, none, some, List, [], ◌∷◌, ◌++◌, arith,
  if◌then◌else◌, any, All,
}
use nostr_mesh.Prelude.Text.{Str, starts_with, is_hash_lower, is_hash_lower_parts}
use nostr_mesh.Prelude.Bytes.{from_hex}
use nostr_mesh.Nostr.{Event}
use nostr_mesh.Relay.Filter.{
  SubscriptionFilter, is_generic_tag_query, includes_kind, entry_fails, is_event_matching_filter,
  fails_prefix, fails_kind, fails_since, fails_until,
}
use nostr_mesh.Relay.Repository.{Row}
use nostr_mesh.Relay.Query.{
  holds_prefix, holds_prefixes, in_kinds, at_least, at_most, condition, selected, select,
}
use nostr_mesh.Relay.Query.Prefix.{IsPrefix, holds_prefix_lem}

-- What the schema of filters asks of a list of identifiers.
abbrev pub ArePrefixes : Option (List Str) → Type 0
ArePrefixes none = Unit
ArePrefixes (some ps) = All IsPrefix ps

prefixes_any :
    (s : Str) (ps : List Str)
    → is_hash_lower s ≡ true
    → All IsPrefix ps
    → any (holds_prefix (from_hex s)) ps ≡ any (starts_with s) ps
prefixes_any s [] hash all_ = refl
prefixes_any s (p ∷ ps) hash (here, there) =
    let (size, digits) = is_hash_lower_parts s hash in
    rw (holds_prefix_lem s p size digits here, prefixes_any s ps hash there) refl

twice_not : (b : Bool) → b ≡ not (not b)
twice_not b = ground arith

prefixes_same :
    (s : Str) (o : Option (List Str))
    → is_hash_lower s ≡ true
    → ArePrefixes o
    → holds_prefixes o (from_hex s) ≡ not (fails_prefix o s)
prefixes_same s none hash all_ = refl
prefixes_same s (some []) hash all_ = refl
prefixes_same s (some (p ∷ ps)) hash all_ =
    prefixes_any s (p ∷ ps) hash all_ ∙ twice_not (any (starts_with s) (p ∷ ps))

kinds_same : (o : Option (List ℕ)) (kind : ℕ) → in_kinds o kind ≡ not (fails_kind o kind)
kinds_same none kind = refl
kinds_same (some kinds) kind = twice_not (includes_kind kinds kind)

since_same : (o : Option ℕ) (t : ℕ) → at_least o t ≡ not (fails_since o t)
since_same none t = refl
since_same (some since) t = ground arith

until_same : (o : Option ℕ) (t : ℕ) → at_most o t ≡ not (fails_until o t)
until_same none t = refl
until_same (some until) t = ground arith

-- An entry that is no tag query neither fails nor asks.
abbrev is_tag_entry : Str × List Str → Bool
is_tag_entry entry = is_generic_tag_query entry.0

tagless_passes :
    (event : Event) (entries : List (Str × List Str))
    → any is_tag_entry entries ≡ false
    → any (entry_fails event) entries ≡ false
unfolding entry_fails
tagless_passes event [] h = refl
tagless_passes event ((key, criteria) ∷ rest) h =
    let here : is_generic_tag_query key ≡ false = ground arith in
    rw here (tagless_passes event rest (ground arith))

all_conditions :
    (ids kinds since until authors : Bool)
    → (not authors && not ids && not kinds && not since && not until) ≡ (
        if ids
        then false
        else if kinds
        then false
        else if since
        then false
        else if until
        then false
        else if authors
        then false
        else if false
        then false
        else true)
all_conditions ids kinds since until authors = ground arith

condition-is_event_matching_filter :
    (filter : SubscriptionFilter) (row : Row)
    → is_hash_lower row.event.id ≡ true
    → is_hash_lower row.event.pubkey ≡ true
    → ArePrefixes filter.ids
    → ArePrefixes filter.authors
    → any is_tag_entry filter.entries ≡ false
    → condition filter row ≡ is_event_matching_filter filter row.event
unfolding condition is_event_matching_filter
condition-is_event_matching_filter filter row id pubkey ids authors tagless =
    rw
      (
        prefixes_same row.event.pubkey filter.authors pubkey authors,
        prefixes_same row.event.id filter.ids id ids,
        kinds_same filter.kinds row.event.kind,
        since_same filter.since row.event.created_at,
        until_same filter.until row.event.created_at,
        tagless_passes row.event filter.entries tagless,
      )
      (all_conditions (fails_prefix filter.ids row.event.id)
        (fails_kind filter.kinds row.event.kind) (fails_since filter.since row.event.created_at)
        (fails_until filter.until row.event.created_at)
        (fails_prefix filter.authors row.event.pubkey))

-- What the relay stores: identifiers of 64 lower-case digits.
abbrev pub IsStored : Row → Type 0
IsStored row = (is_hash_lower row.event.id ≡ true) × (is_hash_lower row.event.pubkey ≡ true)

-- The rows that a live subscription would have been sent, in the order of the table.
abbrev pub matching : SubscriptionFilter → List Row → List Row
matching filter [] = []
matching filter (row ∷ rows) =
    let rest = matching filter rows in
    if is_event_matching_filter filter row.event then row ∷ rest else rest

module _ (tags_of : Event → List (Str × Str)) where
  if_swap :
      (b : Bool) (row : Row) (rest : List Row)
      → (if not b then [] else row ∷ []) ++ rest ≡ (if b then row ∷ rest else rest)
  if_swap true row rest = refl
  if_swap false row rest = refl

  -- Where no entry of the filter is a tag query, its prefixes are lower-case hexadecimal texts of at
  -- most 64 digits, and the rows have identifiers of 64 such digits, the query selects exactly the
  -- rows that match the filter as a live event has to, `isEventMatchingFilter`, each once.
  pub select-matching :
      (filter : SubscriptionFilter) (rows : List Row)
      → ArePrefixes filter.ids
      → ArePrefixes filter.authors
      → any is_tag_entry filter.entries ≡ false
      → All IsStored rows
      → select tags_of filter rows ≡ matching filter rows
  unfolding select selected
  select-matching filter [] ids authors tagless stored = refl
  select-matching filter (row ∷ rows) ids authors tagless ((id, pubkey), stored) =
      rw
        (
          tagless,
          condition-is_event_matching_filter filter row id pubkey ids authors tagless,
          select-matching filter rows ids authors tagless stored,
        )
        (if_swap (is_event_matching_filter filter row.event) row (matching filter rows))
