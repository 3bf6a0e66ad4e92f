-- ===== src/Relay/Filter.antt =====
-- Subscription filters: `isEventMatchingFilter` of nostream-share/src/utils/event.ts and
-- `isGenericTagQuery` of nostream-share/src/utils/filter.ts. The members of a filter that hold an
-- array under another name than the six known ones are its `entries`.
pub mod Laws
use nostr_mesh.Prelude.{
  ℕ, zero, suc, ◌+◌, ◌-◌, ◌*◌, ◌/◌, ◌%◌, ◌^◌, ◌≤◌, ◌<◌, ◌≡◌, refl, sym, ap, subst, ◌∙◌, ◌≢◌, ◌↔◌,
  ◌⊎◌, inl, inr, Bool, true, false, not, ◌&&◌, ◌||◌, Option, none, some, List, [], ◌∷◌, ◌++◌, map,
  arith, ltb, leb, ◌==◌, if◌then◌else◌, ltb→lt, lt→ltb, leb→le, le_of_not_ltb, eq_of_not_ne,
  ==_refl, lt_of_le, ==_iff, &&_parts, Bool-cases, Option-cases, length, get_elem?, take, drop,
  length-append, length-drop, take-append, drop-append, any, all, find, All,
}
use nostr_mesh.Prelude.Text.{
  Str, codes, ◌===◌, ===_iff, ===_refl, starts_with, includes, is_space, trim, to_lower_case,
  is_hex, is_hash, is_hex_lower, is_hash_lower, is_hash_parts, is_hash_lower_parts,
}
use nostr_mesh.Nostr.{Event, Tag}

pub record SubscriptionFilter : Type 0 where
  pub ids : Option (List Str)
  pub kinds : Option (List ℕ)
  pub since : Option ℕ
  pub until : Option ℕ
  pub authors : Option (List Str)
  pub limit : Option ℕ
  pub entries : List (Str × List Str)

abbrev pub is_letter : ℕ → Bool
is_letter c = (leb 97 c && leb c 122) || (leb 65 c && leb c 90)

-- `/^#[a-zA-Z]$/`.
unfoldable pub is_generic_tag_query : Str → Bool
is_generic_tag_query (h ∷ c ∷ []) = h == b'#' && is_letter c
is_generic_tag_query _ = false

-- `list.includes(number)`.
unfoldable pub includes_kind : List ℕ → ℕ → Bool
includes_kind kinds kind = any (λ k. kind == k) kinds

-- `tag[0] === key[1] && criteria.includes(tag[1])`; the name of a tag query has one code unit after #.
unfoldable pub tag_fits : Str → List Str → Tag → Bool
tag_fits name criteria (tag_name ∷ value ∷ _) = tag_name === name && includes criteria value
tag_fits name criteria _ = false

unfoldable pub entry_fails : Event → Str × List Str → Bool
unfolding tag_fits
entry_fails event (key, criteria) =
    is_generic_tag_query key && not (any (tag_fits (drop 1 key) criteria) event.tags)

abbrev pub fails_prefix : Option (List Str) → Str → Bool
fails_prefix none text = false
fails_prefix (some prefixes) text = not (any (starts_with text) prefixes)

abbrev pub fails_kind : Option (List ℕ) → ℕ → Bool
fails_kind none kind = false
fails_kind (some kinds) kind = not (includes_kind kinds kind)

abbrev pub fails_since : Option ℕ → ℕ → Bool
fails_since none t = false
fails_since (some since) t = ltb t since

abbrev pub fails_until : Option ℕ → ℕ → Bool
fails_until none t = false
fails_until (some until) t = ltb until t

unfoldable pub is_event_matching_filter : SubscriptionFilter → Event → Bool
is_event_matching_filter filter event =
    if fails_prefix filter.ids event.id
    then false
    else if fails_kind filter.kinds event.kind
    then false
    else if fails_since filter.since event.created_at
    then false
    else if fails_until filter.until event.created_at
    then false
    else if fails_prefix filter.authors event.pubkey
    then false
    else if any (entry_fails event) filter.entries
    then false
    else true
