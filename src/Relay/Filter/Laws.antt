-- ===== src/Relay/Filter/Laws.antt =====
-- What it means that an event matches a filter.
use nostr_mesh.Prelude.{
  ℕ, ◌≤◌, ◌≡◌, refl, ap, ◌↔◌, inl, inr, Bool, true, false, not, Option, none, some, List, [], ◌∷◌,
  ◌++◌, arith, ◌==◌, if◌then◌else◌, le_of_not_ltb, ==_refl, lt_of_le, ==_iff, &&_parts, Bool-cases,
  drop, All,
}
use nostr_mesh.Prelude.Text.{Str, ◌===◌, ===_iff, starts_with, includes}
use nostr_mesh.Prelude.Any.{Any, any_iff, none_iff}
use nostr_mesh.Nostr.{Event, Tag}
use nostr_mesh.Relay.Filter.{
  SubscriptionFilter, is_generic_tag_query, includes_kind, tag_fits, entry_fails,
  is_event_matching_filter, fails_prefix, fails_kind, fails_since, fails_until,
}

-- What a member of a filter asks, where it is there.
abbrev pub Asked {ℓ κ} : {A : Type ℓ} → Option A → (A → Type κ) → Type κ
Asked none P = Unit
Asked (some a) P = P a

abbrev pub IsPrefixOf : Str → Str → Type 0
IsPrefixOf text prefix = (rest : Str) × (text ≡ prefix ++ rest)

-- A tag with this name whose value is one of the criteria.
abbrev pub Fits : Str → List Str → Tag → Type 0
Fits name criteria tag =
    (value : Str) × (more : List Str) × (tag ≡ name ∷ value ∷ more) × Any (λ c. value ≡ c) criteria

pub record Matches (filter : SubscriptionFilter) (event : Event) : Type 0 where
  pub ids : Asked filter.ids (Any (IsPrefixOf event.id))
  pub kinds : Asked filter.kinds (Any (λ k. event.kind ≡ k))
  pub since : Asked filter.since (λ t. t ≤ event.created_at)
  pub until : Asked filter.until (λ t. event.created_at ≤ t)
  pub authors : Asked filter.authors (Any (IsPrefixOf event.pubkey))
  pub tags :
      All
        (λ (entry : Str × List Str).
          is_generic_tag_query entry.0 ≡ true → Any (Fits (drop 1 entry.0) entry.1) event.tags)
        filter.entries

starts_with_sound : (text prefix : Str) → starts_with text prefix ≡ true → IsPrefixOf text prefix
unfolding starts_with
starts_with_sound text [] h = (text, refl)
starts_with_sound [] (p ∷ ps) h = cc
starts_with_sound (c ∷ cs) (p ∷ ps) h =
    let (here, rest) = &&_parts (c == p) (starts_with cs ps) h in
    let (more, e) = starts_with_sound cs ps rest in (more, ground (arith, e))

starts_with-append : (prefix rest : Str) → starts_with (prefix ++ rest) prefix ≡ true
unfolding starts_with
starts_with-append [] rest = refl
starts_with-append (p ∷ ps) rest = rw (==_refl p) (starts_with-append ps rest)

starts_with_complete : (text prefix : Str) → IsPrefixOf text prefix → starts_with text prefix ≡ true
starts_with_complete text prefix (rest, e) = rw e (starts_with-append prefix rest)

if_false : (b : Bool) (c : Bool) → (if b then false else c) ≡ true → (b ≡ false) × (c ≡ true)
if_false b c h = ground arith

includes_complete :
    (x : Str) (xs : List Str) (s : Str)
    → (Any (λ c. s ≡ c) xs → includes xs s ≡ true)
    → Any (λ c. s ≡ c) (x ∷ xs)
    → includes (x ∷ xs) s ≡ true
unfolding includes
includes_complete x xs s f (inl e) = rw ((===_iff s x).1 e)
includes_complete x xs s f (inr h) = let e = f h in ground arith

starts_with_iff : (text prefix : Str) → (starts_with text prefix ≡ true) ↔ IsPrefixOf text prefix
starts_with_iff text prefix = (starts_with_sound text prefix, starts_with_complete text prefix)

not-true : (b : Bool) → not b ≡ false → b ≡ true
not-true b h = ground arith

prefix_iff :
    (o : Option (List Str)) (text : Str)
    → (fails_prefix o text ≡ false) ↔ Asked o (Any (IsPrefixOf text))
prefix_iff none text = (λ h. tt, λ h. refl)
prefix_iff (some prefixes) text =
    let (to, from) = any_iff (starts_with text) (IsPrefixOf text) (starts_with_iff text) prefixes in
    (λ h. to (not-true _ h), λ h. rw (from h))

kind_iff :
    (o : Option (List ℕ)) (kind : ℕ) → (fails_kind o kind ≡ false) ↔ Asked o (Any (λ k. kind ≡ k))
unfolding includes_kind
kind_iff none kind = (λ h. tt, λ h. refl)
kind_iff (some kinds) kind =
    let (to, from) = any_iff (λ k. kind == k) (λ k. kind ≡ k) (λ k. ==_iff kind k) kinds in
    (λ h. to (not-true _ h), λ h. rw (from h))

since_iff : (o : Option ℕ) (t : ℕ) → (fails_since o t ≡ false) ↔ Asked o (λ s. s ≤ t)
since_iff none t = (λ h. tt, λ h. refl)
since_iff (some s) t = (λ h. le_of_not_ltb t s h, λ h. lt_of_le s t h)

until_iff : (o : Option ℕ) (t : ℕ) → (fails_until o t ≡ false) ↔ Asked o (λ u. t ≤ u)
until_iff none t = (λ h. tt, λ h. refl)
until_iff (some u) t = (λ h. le_of_not_ltb u t h, λ h. lt_of_le t u h)

includes_iff : (xs : List Str) (s : Str) → (includes xs s ≡ true) ↔ Any (λ c. s ≡ c) xs
unfolding includes
includes_iff [] s = (λ h. cc, λ h. absurd h)
includes_iff (x ∷ xs) s = (
  (λ h. elim (Bool-cases (s === x)) [
    | inl e ↦ inl ((===_iff s x).0 e)
    | inr e ↦ inr ((includes_iff xs s).0 (rw e at h))
  ]),
  includes_complete x xs s (includes_iff xs s).1,
)

tag_fits_iff :
    (name : Str) (criteria : List Str) (tag : Tag)
    → (tag_fits name criteria tag ≡ true) ↔ Fits name criteria tag
unfolding tag_fits
tag_fits_iff name criteria [] = (λ h. cc, λ h. ground (arith, h.2))
tag_fits_iff name criteria (n ∷ []) = (λ h. cc, λ h. ground (arith, h.2))
tag_fits_iff name criteria (n ∷ v ∷ more) = (
  (λ h.
      let (named, held) = &&_parts (n === name) (includes criteria v) h in
      let same = (===_iff n name).0 named in
      (v, more, ap (λ t. t ∷ v ∷ more) same, (includes_iff criteria v).0 held)),
  (λ (value, more', e, held).
      let same_name : n ≡ name = cc in
      let same_value : v ≡ value = cc in
      rw ((===_iff n name).1 same_name, same_value, (includes_iff criteria value).1 held)),
)

entry_iff :
    (event : Event) (entry : Str × List Str)
    → (entry_fails event entry ≡ false)
      ↔ (is_generic_tag_query entry.0 ≡ true → Any (Fits (drop 1 entry.0) entry.1) event.tags)
unfolding entry_fails
entry_iff event (key, criteria) =
    let (to, from) =
      any_iff (tag_fits (drop 1 key) criteria) (Fits (drop 1 key) criteria)
        (tag_fits_iff (drop 1 key) criteria) event.tags in
    (
      (λ h generic. to (not-true _ (rw generic at h))),
      (λ h. elim (Bool-cases (is_generic_tag_query key)) [
        | inl generic ↦ rw (generic, from (h generic))
        | inr other ↦ rw other
      ]),
    )

-- An event matches exactly if it meets all that the filter asks.
pub is_event_matching_filter_iff :
    (filter : SubscriptionFilter) (event : Event)
    → (is_event_matching_filter filter event ≡ true) ↔ Matches filter event
unfolding is_event_matching_filter
is_event_matching_filter_iff filter event =
    let entries = none_iff (entry_fails event) _ (entry_iff event) filter.entries in
    (
      (λ h.
          let (ids, h₁) = if_false _ _ h in
          let (kinds, h₂) = if_false _ _ h₁ in
          let (since, h₃) = if_false _ _ h₂ in
          let (until, h₄) = if_false _ _ h₃ in
          let (authors, h₅) = if_false _ _ h₄ in
          let (tags, _) = if_false _ _ h₅ in
          record {
            ids = (prefix_iff filter.ids event.id).0 ids;
            kinds = (kind_iff filter.kinds event.kind).0 kinds;
            since = (since_iff filter.since event.created_at).0 since;
            until = (until_iff filter.until event.created_at).0 until;
            authors = (prefix_iff filter.authors event.pubkey).0 authors;
            tags = entries.0 tags;
          }),
      (λ m. rw (
        (prefix_iff filter.ids event.id).1 m.ids,
        (kind_iff filter.kinds event.kind).1 m.kinds,
        (since_iff filter.since event.created_at).1 m.since,
        (until_iff filter.until event.created_at).1 m.until,
        (prefix_iff filter.authors event.pubkey).1 m.authors,
        entries.1 m.tags,
      )),
    )
