-- ===== src/Relay/Query/Tags.antt =====
-- Filters with two tag queries, nostream-share/src/repositories/event-repository.ts.
use nostr_mesh.Prelude.{
  ℕ, ◌≡◌, refl, inl, inr, true, false, ◌&&◌, Option, none, some, List, [], ◌∷◌, arith, ◌==◌,
  Bool-cases, any, all,
}
use nostr_mesh.Prelude.Text.{Str, ◌===◌}
use nostr_mesh.Nostr.{Event}
use nostr_mesh.Relay.Filter.{SubscriptionFilter, is_letter, is_generic_tag_query}
use nostr_mesh.Relay.Repository.{Row, Table}
use nostr_mesh.Relay.Query.{condition, entry_holds, left_join, times_passed, selected, select}

-- `#` and a letter.
abbrev pub key : ℕ → Str
key letter = b'#' ∷ letter ∷ []

other_name :
    (name value : Str) (letter : ℕ) (criteria : List Str)
    → (name === letter ∷ []) ≡ false
    → any (λ criterion. name === letter ∷ [] && value === criterion) criteria ≡ false
other_name name value letter [] h = refl
other_name name value letter (c ∷ cs) h = rw h (other_name name value letter cs h)

one_name :
    (name : Str) (a b : ℕ) → (a == b) ≡ false → (name === a ∷ []) ≡ true → (name === b ∷ []) ≡ false
unfolding ◌===◌
one_name [] a b h k = cc
one_name (c ∷ []) a b h k = ground arith
one_name (c ∷ d ∷ cs) a b h k = ground arith

is_key : (letter : ℕ) → is_letter letter ≡ true → is_generic_tag_query (key letter) ≡ true
unfolding is_generic_tag_query
is_key letter h = rw h refl

module _ (a b : ℕ) (first second : List Str) where
  no_tag_holds :
      (tag : Option (Str × Str))
      → is_letter a ≡ true
      → is_letter b ≡ true
      → (a == b) ≡ false
      → all (entry_holds tag) ((key a, first) ∷ (key b, second) ∷ []) ≡ false
  unfolding entry_holds
  no_tag_holds none la lb differ = rw (is_key a la) refl
  no_tag_holds (some (name, value)) la lb differ = elim (Bool-cases (name === a ∷ [])) [
    | inl same ↦
        rw
          (is_key a la, is_key b lb, other_name name value b second (one_name name a b differ same))
          (ground arith)
    | inr other ↦ rw (is_key a la, other_name name value a first other) refl
  ]

  none_passed :
      (row : Row) (tags : List (Option (Str × Str)))
      → is_letter a ≡ true
      → is_letter b ≡ true
      → (a == b) ≡ false
      → times_passed (λ tag. all (entry_holds tag) ((key a, first) ∷ (key b, second) ∷ [])) row tags
        ≡ []
  none_passed row [] la lb differ = refl
  none_passed row (tag ∷ tags) la lb differ =
      rw (no_tag_holds tag la lb differ) (none_passed row tags la lb differ)

-- A filter with tag queries on two different letters selects no row of any table, whatever the tags of
-- the stored events are: both conditions are on one row of event_tags.
pub select_two_tags :
    (tags_of : Event → List (Str × Str)) (filter : SubscriptionFilter) (a b : ℕ)
    (first second : List Str)
    → (table : Table) → filter.entries ≡ (key a, first) ∷ (key b, second) ∷ []
    → is_letter a ≡ true
    → is_letter b ≡ true
    → (a == b) ≡ false
    → select tags_of filter table ≡ []
unfolding select selected
select_two_tags tags_of filter a b first second [] e la lb differ = refl
select_two_tags tags_of filter a b first second (row ∷ rows) e la lb differ =
    elim (Bool-cases (condition filter row)) [
      | inl holds ↦
          rw
            (
              holds,
              e,
              is_key a la,
              none_passed a b first second row (left_join (tags_of row.event)) la lb differ,
            )
            (select_two_tags tags_of filter a b first second rows e la lb differ)
      | inr fails ↦ rw fails (select_two_tags tags_of filter a b first second rows e la lb differ)
    ]
