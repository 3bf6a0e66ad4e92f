-- ===== src/Relay/Query/Tagged.antt =====
-- What the tag queries of a filter ask of a stored event, in `findByFilters` of
-- nostream-share/src/repositories/event-repository.ts.
use nostr_mesh.Prelude.{
  ◌≡◌, refl, sym, ap, ◌∙◌, ◌⊎◌, inl, inr, Bool, true, false, not, ◌&&◌, ◌||◌, none, some, List, [],
  ◌∷◌, map, arith, &&_parts, Bool-cases, drop, any, all, All,
}
use nostr_mesh.Prelude.Text.{Str, ◌===◌, ===_iff, ===_refl}
use nostr_mesh.Prelude.Any.{Any}
use nostr_mesh.Nostr.{Event}
use nostr_mesh.Relay.Filter.{SubscriptionFilter, is_generic_tag_query}
use nostr_mesh.Relay.Repository.{Row}
use nostr_mesh.Relay.Query.{condition, entry_holds, left_join, times_passed, selected}

-- A tag has the name of a tag query and one of its values.
abbrev pub Fits : Str × Str → Str × List Str → Type 0
Fits (name, value) (key, criteria) = (name ≡ drop 1 key) × Any (λ c. value ≡ c) criteria

abbrev pub Asks : Str × Str → Str × List Str → Type 0
Asks tag entry = is_generic_tag_query entry.0 ≡ true → Fits tag entry

abbrev pub is_query : Str × List Str → Bool
is_query entry = is_generic_tag_query entry.0

-- There is no tag query, or one tag of the event, as event_tags has it, fits every tag query.
abbrev pub IsTagged : List (Str × List Str) → List (Str × Str) → Type 0
IsTagged entries tags = (any is_query entries ≡ false) ⊎ Any (λ tag. All (Asks tag) entries) tags

named_sound :
    (name key value : Str) (criteria : List Str)
    → any (λ c. name === key && value === c) criteria ≡ true
    → (name ≡ key) × Any (λ c. value ≡ c) criteria
named_sound name key value [] h = cc h
named_sound name key value (c ∷ cs) h = elim (Bool-cases (name === key && value === c)) [
  | inl here ↦
      let (named, valued) = &&_parts (name === key) (value === c) here in
      ((===_iff name key).0 named, inl ((===_iff value c).0 valued))
  | inr later ↦
      let (named, more) = named_sound name key value cs (ground (arith, later)) in (named, inr more)
]

named_complete :
    (key value : Str) (criteria : List Str)
    → Any (λ c. value ≡ c) criteria
    → any (λ c. key === key && value === c) criteria ≡ true
named_complete key value [] h = elim h [ ]
named_complete key value (c ∷ cs) (inl same) = rw (same, ===_refl key, ===_refl c) refl
named_complete key value (c ∷ cs) (inr more) =
    let rest = named_complete key value cs more in ground (arith, rest)

entry_sound :
    (tag : Str × Str) (entry : Str × List Str)
    → entry_holds (some tag) entry ≡ true
    → Asks tag entry
unfolding entry_holds
entry_sound (name, value) (key, criteria) h query =
    named_sound name (drop 1 key) value criteria
      (ap (λ b. not b || any (λ c. name === drop 1 key && value === c) criteria) (sym query) ∙ h)

entry_complete :
    (tag : Str × Str) (entry : Str × List Str)
    → Asks tag entry
    → entry_holds (some tag) entry ≡ true
unfolding entry_holds
entry_complete (name, value) (key, criteria) asks = elim (Bool-cases (is_generic_tag_query key)) [
  | inr other ↦ rw other refl
  | inl query ↦
      let (named, valued) = asks query in
      rw (query, named, named_complete (drop 1 key) value criteria valued) refl
]

entries_sound :
    (tag : Str × Str) (entries : List (Str × List Str))
    → all (entry_holds (some tag)) entries ≡ true
    → All (Asks tag) entries
entries_sound tag [] h = tt
entries_sound tag (e ∷ es) h =
    let (here, there) = &&_parts (entry_holds (some tag) e) (all (entry_holds (some tag)) es) h in
    (entry_sound tag e here, entries_sound tag es there)

entries_complete :
    (tag : Str × Str) (entries : List (Str × List Str))
    → All (Asks tag) entries
    → all (entry_holds (some tag)) entries ≡ true
entries_complete tag [] h = refl
entries_complete tag (e ∷ es) (here, there) =
    rw (entry_complete tag e here, entries_complete tag es there) refl

-- A row without tags passes no tag query.
untagged :
    (entries : List (Str × List Str))
    → any is_query entries ≡ true
    → all (entry_holds none) entries ≡ false
unfolding entry_holds
untagged [] h = cc h
untagged ((key, criteria) ∷ es) h = elim (Bool-cases (is_generic_tag_query key)) [
  | inl query ↦ rw query refl
  | inr other ↦ rw other (untagged es (ap (λ b. b || any is_query es) (sym other) ∙ h))
]

-- Some place of a list passes a test.
abbrev Passing {ℓ} : {A : Type ℓ} → (A → Bool) → List A → Type 0
Passing p xs = Any (λ x. p x ≡ true) xs

joined_sound :
    (entries : List (Str × List Str)) (tags : List (Str × Str))
    → Passing (λ tag. all (entry_holds tag) entries) (map some tags)
    → Any (λ tag. All (Asks tag) entries) tags
joined_sound entries [] h = elim h [ ]
joined_sound entries (t ∷ ts) (inl here) = inl (entries_sound t entries here)
joined_sound entries (t ∷ ts) (inr there) = inr (joined_sound entries ts there)

joined_complete :
    (entries : List (Str × List Str)) (tags : List (Str × Str))
    → Any (λ tag. All (Asks tag) entries) tags
    → Passing (λ tag. all (entry_holds tag) entries) (map some tags)
joined_complete entries [] h = elim h [ ]
joined_complete entries (t ∷ ts) (inl here) = inl (entries_complete t entries here)
joined_complete entries (t ∷ ts) (inr there) = inr (joined_complete entries ts there)

join_sound :
    (entries : List (Str × List Str)) (tags : List (Str × Str))
    → any is_query entries ≡ true
    → Passing (λ tag. all (entry_holds tag) entries) (left_join tags)
    → IsTagged entries tags
join_sound entries [] query (inl here) = cc (sym (untagged entries query) ∙ here)
join_sound entries [] query (inr there) = elim there [ ]
join_sound entries (t ∷ ts) query h = inr (joined_sound entries (t ∷ ts) h)

join_complete :
    (entries : List (Str × List Str)) (tags : List (Str × Str))
    → any is_query entries ≡ true
    → IsTagged entries tags
    → Passing (λ tag. all (entry_holds tag) entries) (left_join tags)
join_complete entries tags query (inl plain) = cc (sym query ∙ plain)
join_complete entries [] query (inr h) = elim h [ ]
join_complete entries (t ∷ ts) query (inr h) = joined_complete entries (t ∷ ts) h

times_sound {ℓ} :
    {A : Type ℓ} (P : Row → Type 0) (p : A → Bool) (row : Row) (xs : List A)
    → (Passing p xs → P row)
    → All P (times_passed p row xs)
times_sound P p row [] h = tt
times_sound P p row (x ∷ xs) h = elim (Bool-cases (p x)) [
  | inl first_of ↦ rw first_of (h (inl first_of), times_sound P p row xs (λ more. h (inr more)))
  | inr later ↦ rw later (times_sound P p row xs (λ more. h (inr more)))
]

times_complete {ℓ} :
    {A : Type ℓ} (p : A → Bool) (row : Row) (xs : List A)
    → Passing p xs
    → Any (λ r. row ≡ r) (times_passed p row xs)
times_complete p row [] h = elim h [ ]
times_complete p row (x ∷ xs) (inl here) = rw here (inl refl)
times_complete p row (x ∷ xs) (inr there) = elim (Bool-cases (p x)) [
  | inl first_of ↦ rw first_of (inl refl)
  | inr later ↦ rw later (times_complete p row xs there)
]

module _ (tags_of : Event → List (Str × Str)) where
  -- What a filter asks of a row: the conditions on the columns, and the tag queries.
  pub record Meets (filter : SubscriptionFilter) (row : Row) : Type 0 where
    pub columns : condition filter row ≡ true
    pub tags : IsTagged filter.entries (tags_of row.event)

  -- A row is selected exactly where it meets the filter.
  pub selected_sound :
      (P : Row → Type 0) (filter : SubscriptionFilter) (row : Row)
      → (Meets filter row → P row)
      → All P (selected tags_of filter row)
  unfolding selected
  selected_sound P filter row h = elim (Bool-cases (condition filter row)) [
    | inr fails ↦ rw fails tt
    | inl holds ↦ elim (Bool-cases (any is_query filter.entries)) [
      | inr plain ↦ rw (holds, plain) (h (record { columns = holds; tags = inl plain }), tt)
      | inl query ↦
          rw (holds, query)
            (times_sound P (λ tag. all (entry_holds tag) filter.entries) row
              (left_join (tags_of row.event))
              (λ passing. h (record {
                columns = holds;
                tags = join_sound filter.entries (tags_of row.event) query passing;
              })))
    ]
  ]

  pub selected_complete :
      (filter : SubscriptionFilter) (row : Row)
      → Meets filter row
      → Any (λ r. row ≡ r) (selected tags_of filter row)
  unfolding selected
  selected_complete filter row meets = elim (Bool-cases (any is_query filter.entries)) [
    | inr plain ↦ rw (meets.columns, plain) (inl refl)
    | inl query ↦
        rw (meets.columns, query)
          (times_complete (λ tag. all (entry_holds tag) filter.entries) row
            (left_join (tags_of row.event))
            (join_complete filter.entries (tags_of row.event) query meets.tags))
  ]
