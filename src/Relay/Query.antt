-- ===== src/Relay/Query.antt =====
-- `findByFilters` of nostream-share/src/repositories/event-repository.ts, read as SQL over the rows of
-- the table of events. What the trigger of the table wrote to event_tags for an event is a parameter.
-- Among rows of the same time an `order by` may give any order; the sorting here keeps the table's.
pub mod Prefix
pub mod Matching
pub mod Tagged
pub mod Found
pub mod Complete
pub mod Tags
use nostr_mesh.Prelude.{
  ℕ, zero, suc, ◌+◌, ◌-◌, ◌*◌, ◌/◌, ◌%◌, ◌^◌, ◌≤◌, ◌<◌, ◌≡◌, refl, sym, ap, subst, ◌∙◌, ◌≢◌, ◌↔◌,
  ◌⊎◌, inl, inr, Bool, true, false, not, ◌&&◌, ◌||◌, Option, none, some, List, [], ◌∷◌, ◌++◌, map,
  arith, ltb, leb, ◌==◌, if◌then◌else◌, ltb→lt, lt→ltb, leb→le, le_of_not_ltb, eq_of_not_ne,
  ==_refl, lt_of_le, ==_iff, &&_parts, Bool-cases, Option-cases, length, get_elem?, take, drop,
  length-append, length-drop, take-append, drop-append, any, all, find, All,
}
use nostr_mesh.Prelude.Text.{
  Str, codes, ◌===◌, ===_iff, ===_refl, starts_with, includes, is_space, trim, to_lower_case,
  is_hex, is_hash, is_hex_lower, is_hash_lower, is_hash_parts, is_hash_lower_parts,
}
use nostr_mesh.Prelude.Result.{
  Result, ok, err, ◌>>=◌, ◌>>◌, throw_if, throw_if-eq-ok, >>=-eq-ok, >>=-ok, ok-injective,
}
use nostr_mesh.Prelude.Bytes.{Bytes, from_hex}
use nostr_mesh.Nostr.{Event}
use nostr_mesh.Relay.Filter.{SubscriptionFilter, is_generic_tag_query, includes_kind}
use nostr_mesh.Relay.Repository.{Row, Table, has_id}

-- The order of byte strings.
unfoldable pub bytes_leb : Bytes → Bytes → Bool
bytes_leb [] bs = true
bytes_leb (a ∷ as') [] = false
bytes_leb (a ∷ as') (b ∷ bs) = ltb a b || (a == b && bytes_leb as' bs)

-- The condition on a column for one identifier, by its length: the whole, or a prefix with an even
-- or an odd count of digits.
unfoldable pub holds_prefix : Bytes → Str → Bool
holds_prefix column prefix =
    if length prefix == 64
    then column === from_hex prefix
    else if length prefix % 2 == 0
    then take (length prefix / 2) column === from_hex prefix
    else (bytes_leb (from_hex (prefix ++ codes "0")) (take (length prefix / 2 + 1) column)
        && bytes_leb (take (length prefix / 2 + 1) column) (from_hex (prefix ++ codes "f")))

-- No list asks nothing; an empty one is `1 = 0`.
abbrev pub holds_prefixes : Option (List Str) → Bytes → Bool
holds_prefixes none column = true
holds_prefixes (some []) column = false
holds_prefixes (some (p ∷ ps)) column = any (holds_prefix column) (p ∷ ps)

abbrev pub in_kinds : Option (List ℕ) → ℕ → Bool
in_kinds none kind = true
in_kinds (some kinds) kind = includes_kind kinds kind

abbrev pub at_least : Option ℕ → ℕ → Bool
at_least none t = true
at_least (some since) t = leb since t

abbrev pub at_most : Option ℕ → ℕ → Bool
at_most none t = true
at_most (some until) t = leb t until

-- The conditions on the columns of the table.
unfoldable pub condition : SubscriptionFilter → Row → Bool
condition filter row =
    holds_prefixes filter.authors (from_hex row.event.pubkey)
    && holds_prefixes filter.ids (from_hex row.event.id)
    && in_kinds filter.kinds row.event.kind
    && at_least filter.since row.event.created_at
    && at_most filter.until row.event.created_at

-- The condition of a tag query on a row of event_tags, or on the nulls of a row that has none.
abbrev pub tag_holds : Option (Str × Str) → Str × List Str → Bool
tag_holds none (key, criteria) = false
tag_holds (some (name, value)) (key, criteria) =
    any (λ criterion. name === drop 1 key && value === criterion) criteria

unfoldable pub entry_holds : Option (Str × Str) → Str × List Str → Bool
entry_holds tag entry = not (is_generic_tag_query entry.0) || tag_holds tag entry

-- The rows of a left join.
abbrev pub left_join : List (Str × Str) → List (Option (Str × Str))
left_join [] = none ∷ []
left_join (t ∷ ts) = map some (t ∷ ts)

-- A row once for each place of a list that passes.
abbrev pub times_passed {ℓ} : {A : Type ℓ} → (A → Bool) → Row → List A → List Row
times_passed p row [] = []
times_passed p row (x ∷ xs) = let rest = times_passed p row xs in if p x then row ∷ rest else rest

unfoldable pub insert_by : (Row → Row → Bool) → Row → List Row → List Row
insert_by before row [] = row ∷ []
insert_by before row (r ∷ rs) =
    let rest = insert_by before row rs in if before row r then row ∷ r ∷ rs else r ∷ rest

unfoldable pub sort_by : (Row → Row → Bool) → List Row → List Row
sort_by before [] = []
sort_by before (r ∷ rs) = insert_by before r (sort_by before rs)

abbrev pub ascending : Row → Row → Bool
ascending r s = leb r.event.created_at s.event.created_at

abbrev pub descending : Row → Row → Bool
descending r s = leb s.event.created_at r.event.created_at

-- `limit` and `orderBy`.
unfoldable pub limited : Option ℕ → List Row → List Row
limited (some n) rows = take n (sort_by descending rows)
limited none rows = take 500 (sort_by ascending rows)

-- The rows of a union: each once.
unfoldable pub distinct : List Row → List Row
distinct [] = []
distinct (r ∷ rs) = let rest = distinct rs in if any (has_id r.event.id) rs then rest else r ∷ rest

-- The condition on identifiers names the column event_id, which is in both tables of a join.
abbrev pub names_event_id : Option (List Str) → Bool
names_event_id none = false
names_event_id (some []) = false
names_event_id (some (p ∷ ps)) = true

unfoldable pub is_ambiguous : SubscriptionFilter → Bool
is_ambiguous filter =
    names_event_id filter.ids
    && any (λ (entry : Str × List Str). is_generic_tag_query entry.0) filter.entries

module _ (tags_of : Event → List (Str × Str)) where
  -- What a row adds to the selection: with a tag query, once for each row of the join that passes.
  unfoldable pub selected : SubscriptionFilter → Row → List Row
  selected filter row =
      if not (condition filter row)
      then []
      else if any (λ (entry : Str × List Str). is_generic_tag_query entry.0) filter.entries
      then times_passed (λ tag. all (entry_holds tag) filter.entries) row
          (left_join (tags_of row.event))
      else row ∷ []

  unfoldable pub select : SubscriptionFilter → Table → List Row
  select filter [] = []
  select filter (row ∷ rows) = selected filter row ++ select filter rows

  -- The other queries of a union, each with its own order and limit.
  unfoldable pub subqueries : List SubscriptionFilter → Table → List Row
  subqueries [] table = []
  subqueries (filter ∷ filters) table =
      limited filter.limit (select filter table) ++ subqueries filters table

  -- The rows of all queries: the order and the limit of the first one are those of the whole union.
  unfoldable pub found : SubscriptionFilter → List SubscriptionFilter → Table → List Row
  found filter [] table = limited filter.limit (select filter table)
  found filter (other ∷ filters) table =
      limited filter.limit (distinct (select filter table ++ subqueries (other ∷ filters) table))

  -- `findByFilters`, and what the database answers to the query.
  unfoldable pub find_by_filters : List SubscriptionFilter → Table → Result Str (List Row)
  find_by_filters [] table = err (codes "Filters cannot be empty")
  find_by_filters (filter ∷ filters) table =
      if any is_ambiguous (filter ∷ filters)
      then err (codes "column reference \"event_id\" is ambiguous")
      else ok (found filter filters table)
