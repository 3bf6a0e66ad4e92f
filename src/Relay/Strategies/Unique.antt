-- ===== src/Relay/Strategies/Unique.antt =====
-- Every strategy of nostream-share/src/handlers/event-strategies keeps the two unique indexes of the
-- table.
use nostr_mesh.Prelude.{
  ℕ, ◌≡◌, refl, sym, subst, ◌∙◌, inl, inr, false, Option, none, List, [], ◌∷◌, map, arith, ◌==◌,
  if◌then◌else◌, Bool-cases, length, All,
}
use nostr_mesh.Prelude.Text.{Str}
use nostr_mesh.Nostr.{Event}
use nostr_mesh.Relay.Kinds.{
  Strategy, replaceable, ephemeral, delete, parameterized_replaceable, default, event_strategy,
}
use nostr_mesh.Relay.Repository.{
  Row, Table, Upserted, row_count, duplicate_event_id, conflicts, has_id, upsert, mark_deleted,
  delete_by_pubkey_and_ids, null,
}
use nostr_mesh.Relay.Repository.Laws.{IsUnique}
use nostr_mesh.Relay.Repository.Unique.{create-IsUnique, upsert-IsUnique}
use nostr_mesh.Relay.Strategies.{
  Effect, new_row, upserted, event_ids_to_delete, execute_default, execute_delete,
  execute_ephemeral, execute_parameterized, execute_replaceable, execute_as, execute,
}

module _ (pubkey : Str) (ids : List Str) where
  abbrev marked : Row → Row
  marked = mark_deleted pubkey ids

  marked_event : (r : Row) → (marked r).event ≡ r.event
  unfolding mark_deleted
  marked_event r = ground arith

  marked_deduplication : (r : Row) → (marked r).deduplication ≡ r.deduplication
  unfolding mark_deleted
  marked_deduplication r = ground arith

  conflicts-mark_deleted : (a b : Row) → conflicts (marked a) (marked b) ≡ conflicts a b
  unfolding conflicts
  conflicts-mark_deleted a b =
      rw (marked_event a, marked_event b, marked_deduplication a, marked_deduplication b) refl

  All-conflicts-mark_deleted :
      (a : Row) (t : Table)
      → All (λ r. conflicts a r ≡ false) t
      → All (λ r. conflicts (marked a) r ≡ false) (map marked t)
  All-conflicts-mark_deleted a [] h = tt
  All-conflicts-mark_deleted a (r ∷ t) (h, hs) =
      (conflicts-mark_deleted a r ∙ h, All-conflicts-mark_deleted a t hs)

  All-has_id-mark_deleted :
      (a : Row) (t : Table)
      → All (λ r. has_id a.event.id r ≡ false) t
      → All (λ r. has_id (marked a).event.id r ≡ false) (map marked t)
  All-has_id-mark_deleted a [] h = tt
  All-has_id-mark_deleted a (r ∷ t) (h, hs) =
      (rw (marked_event a, marked_event r) h, All-has_id-mark_deleted a t hs)

  map-IsUnique : (t : Table) → IsUnique t → IsUnique (map marked t)
  map-IsUnique [] u = tt
  map-IsUnique (r ∷ t) (c, i, u) =
      (All-conflicts-mark_deleted r t c, All-has_id-mark_deleted r t i, map-IsUnique t u)

  delete-IsUnique : (t : Table) → IsUnique t → IsUnique (delete_by_pubkey_and_ids pubkey ids t)
  unfolding delete_by_pubkey_and_ids
  delete-IsUnique t u = map-IsUnique t u

module _ (event : Event) (expires : Option ℕ) (t : Table) (u : IsUnique t) where
  execute_default-IsUnique : IsUnique (execute_default event expires t).1
  unfolding execute_default
  execute_default-IsUnique = (create-IsUnique (new_row event expires null) t u).0

upserted_table :
    (event : Event) (failed : Option (List Effect)) (result : Upserted × Table)
    → (upserted event failed result).1 ≡ result.1
upserted_table event failed (row_count n, t) = refl
upserted_table event failed (duplicate_event_id, t) = refl

upserted-IsUnique :
    (event : Event) (failed : Option (List Effect)) (new : Row) (t : Table)
    → IsUnique t
    → IsUnique (upserted event failed (upsert new t)).1
upserted-IsUnique event failed new t u =
    subst IsUnique (sym (upserted_table event failed (upsert new t))) (upsert-IsUnique new t u)

deleted_table :
    (pubkey : Str) (ids : List Str) (t : Table)
    → IsUnique t
    → IsUnique (if length ids == 0 then t else delete_by_pubkey_and_ids pubkey ids t)
deleted_table pubkey ids t u = elim (Bool-cases (length ids == 0)) [
  | inl none_asked ↦ rw none_asked u
  | inr asked ↦ rw asked (delete-IsUnique pubkey ids t u)
]

execute_as-IsUnique :
    (strategy : Strategy) (event : Event) (expires : Option ℕ) (t : Table)
    → IsUnique t
    → IsUnique (execute_as strategy event expires t).1
unfolding execute_replaceable execute_ephemeral execute_delete execute_parameterized
execute_as-IsUnique replaceable event expires t u = upserted-IsUnique event _ _ t u
execute_as-IsUnique ephemeral event expires t u = u
execute_as-IsUnique delete event expires t u =
    execute_default-IsUnique event expires _
      (deleted_table event.pubkey (event_ids_to_delete event.tags) t u)
execute_as-IsUnique parameterized_replaceable event expires t u = upserted-IsUnique event none _ t u
execute_as-IsUnique default event expires t u = execute_default-IsUnique event expires t u

-- Whatever strategy an event has, the unique indexes hold behind it if they held before.
pub execute-IsUnique :
    (event : Event) (expires : Option ℕ) (t : Table)
    → IsUnique t
    → IsUnique (execute event expires t).1
unfolding execute
execute-IsUnique event expires t u = execute_as-IsUnique (event_strategy event) event expires t u
