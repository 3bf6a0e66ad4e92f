-- ===== src/Relay/Repository.antt =====
-- nostream-share/src/repositories/event-repository.ts: the statements that write the table of events,
-- read as SQL over a list of rows. The table has a unique event_id and the partial unique index on
-- (event_pubkey, event_kind, event_deduplication) that `upsert` names: those of the migrations before
-- 20240120_000000_partition_events_table.js. That one makes `events` a partitioned table and creates
-- the two indexes on the partition events_hot only, where PostgreSQL finds none for the ON CONFLICT of
-- `create` and `upsert`; the table that it leaves is not modelled. A conversion from hexadecimal text
-- to bytes is left out: ids, keys and signatures stand as texts.
pub mod Laws
pub mod Newest
pub mod Unique
use nostr_mesh.Prelude.{
  ℕ, zero, suc, ◌+◌, ◌-◌, ◌*◌, ◌/◌, ◌%◌, ◌^◌, ◌≤◌, ◌<◌, ◌≡◌, refl, sym, ap, subst, ◌∙◌, ◌≢◌, ◌↔◌,
  ◌⊎◌, inl, inr, Bool, true, false, not, ◌&&◌, ◌||◌, Option, none, some, List, [], ◌∷◌, ◌++◌, map,
  arith, ltb, leb, ◌==◌, if◌then◌else◌, ltb→lt, lt→ltb, leb→le, le_of_not_ltb, eq_of_not_ne,
  ==_refl, lt_of_le, ==_iff, &&_parts, Bool-cases, Option-cases, length, get_elem?, take, drop,
  length-append, length-drop, take-append, drop-append, any, all, find, All,
}
use nostr_mesh.Prelude.Text.{
  Str, codes, ◌===◌, ===_iff, ===_refl, starts_with, includes, is_space, trim, to_lower_case,
  is_hex, is_hash, is_hex_lower, is_hash_lower, is_hash_parts, is_hash_lower_parts,
}
use nostr_mesh.Nostr.{Event}
use nostr_mesh.Relay.Kinds.{in_unique_index}

-- The column event_deduplication: the values of the tag "d", or the array of public key and kind, or
-- null after a plain insertion.
pub data Deduplication : Type 0 where
  values : List Str → Deduplication
  author_and_kind : Str → ℕ → Deduplication
  null : Deduplication

pub record Row : Type 0 where
  pub event : Event
  pub deduplication : Deduplication
  pub expires_at : Option ℕ
  pub is_deleted : Bool

abbrev pub Table : Type 0
Table = List Row

abbrev pub same_texts : List Str → List Str → Bool
same_texts [] [] = true
same_texts (a ∷ as') (b ∷ bs) = a === b && same_texts as' bs
same_texts _ _ = false

-- Equality in the index; a null is equal to nothing.
unfoldable pub same_deduplication : Deduplication → Deduplication → Bool
same_deduplication (values a) (values b) = same_texts a b
same_deduplication (author_and_kind p k) (author_and_kind q l) = p === q && k == l
same_deduplication _ _ = false

unfoldable pub conflicts : Row → Row → Bool
conflicts new row =
    in_unique_index row.event.kind
    && in_unique_index new.event.kind
    && row.event.pubkey === new.event.pubkey
    && row.event.kind == new.event.kind
    && same_deduplication row.deduplication new.deduplication

abbrev pub has_id : Str → Row → Bool
has_id id row = row.event.id === id

-- `create`: `insert(row).onConflict().ignore()`, and the count of rows that were inserted.
unfoldable pub create : Row → Table → ℕ × Table
create new table =
    if any (has_id new.event.id) table || any (conflicts new) table
    then (0, table)
    else (1, new ∷ table)

pub data Upserted : Type 0 where
  row_count : ℕ → Upserted
  duplicate_event_id : Upserted

-- What `merge(omit([...])(row)).where('events.event_created_at', '<', …)` makes of the row that is in
-- the way: it becomes the new one, if it is older.
unfoldable pub merge_older : Row → Table → Table
merge_older new [] = []
merge_older new (row ∷ rows) =
    (if conflicts new row && ltb row.event.created_at new.event.created_at then new else row)
    ∷ merge_older new rows

unfoldable pub has_older : Row → Table → Bool
has_older new table =
    any (λ row. conflicts new row && ltb row.event.created_at new.event.created_at) table

-- `upsert`; a row with the same id that is not merged breaks the unique event_id.
unfoldable pub upsert : Row → Table → Upserted × Table
upsert new table =
    if any (conflicts new) table
    then (if has_older new table
        then (if any (λ row. has_id new.event.id row && not (conflicts new row)) table
            then (duplicate_event_id, table)
            else (row_count 1, merge_older new table))
        else (row_count 0, table))
    else (if any (has_id new.event.id) table
        then (duplicate_event_id, table)
        else (row_count 1, new ∷ table))

-- `deleteByPubkeyAndIds`: marks the rows of the author with these ids.
unfoldable pub mark_deleted : Str → List Str → Row → Row
mark_deleted pubkey ids row =
    if row.event.pubkey === pubkey && includes ids row.event.id && not row.is_deleted
    then record row { is_deleted = true }
    else row

unfoldable pub delete_by_pubkey_and_ids : Str → List Str → Table → Table
unfolding mark_deleted
delete_by_pubkey_and_ids pubkey ids table = map (mark_deleted pubkey ids) table
