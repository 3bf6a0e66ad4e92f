-- ===== src/Relay/Kinds.antt =====
-- Event kinds: nostream-share/src/constants/base.ts, the classes of nostream-share/src/utils/event.ts,
-- the choice of nostream-share/src/factories/event-strategy-factory.ts, and the condition of the
-- unique index that nostream-share/src/repositories/event-repository.ts names in its upsert.
pub mod Laws
use nostr_mesh.Prelude.{
  ℕ, zero, suc, ◌+◌, ◌-◌, ◌*◌, ◌/◌, ◌%◌, ◌^◌, ◌≤◌, ◌<◌, ◌≡◌, refl, sym, ap, subst, ◌∙◌, ◌≢◌, ◌↔◌,
  ◌⊎◌, inl, inr, Bool, true, false, not, ◌&&◌, ◌||◌, Option, none, some, List, [], ◌∷◌, ◌++◌, map,
  arith, ltb, leb, ◌==◌, if◌then◌else◌, ltb→lt, lt→ltb, leb→le, le_of_not_ltb, eq_of_not_ne,
  ==_refl, lt_of_le, ==_iff, &&_parts, Bool-cases, Option-cases, length, get_elem?, take, drop,
  length-append, length-drop, take-append, drop-append, any, all, find, All,
}
use nostr_mesh.Nostr.{Event}

abbrev pub set_metadata : ℕ
set_metadata = 0

abbrev pub contact_list : ℕ
contact_list = 3

abbrev pub delete_kind : ℕ
delete_kind = 5

abbrev pub channel_metadata : ℕ
channel_metadata = 41

abbrev pub auth_kind : ℕ
auth_kind = 22242

-- `kind >= first && kind <= last`.
abbrev pub in_range : ℕ → ℕ → ℕ → Bool
in_range first last kind = leb first kind && leb kind last

unfoldable pub is_replaceable_event : Event → Bool
is_replaceable_event event =
    event.kind == set_metadata
    || event.kind == contact_list
    || event.kind == channel_metadata
    || in_range 10000 19999 event.kind

unfoldable pub is_ephemeral_event : Event → Bool
is_ephemeral_event event = in_range 20000 29999 event.kind

unfoldable pub is_parameterized_replaceable_event : Event → Bool
is_parameterized_replaceable_event event = in_range 30000 39999 event.kind

unfoldable pub is_delete_event : Event → Bool
is_delete_event event = event.kind == delete_kind

pub data Strategy : Type 0 where
  replaceable ephemeral delete parameterized_replaceable default : Strategy

unfoldable pub event_strategy : Event → Strategy
event_strategy event =
    if is_replaceable_event event
    then replaceable
    else if is_ephemeral_event event
    then ephemeral
    else if is_delete_event event
    then delete
    else if is_parameterized_replaceable_event event
    then parameterized_replaceable
    else default

-- `WHERE (event_kind = 0 OR event_kind = 3 OR event_kind = 41 OR (event_kind >= 10000 AND
-- event_kind < 20000)) OR (event_kind >= 30000 AND event_kind < 40000)`.
unfoldable pub in_unique_index : ℕ → Bool
in_unique_index kind =
    (kind == 0 || kind == 3 || kind == 41 || (leb 10000 kind && ltb kind 20000))
    || (leb 30000 kind && ltb kind 40000)

-- An entry of a list of kinds: one kind or a range of them.
pub data KindOrRange : Type 0 where
  kind : ℕ → KindOrRange
  range : ℕ → ℕ → KindOrRange

unfoldable pub is_event_kind_or_range_match : Event → KindOrRange → Bool
is_event_kind_or_range_match event (kind k) = k == event.kind
is_event_kind_or_range_match event (range first last) = in_range first last event.kind
