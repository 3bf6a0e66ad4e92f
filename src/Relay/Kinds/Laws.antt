-- ===== src/Relay/Kinds/Laws.antt =====
-- The classes of event kinds.
use nostr_mesh.Prelude.{◌≡◌, ◌↔◌, ◌⊎◌, true, false, ◌||◌, arith}
use nostr_mesh.Nostr.{Event}
use nostr_mesh.Relay.Kinds.{
  is_replaceable_event, is_ephemeral_event, is_delete_event, is_parameterized_replaceable_event,
  replaceable, ephemeral, delete, parameterized_replaceable, event_strategy, in_unique_index,
}

in_unique_index_lem :
    (event : Event)
    → in_unique_index event.kind
      ≡ (is_replaceable_event event || is_parameterized_replaceable_event event)
unfolding in_unique_index is_replaceable_event is_parameterized_replaceable_event
in_unique_index_lem event = ground arith

-- No kind is in two classes.
replaceable_alone :
    (event : Event)
    → is_replaceable_event event ≡ true
    → (is_ephemeral_event event ≡ false)
      × (is_delete_event event ≡ false)
      × (is_parameterized_replaceable_event event ≡ false)
unfolding is_replaceable_event is_ephemeral_event is_delete_event is_parameterized_replaceable_event
replaceable_alone event h = ground arith

ephemeral_alone :
    (event : Event)
    → is_ephemeral_event event ≡ true
    → (is_delete_event event ≡ false) × (is_parameterized_replaceable_event event ≡ false)
unfolding is_ephemeral_event is_delete_event is_parameterized_replaceable_event
ephemeral_alone event h = ground arith

delete_alone :
    (event : Event)
    → is_delete_event event ≡ true
    → is_parameterized_replaceable_event event ≡ false
unfolding is_delete_event is_parameterized_replaceable_event
delete_alone event h = ground arith

-- The strategies that upsert are chosen exactly for the kinds of the unique index: only there can an
-- insertion run into the index that the upsert names.
pub upsert_iff_in_unique_index :
    (event : Event)
    → ((event_strategy event ≡ replaceable) ⊎ (event_strategy event ≡ parameterized_replaceable))
      ↔ (in_unique_index event.kind ≡ true)
unfolding event_strategy
upsert_iff_in_unique_index event = ground (
  arith,
  in_unique_index_lem event,
  replaceable_alone event,
  ephemeral_alone event,
  delete_alone event,
)

-- The classes are disjoint: each strategy is chosen exactly for its class, so the order of the tests
-- does not matter.
pub event_strategy_iff :
    (event : Event)
    → ((event_strategy event ≡ replaceable) ↔ (is_replaceable_event event ≡ true))
      × ((event_strategy event ≡ ephemeral) ↔ (is_ephemeral_event event ≡ true))
      × ((event_strategy event ≡ delete) ↔ (is_delete_event event ≡ true))
      × ((event_strategy event ≡ parameterized_replaceable)
          ↔ (is_parameterized_replaceable_event event ≡ true))
unfolding event_strategy
event_strategy_iff event =
    ground (arith, replaceable_alone event, ephemeral_alone event, delete_alone event)
