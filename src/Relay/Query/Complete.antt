-- ===== src/Relay/Query/Complete.antt =====
-- That `findByFilters` of nostream-share/src/repositories/event-repository.ts leaves out no event.
use nostr_mesh.Prelude.{◌≤◌, ◌≡◌, List, length}
use nostr_mesh.Prelude.Text.{Str}
use nostr_mesh.Prelude.Any.{Any}
use nostr_mesh.Nostr.{Event}
use nostr_mesh.Relay.Filter.{SubscriptionFilter}
use nostr_mesh.Relay.Repository.{Row, Table}
use nostr_mesh.Relay.Query.{select}
use nostr_mesh.Relay.Query.Found.{bound}

-- A row with an identifier is in a list.
abbrev pub Holds : Str → List Row → Type 0
Holds id rows = Any (λ r. r.event.id ≡ id) rows

module _ (tags_of : Event → List (Str × Str)) where
  -- No more rows meet a filter, each counted once for each of its fitting tags, than its limit allows.
  abbrev pub IsWithin : Table → SubscriptionFilter → Type 0
  IsWithin table filter = length (select tags_of filter table) ≤ bound filter.limit
