-- ===== src/Relay/Query/Found.antt =====
-- What `findByFilters` of nostream-share/src/repositories/event-repository.ts finds.
use nostr_mesh.Prelude.{ℕ, ◌≡◌, Option, none, some, List}
use nostr_mesh.Prelude.Text.{Str}
use nostr_mesh.Prelude.Any.{Any}
use nostr_mesh.Nostr.{Event}
use nostr_mesh.Relay.Filter.{SubscriptionFilter}
use nostr_mesh.Relay.Repository.{Row, Table}
use nostr_mesh.Relay.Query.Tagged.{Meets}

-- The limit that a filter sets, or that of a filter which sets none.
abbrev pub bound : Option ℕ → ℕ
bound none = 500
bound (some n) = n

-- A row of the table that meets one of the filters.
abbrev pub IsFound : (Event → List (Str × Str)) → List SubscriptionFilter → Table → Row → Type 0
IsFound tags_of filters table row =
    Any (λ filter. Meets tags_of filter row) filters × Any (λ r. row ≡ r) table
