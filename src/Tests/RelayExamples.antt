-- ===== src/Tests/RelayExamples.antt =====
-- The theorems on nostream-share/ at concrete inputs.
use nostr_mesh.Prelude.{ℕ, ◌≡◌, refl, ◌≢◌, ◌↔◌, true, false, Option, none, some, [], ◌∷◌}
use nostr_mesh.Prelude.Text.{Str, codes, ◌===◌}
use nostr_mesh.Nostr.{Event}
use nostr_mesh.Relay.Kinds.{in_unique_index}
use nostr_mesh.Relay.Filter.{SubscriptionFilter, is_event_matching_filter}
use nostr_mesh.Relay.Filter.Laws.{Matches, is_event_matching_filter_iff}
use nostr_mesh.Relay.Settings.{EventLimits, Settings, unset}
use nostr_mesh.Relay.Accept.{can_accept_event}
use nostr_mesh.Relay.Accept.Laws.{Acceptable, can_accept_event_iff}
use nostr_mesh.Relay.Admission.{User}
use nostr_mesh.Relay.Repository.{create}
use nostr_mesh.Relay.Repository.{Row, Table, values, conflicts, row_count, upsert, merge_older}
use nostr_mesh.Relay.Repository.Laws.{IsUnique}
use nostr_mesh.Relay.Repository.Newest.{Kept, upsert_newest}
use nostr_mesh.Relay.RateLimit.{has_member, in_window}
use nostr_mesh.Tests.Instances.{in_memory}

abbrev note : Str → ℕ → Event
note id created_at = record {
  id = id;
  pubkey = codes "author";
  created_at = created_at;
  kind = 34578;
  tags = (codes "d" ∷ codes "x" ∷ []) ∷ [];
  content = codes "text";
  sig = codes "sig";
}

abbrev pub newer : Event
newer = note (codes "new") 7

abbrev pub recent : SubscriptionFilter
recent = record {
  ids = none;
  kinds = some (34578 ∷ []);
  since = some 3;
  until = none;
  authors = some (codes "auth" ∷ []);
  limit = none;
  entries = [];
}

is_event_matching_filter_iff_example :
    (is_event_matching_filter recent newer ≡ true) ↔ Matches recent newer
is_event_matching_filter_iff_example = is_event_matching_filter_iff recent newer

abbrev pub limits : EventLimits
limits = record {
  content = unset;
  max_positive_delta = some 900;
  max_negative_delta = some 0;
  event_id_min_zero_bits = none;
  pubkey_min_zero_bits = none;
  pubkey_whitelist = none;
  pubkey_blacklist = some (codes "bad" ∷ []);
  kind_whitelist = none;
  kind_blacklist = none;
  min_balance = some 10;
  rate_limits = [];
  whitelisted_pubkeys = none;
  whitelisted_ip_addresses = none;
}

pub relay-newer : codes "relay" ≢ newer.pubkey
relay-newer h = cc h

can_accept_event_iff_example :
    (can_accept_event (codes "relay") 5 limits newer ≡ none) ↔ Acceptable 5 limits newer
can_accept_event_iff_example = can_accept_event_iff (codes "relay") 5 limits newer relay-newer

abbrev pub settings : Settings
settings = record {
  event_limits = limits;
  payments_enabled = false;
  require_admission = true;
  admission_fees = none;
  authentication_enabled = true;
  max_subscriptions = none;
  max_filters = none;
  max_subscription_id_length = none;
}

abbrev pub find_user : Str → Option User
find_user pubkey = some (record { is_admitted = true; balance = 10 })

abbrev row : Event → Row
row event = record {
  event = event;
  deduplication = values (codes "x" ∷ []);
  expires_at = none;
  is_deleted = false;
}

abbrev table : Table
table = row (note (codes "old") 3) ∷ []

table-IsUnique : IsUnique table
table-IsUnique = (tt, tt, tt)

row-conflicts : conflicts (row newer) (row newer) ≡ true
unfolding conflicts in_unique_index ◌===◌ nostr_mesh.Relay.Repository.same_deduplication
row-conflicts = refl

upserted : upsert (row newer) table ≡ (row_count 1, row newer ∷ [])
unfolding upsert conflicts in_unique_index ◌===◌ nostr_mesh.Relay.Repository.same_deduplication
    nostr_mesh.Relay.Repository.has_older merge_older
upserted = refl

upsert_newest_example : Kept (row newer) table 1 (row newer ∷ [])
upsert_newest_example =
    upsert_newest (row newer) table (row newer ∷ []) 1 table-IsUnique row-conflicts upserted

abbrev nothing : in_memory.Cache
nothing key = []

abbrev once : in_memory.Cache
once key = (1000, 1) ∷ []

k-other : codes "k" ≢ codes "other"
k-other h = cc h

seen : has_member 1000 1 (in_window 1000 60 (once (codes "k"))) ≡ true
unfolding has_member in_window
seen = refl
