-- ===== src/Tests/SessionExamples.antt =====
-- The theorems on the relay's sessions and handlers at concrete inputs.
use nostr_mesh.Prelude.{
  ◌+◌, ◌≡◌, refl, ◌↔◌, ◌⊎◌, Bool, true, false, Option, none, some, List, [], ◌∷◌,
}
use nostr_mesh.Prelude.Text.{Str, codes, ◌===◌}
use nostr_mesh.Nostr.{Event}
use nostr_mesh.Relay.Filter.{SubscriptionFilter}
use nostr_mesh.Relay.Settings.{EventLimits, Settings, unset}
use nostr_mesh.Relay.Admission.{User}
use nostr_mesh.Relay.Repository.{Row}
use nostr_mesh.Relay.Strategies.{Verdict, execute_signed_auth}
use nostr_mesh.Relay.Strategies.Laws.{Answers, execute_signed_auth_iff}
use nostr_mesh.Relay.EventHandler.{Context, Times, reject, handle_event}
use nostr_mesh.Relay.EventHandler.Laws.{Passed, handle_event_guarded}
use nostr_mesh.Relay.Session.{Session, new_session}
use nostr_mesh.Relay.Session.Laws.{heartbeats, heartbeats_silent}
use nostr_mesh.Tests.Instances.{in_memory}

abbrev pub note : Event
note = record {
  id = codes "note";
  pubkey = codes "author";
  created_at = 10;
  kind = 1;
  tags = [];
  content = codes "text";
  sig = codes "sig";
}

abbrev pub answer : Event
answer = record {
  id = codes "auth";
  pubkey = codes "author";
  created_at = 10;
  kind = 22242;
  tags = (codes "relay" ∷ codes "wss://relay" ∷ []) ∷ (codes "challenge" ∷ codes "abc" ∷ []) ∷ [];
  content = [];
  sig = codes "sig";
}

abbrev pub notes_only : SubscriptionFilter
notes_only = record {
  ids = none;
  kinds = some (1 ∷ []);
  since = none;
  until = none;
  authors = none;
  limit = none;
  entries = [];
}

abbrev pub subscribed : Session
subscribed = record new_session {
  subscriptions = (codes "sub", notes_only ∷ []) ∷ [];
  auth_challenge = some (record { created_at = 1000; challenge = codes "abc" });
}

abbrev pub limits : EventLimits
limits = record {
  content = unset;
  max_positive_delta = some 900;
  max_negative_delta = none;
  event_id_min_zero_bits = none;
  pubkey_min_zero_bits = none;
  pubkey_whitelist = none;
  pubkey_blacklist = none;
  kind_whitelist = none;
  kind_blacklist = none;
  min_balance = none;
  rate_limits = record { period = 60; rate = 5; kinds = none } ∷ [];
  whitelisted_pubkeys = none;
  whitelisted_ip_addresses = none;
}

abbrev pub settings : Settings
settings = record {
  event_limits = limits;
  payments_enabled = false;
  require_admission = false;
  admission_fees = none;
  authentication_enabled = true;
  max_subscriptions = some 2;
  max_filters = none;
  max_subscription_id_length = none;
}

abbrev find_user : Str → Option User
find_user pubkey = none

abbrev pub context : Context
context = record {
  id_valid = λ e. true;
  signature_valid = λ e. e.sig === codes "sig";
  to_number = λ t. none;
  redis = in_memory;
  relay_pubkey = codes "relay";
  find_user = find_user;
  settings = settings;
  client_address = codes "127.0.0.1";
}

abbrev pub times : Times
times = record { expiration = 12; limits = 12; hits = λ n. 12000 + n }

abbrev pub no_hits : in_memory.Cache
no_hits key = []

handle_event_guarded_example :
    Passed context times note no_hits
    ⊎ ((v : Verdict) × ((handle_event context times note [] no_hits).0 ≡ reject note v)
        × ((handle_event context times note [] no_hits).1 ≡ []))
handle_event_guarded_example = handle_event_guarded context times note [] no_hits

execute_signed_auth_iff_example :
    ((execute_signed_auth 2000 answer subscribed).1.authenticated ≡ true)
    ↔ Answers 2000 answer subscribed
execute_signed_auth_iff_example = execute_signed_auth_iff 2000 answer subscribed refl

abbrev pub never_equal : List SubscriptionFilter → List SubscriptionFilter → Bool
never_equal a b = false

abbrev pub as_given : List SubscriptionFilter → List SubscriptionFilter
as_given filters = filters

abbrev pub no_rows : List SubscriptionFilter → List Row
no_rows filters = []

heartbeats_silent_example : (heartbeats 5 new_session).is_open ≡ false
heartbeats_silent_example = heartbeats_silent 3 new_session refl
