-- ===== src/Tests/AdapterExamples.antt =====
-- The theorems on the relay and its clients at concrete inputs.
use nostr_mesh.Prelude.{false, none, ◌==◌}
use nostr_mesh.Prelude.{◌+◌, ◌≡◌, refl, true, [], ◌∷◌, arith}
use nostr_mesh.Prelude.Text.{codes}
use nostr_mesh.Relay.Repository.Laws.{IsUnique}
use nostr_mesh.Relay.Session.{event_in, new_session}
use nostr_mesh.Relay.Adapter.{AdapterContext, parsed, Readings, on_client_message}
use nostr_mesh.Relay.Adapter.Laws.{Keeps, on_client_message-Keeps, on_client_message_locked}
use nostr_mesh.Relay.Server.{update, Server, connected, received, started, here, next}
use nostr_mesh.Relay.Server.Laws.{IsSound, Reach-IsSound}
use nostr_mesh.Tests.SessionExamples.{
  note, context, times, never_equal, as_given, subscribed, no_hits,
}
use nostr_mesh.Prelude.{List}
use nostr_mesh.Prelude.Text.{Str}
use nostr_mesh.Prelude.Result.{Result, ok, err}
use nostr_mesh.Relay.Repository.{Row}
use nostr_mesh.Relay.Query.{find_by_filters}
use nostr_mesh.Tests.QueryExamples.{tags_of}
use nostr_mesh.Relay.Session.{auth_in}
use nostr_mesh.Relay.Adapter.{is_message_limited}
use nostr_mesh.Tests.SessionExamples.{answer, settings, limits}
use nostr_mesh.Relay.Adapter.{Outcome, auth_verdict, outputs}
use nostr_mesh.Relay.Adapter.Login.{IsLimited, behind_limit, on_client_message_login}
use nostr_mesh.Relay.SignedAuth.{is_valid_signed_auth_event}
use nostr_mesh.Relay.Session.{command_result, auth_message}
use nostr_mesh.Relay.EventHandler.{Context, handle_event}

-- What the database finds, or nothing where it refuses the query.
abbrev answered : Result Str (List Row) → List Row
answered (ok rows) = rows
answered (err reason) = []

abbrev adapter : AdapterContext
adapter = record {
  handlers = context;
  message_limits = record {
    rate_limits = record { period = 60; rate = 5 } ∷ [];
    ip_whitelist = [];
  };
  equals = never_equal;
  uniq = as_given;
  find_rows = λ table filters. answered (find_by_filters tags_of filters table);
}

abbrev readings : Readings
readings = record {
  message_hits = λ n. 12000 + n;
  handler = times;
  challenge_time = 12;
  challenge = codes "def";
  answer_time = 12;
}

empty-IsUnique : IsUnique []
empty-IsUnique = tt

on_client_message-Keeps_example :
    Keeps adapter readings
      (parsed (auth_in answer))
      (is_message_limited adapter readings.message_hits no_hits).0
      (is_message_limited adapter readings.message_hits no_hits).1
      (record subscribed { alive = true })
      []
      (on_client_message adapter readings (parsed (auth_in answer)) subscribed [] no_hits)
on_client_message-Keeps_example =
    on_client_message-Keeps adapter readings (parsed (auth_in answer)) subscribed [] no_hits

on_client_message_locked_example :
    (on_client_message adapter readings (parsed (event_in note)) subscribed [] no_hits).table ≡ []
on_client_message_locked_example =
    on_client_message_locked adapter readings (parsed (event_in note)) subscribed [] no_hits refl
      refl

abbrev joined : Server adapter
joined = record (started adapter [] no_hits) { sessions = update (λ n. new_session) 3 new_session }

abbrev heard : Server adapter
heard =
    let o =
      on_client_message adapter readings (parsed (event_in note)) (joined.sessions 3) joined.table
        joined.cache in
    record { sessions = update joined.sessions 3 o.session; table = o.table; cache = o.cache }

Reach-IsSound_example : IsSound adapter heard
Reach-IsSound_example =
    Reach-IsSound adapter [] no_hits heard (omega arith) empty-IsUnique
      (next (next here (connected 3)) (received 3 readings (parsed (event_in note)) heard refl))

-- The adapter without limits on rates.
abbrev calm : Context
calm = record context {
  settings = record settings { event_limits = record limits { rate_limits = [] } };
}

abbrev quiet : AdapterContext
quiet = record adapter {
  handlers = calm;
  message_limits = record { rate_limits = []; ip_whitelist = [] };
}

abbrev said : Readings
said = record readings { challenge = codes "abc" }

abbrev first : Outcome quiet
first = on_client_message quiet said (parsed (event_in note)) new_session [] no_hits

abbrev second : Outcome quiet
second =
    on_client_message quiet readings (parsed (auth_in answer)) first.session first.table first.cache

first_free : IsLimited quiet said no_hits false
unfolding is_message_limited
first_free = refl

second_free : IsLimited quiet readings first.cache false
unfolding is_message_limited
second_free = refl

third_free : IsLimited quiet readings second.cache false
unfolding is_message_limited
third_free = refl

answer_passes : (auth_verdict quiet times answer (behind_limit quiet readings first.cache)).0 ≡ none
unfolding auth_verdict nostr_mesh.Prelude.Text.◌===◌
    nostr_mesh.Relay.SignedAuth.is_signed_auth_event nostr_mesh.Relay.SignedAuth.scan_tags
    nostr_mesh.Relay.SignedAuth.is_tag_named nostr_mesh.Relay.EventHandler.is_rate_limited
    nostr_mesh.Relay.EventHandler.late_verdict nostr_mesh.Relay.Accept.can_accept_event
    nostr_mesh.Relay.Admission.is_user_admitted
answer_passes = refl

answer_valid : is_valid_signed_auth_event answer (codes "abc") ≡ true
unfolding is_valid_signed_auth_event nostr_mesh.Relay.SignedAuth.is_signed_auth_event
    nostr_mesh.Relay.SignedAuth.scan_tags nostr_mesh.Relay.SignedAuth.is_tag_named
    nostr_mesh.Prelude.Text.◌===◌
answer_valid = refl

on_client_message_login_example :
    (first.table ≡ [])
    × (first.emitted
        ≡ outputs (
            command_result note.id false (codes "rejected: unauthorized")
            ∷ auth_message (codes "abc")
            ∷ []))
    × (second.session.authenticated ≡ true)
    × ((on_client_message quiet readings
          (parsed (event_in note))
          second.session
          second.table
          second.cache).table
        ≡ (handle_event calm times note second.table (behind_limit quiet readings second.cache)).1)
on_client_message_login_example =
    on_client_message_login quiet said readings readings note answer new_session [] no_hits first
      second refl refl refl refl refl first_free second_free third_free answer_passes answer_valid
      (omega arith)
