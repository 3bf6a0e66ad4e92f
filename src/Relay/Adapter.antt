-- ===== src/Relay/Adapter.antt =====
-- `onClientMessage` of nostream-share/src/adapters/web-socket-adapter.ts with the handlers that
-- nostream-share/src/factories/message-handler-factory.ts makes, and the handler of AUTH,
-- nostream-share/src/handlers/auth-event-message-handler.ts. The parsed message, the rows that the
-- database finds, the clock and the random text are arguments; a handler runs as one step.
pub mod Laws
pub mod Login
use nostr_mesh.Prelude.{
  ℕ, zero, suc, ◌+◌, ◌-◌, ◌*◌, ◌/◌, ◌%◌, ◌^◌, ◌≤◌, ◌<◌, ◌≡◌, refl, sym, ap, subst, ◌∙◌, ◌≢◌, ◌↔◌,
  ◌⊎◌, inl, inr, Bool, true, false, not, ◌&&◌, ◌||◌, Option, none, some, List, [], ◌∷◌, ◌++◌, map,
  arith, ltb, leb, ◌==◌, if◌then◌else◌, ltb→lt, lt→ltb, leb→le, le_of_not_ltb, eq_of_not_ne,
  ==_refl, lt_of_le, ==_iff, &&_parts, Bool-cases, Option-cases, length, get_elem?, take, drop,
  length-append, length-drop, take-append, drop-append, any, all, find, All,
}
use nostr_mesh.Prelude.Text.{
  Str, codes, ◌===◌, ===_iff, ===_refl, starts_with, includes, is_space, trim, to_lower_case,
  is_hex, is_hash, is_hex_lower, is_hash_lower, is_hash_parts, is_hash_lower_parts,
}
use nostr_mesh.Nostr.{Event}
use nostr_mesh.Relay.Filter.{SubscriptionFilter}
use nostr_mesh.Relay.RateLimit.{SortedSets, RateLimit, hit_each}
use nostr_mesh.Relay.SignedAuth.{is_signed_auth_event}
use nostr_mesh.Relay.Repository.{Row, Table}
use nostr_mesh.Relay.Strategies.{
  Verdict, Effect, invalid_id, invalid_signature, rate_limited, unable_to_process,
  auth_verification_failed, execute_signed_auth,
}
use nostr_mesh.Relay.EventHandler.{
  Context, Times, reject, is_rate_limited, late_verdict, handle_event,
}
use nostr_mesh.Relay.Session.{
  Output, notice_message, Session, Incoming, event_in, auth_in, req_in, close_in, send_message,
  is_authentication_required,
}
use nostr_mesh.Relay.Subscribe.{handle_subscribe, handle_unsubscribe}

-- `limits.message`; a list that is not set is empty.
pub record MessageLimits : Type 0 where
  pub rate_limits : List RateLimit
  pub ip_whitelist : List Str

-- What the adapter is made with: the handlers' context, the limits on messages, Ramda's `equals` and
-- `uniqWith(equals)`, and the rows that the database finds for filters.
pub record AdapterContext : Type 1 where
  pub handlers : Context
  pub message_limits : MessageLimits
  pub equals : List SubscriptionFilter → List SubscriptionFilter → Bool
  pub uniq : List SubscriptionFilter → List SubscriptionFilter
  pub find_rows : Table → List SubscriptionFilter → List Row

-- A message of the client: what `JSON.parse` and the schema throw, or what they let through.
pub data Received : Type 0 where
  malformed : Str → Received
  parsed : Incoming → Received

-- When the clock is read, and the random text of a challenge.
pub record Readings : Type 0 where
  pub message_hits : ℕ → ℕ
  pub handler : Times
  pub challenge_time : ℕ
  pub challenge : Str
  pub answer_time : ℕ

-- What is emitted: to the client of the session, or by a handler.
pub data Emitted : Type 0 where
  output : Output → Emitted
  effect : Effect → Emitted

abbrev pub outputs : List Output → List Emitted
outputs os = map output os

abbrev pub effects : List Effect → List Emitted
effects es = map effect es

abbrev pub answered_auth : Event → Option (List Effect) × Session → List Effect × Session
answered_auth event (some es, s) = (es, s)
answered_auth event (none, s) = (reject event unable_to_process, s)

abbrev pub decide_auth : ℕ → Option Verdict → Event → Session → List Effect × Session
decide_auth now (some verdict) event s = (reject event verdict, s)
decide_auth now none event s = answered_auth event (execute_signed_auth now event s)

module _ (a : AdapterContext) where
  open a use {handlers, message_limits, equals, uniq, find_rows}
  open handlers use {id_valid, signature_valid, redis, settings, client_address}
  open redis use {Cache}

  -- What one message leaves: the session, the table and the cache, and what was emitted.
  pub record Outcome : Type 0 where
    pub session : Session
    pub table : Table
    pub cache : Cache
    pub emitted : List Emitted

  -- `isRateLimited` of the adapter.
  unfoldable pub is_message_limited : (ℕ → ℕ) → Cache → Bool × Cache
  is_message_limited times cache =
      let counted =
        hit_each redis times 0 client_address (codes "message") message_limits.rate_limits false
          cache in
      if length message_limits.rate_limits == 0
        || includes message_limits.ip_whitelist client_address
      then (false, cache)
      else counted

  -- The checks of an AUTH message, which has no check of its expiration.
  unfoldable pub auth_verdict : Times → Event → Cache → Option Verdict × Cache
  auth_verdict times event cache =
      let (limited, after) = is_rate_limited handlers times.hits event cache in
      if not (id_valid event)
      then (some invalid_id, cache)
      else if not (signature_valid event)
      then (some invalid_signature, cache)
      else if not (is_signed_auth_event event)
      then (some auth_verification_failed, cache)
      else if limited
      then (some rate_limited, after)
      else (late_verdict handlers times event, after)

  -- `AuthEventMessageHandler.handleMessage`.
  unfoldable pub handle_auth : Times → ℕ → Event → Session → Cache → List Effect × Session × Cache
  handle_auth times now event s cache =
      let (failed, after) = auth_verdict times event cache in
      let (es, s') = decide_auth now failed event s in (es, s', after)

  -- The handler for a message, `createMessageHandler`, and what it does.
  unfoldable pub dispatch : Readings → Incoming → Session → Table → Cache → Outcome
  dispatch r (event_in event) s table cache =
      let (es, table', cache') = handle_event handlers r.handler event table cache in
      record { session = s; table = table'; cache = cache'; emitted = effects es }
  dispatch r (auth_in event) s table cache =
      let (es, s', cache') = handle_auth r.handler r.answer_time event s cache in
      record { session = s'; table = table; cache = cache'; emitted = effects es }
  dispatch r (req_in id filters) s table cache =
      let (s', os) = handle_subscribe equals uniq (find_rows table) settings id filters s in
      record { session = s'; table = table; cache = cache; emitted = outputs os }
  dispatch r (close_in id) s table cache = record {
    session = handle_unsubscribe equals id s;
    table = table;
    cache = cache;
    emitted = [];
  }

  abbrev pub only_sent : Session → Table → Cache → Output → Outcome
  only_sent s table cache message = record {
    session = s;
    table = table;
    cache = cache;
    emitted = outputs (send_message s message);
  }

  abbrev pub unless_required :
      Bool × Session × List Output → Readings → Incoming → Table → Cache → Outcome
  unless_required (true, s, os) r message table cache = record {
    session = s;
    table = table;
    cache = cache;
    emitted = outputs os;
  }
  unless_required (false, s, os) r message table cache = dispatch r message s table cache

  unfoldable pub on_received : Readings → Received → Session → Table → Cache → Outcome
  on_received r (malformed text) s table cache =
      only_sent s table cache (notice_message (codes "invalid: " ++ text))
  on_received r (parsed message) s table cache =
      unless_required
        (is_authentication_required settings.authentication_enabled r.challenge_time r.challenge
          message s)
        r message table cache

  -- `onClientMessage`.
  unfoldable pub on_client_message : Readings → Received → Session → Table → Cache → Outcome
  on_client_message r raw s table cache =
      let living = record s { alive = true } in
      let (limited, after) = is_message_limited r.message_hits cache in
      if limited
      then only_sent living table after (notice_message (codes "rate limited"))
      else on_received r raw living table after
