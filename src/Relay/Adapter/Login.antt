-- ===== src/Relay/Adapter/Login.antt =====
-- How a client authenticates itself, `onClientMessage` of
-- nostream-share/src/adapters/web-socket-adapter.ts over several messages.
use nostr_mesh.Prelude.{
  ℕ, ◌+◌, ◌<◌, ◌≡◌, refl, sym, ap, ◌∙◌, Bool, true, false, not, ◌&&◌, none, some, [], ◌∷◌, arith,
  lt→ltb,
}
use nostr_mesh.Prelude.Text.{codes}
use nostr_mesh.Nostr.{Event}
use nostr_mesh.Relay.SignedAuth.{is_valid_signed_auth_event}
use nostr_mesh.Relay.Repository.{Table}
use nostr_mesh.Relay.Strategies.{execute_signed_auth, permitted_delay}
use nostr_mesh.Relay.EventHandler.{handle_event}
use nostr_mesh.Relay.Session.{
  command_result, auth_message, Challenge, Session, event_in, auth_in, send_message,
  set_new_auth_challenge, set_client_to_authenticated, is_authentication_required,
}
use nostr_mesh.Relay.Adapter.{
  AdapterContext, parsed, Readings, Outcome, outputs, is_message_limited, auth_verdict, decide_auth,
  handle_auth, dispatch, on_received, on_client_message,
}

module _ (a : AdapterContext) where
  open a use {handlers}
  open handlers use {redis, settings}
  open redis use {Cache}

  -- The cache behind the rate limit on messages, and whether a message meets that.
  abbrev pub behind_limit : Readings → Cache → Cache
  behind_limit r cache = (is_message_limited a r.message_hits cache).1

  abbrev pub IsLimited : Readings → Cache → Bool → Type 0
  IsLimited r cache limited = (is_message_limited a r.message_hits cache).0 ≡ limited

  abbrev pub challenged : Readings → Session → Session
  challenged r s = record s {
    alive = true;
    auth_challenge = some (record { created_at = r.challenge_time; challenge = r.challenge });
  }

  -- An event of a client that has to authenticate first is refused, with a new challenge.
  refused_event :
      (r : Readings) (event : Event) (s : Session) (t : Table) (cache : Cache)
      → settings.authentication_enabled ≡ true
      → s.authenticated ≡ false
      → s.is_open ≡ true
      → IsLimited r cache false
      → on_client_message a r (parsed (event_in event)) s t cache ≡ record {
        session = challenged r s;
        table = t;
        cache = behind_limit r cache;
        emitted = outputs (
            command_result event.id false (codes "rejected: unauthorized")
            ∷ auth_message r.challenge
            ∷ []);
      }
  unfolding on_client_message on_received is_authentication_required send_message
      set_new_auth_challenge
  refused_event r event s t cache on out open_ free = rw (free, on, out, open_) refl

  unguarded : (inside enabled : Bool) → (not inside && false && enabled) ≡ false
  unguarded inside enabled = ground arith

  accepted_session :
      (now : ℕ) (event : Event) (s : Session) (c : Challenge)
      → s.auth_challenge ≡ some c
      → is_valid_signed_auth_event event c.challenge ≡ true
      → now < c.created_at + permitted_delay
      → (decide_auth now none event s).1.authenticated ≡ true
  unfolding execute_signed_auth set_client_to_authenticated
  accepted_session now event s c open_ valid timely =
      rw (open_, valid, lt→ltb now (c.created_at + permitted_delay) timely) refl

  -- The answer to a challenge authenticates the session, whatever the settings are.
  accepted_answer :
      (r : Readings) (event : Event) (s : Session) (t : Table) (cache : Cache) (c : Challenge)
      → IsLimited r cache false
      → s.auth_challenge ≡ some c
      → (auth_verdict a r.handler event (behind_limit r cache)).0 ≡ none
      → is_valid_signed_auth_event event c.challenge ≡ true
      → r.answer_time < c.created_at + permitted_delay
      → (on_client_message a r (parsed (auth_in event)) s t cache).session.authenticated ≡ true
  unfolding on_client_message on_received is_authentication_required dispatch handle_auth
  accepted_answer r event s t cache c free open_ passed valid timely =
      rw (free, unguarded s.authenticated settings.authentication_enabled, passed)
        (accepted_session r.answer_time event (record s { alive = true }) c open_ valid timely)

  -- An event of a client that is authenticated reaches its handler.
  handled_event :
      (r : Readings) (event : Event) (s : Session) (t : Table) (cache : Cache)
      → IsLimited r cache false
      → s.authenticated ≡ true
      → (on_client_message a r (parsed (event_in event)) s t cache).table
        ≡ (handle_event handlers r.handler event t (behind_limit r cache)).1
  unfolding on_client_message on_received is_authentication_required dispatch
  handled_event r event s t cache free inside = rw (free, inside) refl

  -- The login, where authentication is enabled and no message meets the rate limit on messages: the
  -- first event of an open session that is not authenticated is refused, with a challenge behind the
  -- refusal; an AUTH event that passes all checks and carries that challenge, less than ten minutes
  -- after it was made, authenticates the session; and the event, sent again, is handled.
  pub on_client_message_login :
      (r₁ r₂ r₃ : Readings) (event answer : Event) (s : Session) (t : Table) (cache : Cache)
      (o o' : Outcome a)
      → on_client_message a r₁ (parsed (event_in event)) s t cache ≡ o
      → on_client_message a r₂ (parsed (auth_in answer)) o.session o.table o.cache ≡ o'
      → settings.authentication_enabled ≡ true
      → s.authenticated ≡ false
      → s.is_open ≡ true
      → IsLimited r₁ cache false
      → IsLimited r₂ o.cache false
      → IsLimited r₃ o'.cache false
      → (auth_verdict a r₂.handler answer (behind_limit r₂ o.cache)).0 ≡ none
      → is_valid_signed_auth_event answer r₁.challenge ≡ true
      → r₂.answer_time < r₁.challenge_time + permitted_delay
      → (o.table ≡ t)
        × (o.emitted
            ≡ outputs (
                command_result event.id false (codes "rejected: unauthorized")
                ∷ auth_message r₁.challenge
                ∷ []))
        × (o'.session.authenticated ≡ true)
        × ((on_client_message a r₃ (parsed (event_in event)) o'.session o'.table o'.cache).table
            ≡ (handle_event handlers r₃.handler event o'.table (behind_limit r₃ o'.cache)).1)
  on_client_message_login r₁ r₂ r₃ event answer s t cache o o' first second on out open_ free₁ free₂
        free₃ passed valid timely =
      let made = sym first ∙ refused_event r₁ event s t cache on out open_ free₁ in
      let inside =
        ap (λ (x : Outcome a). x.session.authenticated) (sym second)
        ∙ accepted_answer r₂ answer o.session o.table o.cache
            (record { created_at = r₁.challenge_time; challenge = r₁.challenge }) free₂
            (ap (λ (x : Outcome a). x.session.auth_challenge) made) passed valid timely in
      (
        ap (λ (x : Outcome a). x.table) made,
        ap (λ (x : Outcome a). x.emitted) made,
        inside,
        handled_event r₃ event o'.session o'.table o'.cache free₃ inside,
      )
