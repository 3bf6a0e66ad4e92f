-- ===== src/Relay/Adapter/Laws.antt =====
-- What one message of a client changes, `onClientMessage` of
-- nostream-share/src/adapters/web-socket-adapter.ts with the handlers behind it.
use nostr_mesh.Prelude.{
  ℕ, ◌≤◌, ◌<◌, ◌≡◌, refl, sym, ap, subst, ◌∙◌, inl, inr, Bool, true, false, not, ◌&&◌, Option, none,
  some, List, [], ◌∷◌, arith, if◌then◌else◌, Bool-cases, length, find,
}
use nostr_mesh.Prelude.Text.{Str}
use nostr_mesh.Nostr.{Event}
use nostr_mesh.Relay.Filter.{SubscriptionFilter}
use nostr_mesh.Relay.Repository.{Row, Table}
use nostr_mesh.Relay.Repository.Laws.{IsUnique}
use nostr_mesh.Relay.Strategies.{Verdict, Effect, authenticate, execute_signed_auth}
use nostr_mesh.Relay.Strategies.Laws.{Answers, execute_signed_auth_iff}
use nostr_mesh.Relay.Strategies.Unique.{execute-IsUnique}
use nostr_mesh.Relay.EventHandler.{Context, Times, verdict, processed, decide, handle_event}
use nostr_mesh.Relay.Session.{
  Output, on_subscribed, Challenge, Subscriptions, Session, Incoming, event_in, auth_in, req_in,
  close_in, remove, on_unsubscribed, set_client_to_authenticated, set_new_auth_challenge,
  challenge_for, is_guarded, is_authentication_required,
}
use nostr_mesh.Relay.Subscribe.{
  Rejection, subscribed, can_subscribe, or_zero, handle_subscribe, handle_unsubscribe,
}
use nostr_mesh.Relay.Subscribe.Laws.{handle_subscribe_bounded}
use nostr_mesh.Relay.Adapter.{
  AdapterContext, Received, malformed, parsed, Readings, Outcome, is_message_limited, auth_verdict,
  answered_auth, decide_auth, handle_auth, dispatch, only_sent, outputs, unless_required,
  on_received, on_client_message,
}

processed_table :
    (event : Event) (result : Option (List Effect) × Table) → (processed event result).1 ≡ result.1
processed_table event (some es, t) = refl
processed_table event (none, t) = refl

module _ (c : Context) where
  open c use {redis}
  open redis use {Cache}

  decide-IsUnique :
      (failed : Option Verdict) (event : Event) (t : Table)
      → IsUnique t
      → IsUnique (decide c failed event t).1
  decide-IsUnique (some v) event t u = u
  decide-IsUnique none event t u =
      subst IsUnique (sym (processed_table event _)) (execute-IsUnique event _ t u)

  -- An event of a client keeps the unique indexes.
  pub handle_event-IsUnique :
      (times : Times) (event : Event) (t : Table) (cache : Cache)
      → IsUnique t
      → IsUnique (handle_event c times event t cache).1
  unfolding handle_event
  handle_event-IsUnique times event t cache u =
      decide-IsUnique (verdict c times event cache).0 event t u

length-remove : (id : Str) (subs : Subscriptions) → length (remove id subs) ≤ length subs
unfolding remove
length-remove id [] = omega arith
length-remove id ((name, filters) ∷ rest) = ground (arith, length-remove id rest)

authenticate_subscriptions :
    (now : ℕ) (event : Event) (c : Option Challenge) (s : Session)
    → (authenticate now event c s).1.subscriptions ≡ s.subscriptions
unfolding set_client_to_authenticated
authenticate_subscriptions now event none s = refl
authenticate_subscriptions now event (some c) s = ground arith

answered_subscriptions :
    (event : Event) (result : Option (List Effect) × Session)
    → (answered_auth event result).1 ≡ result.1
answered_subscriptions event (some es, s) = refl
answered_subscriptions event (none, s) = refl

decide_auth_subscriptions :
    (now : ℕ) (failed : Option Verdict) (event : Event) (s : Session)
    → (decide_auth now failed event s).1.subscriptions ≡ s.subscriptions
unfolding execute_signed_auth
decide_auth_subscriptions now (some v) event s = refl
decide_auth_subscriptions now none event s =
    ap (λ (t : Session). t.subscriptions)
      (answered_subscriptions event (execute_signed_auth now event s))
    ∙ authenticate_subscriptions now event s.auth_challenge s

decide_auth_answer :
    (now : ℕ) (failed : Option Verdict) (event : Event) (s : Session)
    → s.authenticated ≡ false
    → (decide_auth now failed event s).1.authenticated ≡ true
    → (failed ≡ none) × ((execute_signed_auth now event s).1.authenticated ≡ true)
decide_auth_answer now (some v) event s before after = cc
decide_auth_answer now none event s before after = (
  refl,
  ap (λ (t : Session). t.authenticated)
        (sym (answered_subscriptions event (execute_signed_auth now event s)))
      ∙ after,
)

subscribed_authenticated :
    (equals : List SubscriptionFilter → List SubscriptionFilter → Bool)
    → (find : List SubscriptionFilter → List Row) (id : Str) (filters : List SubscriptionFilter)
    → (refused : Option Rejection) (s : Session)
    → (subscribed equals find id filters refused s).0.authenticated ≡ s.authenticated
unfolding on_subscribed
subscribed_authenticated equals find id filters (some reason) s = refl
subscribed_authenticated equals find id filters none s = refl

challenged_session :
    (now : ℕ) (random : Str) (message : Incoming) (s : Session)
    → ((challenge_for now random message s).0.subscriptions ≡ s.subscriptions)
      × ((challenge_for now random message s).0.authenticated ≡ s.authenticated)
unfolding set_new_auth_challenge
challenged_session now random (event_in e) s = (refl, refl)
challenged_session now random (auth_in e) s = (refl, refl)
challenged_session now random (req_in id filters) s = (refl, refl)
challenged_session now random (close_in id) s = (refl, refl)

module _ (a : AdapterContext) where
  open a use {handlers, equals, uniq, find_rows}
  open handlers use {redis, settings}
  open redis use {Cache}

  -- What a message may do to a session `s` and a table `t`, by whether it met the rate limit and by the
  -- cache behind that.
  pub record Keeps (r : Readings) (raw : Received) (limited : Bool) (cache : Cache) (s : Session)
      (t : Table) (o : Outcome a) : Type 0 where
    pub unique : IsUnique t → IsUnique o.table
    pub bounded :
        0 < or_zero settings.max_subscriptions
        → length s.subscriptions ≤ or_zero settings.max_subscriptions
        → length o.session.subscriptions ≤ or_zero settings.max_subscriptions
    pub answered :
        s.authenticated ≡ false
        → o.session.authenticated ≡ true
        → (event : Event) × (raw ≡ parsed (auth_in event))
          × (limited ≡ false)
          × ((auth_verdict a r.handler event cache).0 ≡ none)
          × Answers r.answer_time event s

  dispatch-Keeps :
      (r : Readings) (message : Incoming) (s : Session) (t : Table) (cache : Cache)
      → Keeps r (parsed message) false cache s t (dispatch a r message s t cache)
  unfolding dispatch handle_auth handle_unsubscribe on_unsubscribed handle_subscribe
  dispatch-Keeps r (event_in event) s t cache = record {
    unique = handle_event-IsUnique handlers r.handler event t cache;
    bounded = λ limited before. before;
    answered = λ before after. cc (sym before ∙ after);
  }
  dispatch-Keeps r (auth_in event) s t cache =
      let failed = (auth_verdict a r.handler event cache).0 in
      record {
        unique = λ u. u;
        bounded = λ limited before.
            subst (λ subs. length subs ≤ or_zero settings.max_subscriptions)
              (sym (decide_auth_subscriptions r.answer_time failed event s)) before;
        answered = λ before after.
            let (passed, yes_) = decide_auth_answer r.answer_time failed event s before after in
            (
              event,
              refl,
              refl,
              passed,
              (execute_signed_auth_iff r.answer_time event s before).0 yes_,
            );
      }
  dispatch-Keeps r (req_in id filters) s t cache = record {
    unique = λ u. u;
    bounded = handle_subscribe_bounded equals uniq (find_rows t) settings id filters s;
    answered = λ before after. cc (
        sym before
        ∙ sym (
            subscribed_authenticated equals (find_rows t) id (uniq filters)
              (can_subscribe equals settings s.subscriptions id (uniq filters)) s)
        ∙ after);
  }
  dispatch-Keeps r (close_in id) s t cache = record {
    unique = λ u. u;
    bounded = λ limited before. omega (arith, length-remove id s.subscriptions);
    answered = λ before after. cc (sym before ∙ after);
  }

  -- A message that changes neither the table nor who is authenticated, nor the subscriptions.
  still-Keeps :
      (r : Readings) (raw : Received) (limited : Bool) (s s' : Session) (t : Table) (cache : Cache)
      (os : List Output)
      → s'.subscriptions ≡ s.subscriptions
      → s'.authenticated ≡ s.authenticated
      → Keeps r raw limited cache s t
          (record { session = s'; table = t; cache = cache; emitted = outputs os })
  still-Keeps r raw limited s s' t cache os same_subs same_auth = record {
    unique = λ u. u;
    bounded = λ limited before.
        subst (λ subs. length subs ≤ or_zero settings.max_subscriptions) (sym same_subs) before;
    answered = λ before after. cc (sym before ∙ sym same_auth ∙ after);
  }

  required-Keeps :
      (required : Bool) (r : Readings) (message : Incoming) (s : Session) (t : Table)
      (cache : Cache)
      → Keeps r (parsed message) false cache s t (
          unless_required a
            (let (challenged, os) = challenge_for r.challenge_time r.challenge message s in
              if required then (true, challenged, os) else (false, s, []))
            r
            message
            t
            cache)
  required-Keeps true r message s t cache =
      let (subs, auth) = challenged_session r.challenge_time r.challenge message s in
      still-Keeps r (parsed message) false s _ t cache _ subs auth
  required-Keeps false r message s t cache = dispatch-Keeps r message s t cache

  on_received-Keeps :
      (r : Readings) (raw : Received) (s : Session) (t : Table) (cache : Cache)
      → Keeps r raw false cache s t (on_received a r raw s t cache)
  unfolding on_received is_authentication_required
  on_received-Keeps r (malformed text) s t cache =
      still-Keeps r (malformed text) false s s t cache _ refl refl
  on_received-Keeps r (parsed message) s t cache =
      required-Keeps (not s.authenticated && is_guarded message && settings.authentication_enabled)
        r message s t cache

  limited-Keeps :
      (limited : Bool) (r : Readings) (raw : Received) (s : Session) (t : Table) (cache : Cache)
      → (notice : Output)
      → Keeps r raw limited cache s t
          (if limited then only_sent a s t cache notice else on_received a r raw s t cache)
  limited-Keeps true r raw s t cache notice = still-Keeps r raw true s s t cache _ refl refl
  limited-Keeps false r raw s t cache notice = on_received-Keeps r raw s t cache

  -- A message of a client, whatever it is, keeps the two unique indexes of the table and the limit on
  -- subscriptions, where that is set and not 0; and a session that was not authenticated becomes so
  -- only where the message is an AUTH message that did not meet the rate limit on messages, whose event
  -- passed all checks behind it and answers the session's challenge in time.
  pub on_client_message-Keeps :
      (r : Readings) (raw : Received) (s : Session) (t : Table) (cache : Cache)
      → Keeps r raw
          (is_message_limited a r.message_hits cache).0
          (is_message_limited a r.message_hits cache).1
          (record s { alive = true })
          t
          (on_client_message a r raw s t cache)
  unfolding on_client_message
  on_client_message-Keeps r raw s t cache =
      limited-Keeps (is_message_limited a r.message_hits cache).0 r raw _ t _ _

  locked_message :
      (enabled : Bool) (r : Readings) (message : Incoming) (s : Session) (t : Table) (cache : Cache)
      → enabled ≡ true
      → s.authenticated ≡ false
      → (unless_required a
          (is_authentication_required enabled r.challenge_time r.challenge message s)
          r
          message
          t
          cache).table
        ≡ t
  unfolding is_authentication_required dispatch
  locked_message enabled r (event_in event) s t cache on out = rw (on, out) refl
  locked_message enabled r (auth_in event) s t cache on out = rw (on, out) refl
  locked_message enabled r (req_in id filters) s t cache on out = rw (on, out) refl
  locked_message enabled r (close_in id) s t cache on out = rw (on, out) refl

  locked_received :
      (r : Readings) (raw : Received) (s : Session) (t : Table) (cache : Cache)
      → settings.authentication_enabled ≡ true
      → s.authenticated ≡ false
      → (on_received a r raw s t cache).table ≡ t
  unfolding on_received
  locked_received r (malformed text) s t cache on out = refl
  locked_received r (parsed message) s t cache on out =
      locked_message settings.authentication_enabled r message s t cache on out

  -- Where authentication is enabled, no message of a client that has not authenticated changes the
  -- stored events.
  pub on_client_message_locked :
      (r : Readings) (raw : Received) (s : Session) (t : Table) (cache : Cache)
      → settings.authentication_enabled ≡ true
      → s.authenticated ≡ false
      → (on_client_message a r raw s t cache).table ≡ t
  unfolding on_client_message
  on_client_message_locked r raw s t cache on out =
      elim (Bool-cases (is_message_limited a r.message_hits cache).0) [
        | inl limited ↦ rw limited refl
        | inr free ↦ rw free (locked_received r raw _ t _ on out)
      ]
