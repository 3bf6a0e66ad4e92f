-- ===== src/Relay/Session/Laws.antt =====
-- Lemmas on the session of a web socket client: its authentication, its events and its heartbeats.
use nostr_mesh.Prelude.{
  ℕ, zero, suc, ◌+◌, ◌≡◌, refl, ap, ◌∙◌, inl, inr, true, false, none, some, List, [], ◌∷◌, arith,
  if◌then◌else◌, Bool-cases, length, any,
}
use nostr_mesh.Prelude.Text.{Str}
use nostr_mesh.Nostr.{Event}
use nostr_mesh.Relay.Filter.{SubscriptionFilter, is_event_matching_filter}
use nostr_mesh.Relay.Session.{
  Output, event_message, Subscriptions, Session, get_filters, set_filters, send_message,
  send_matching, on_send_event, on_heartbeat,
}

-- `n` heartbeats without an answer.
unfoldable pub heartbeats : ℕ → Session → Session
heartbeats zero s = s
heartbeats (suc n) s = heartbeats n (on_heartbeat s).0

beat_answering : (s : Session) → s.alive ≡ true → (on_heartbeat s).0 ≡ record s { alive = false }
unfolding on_heartbeat
beat_answering s h = simp h refl

beat_silent :
    (s : Session)
    → s.alive ≡ false
    → length s.subscriptions ≡ 0
    → (on_heartbeat s).0 ≡ record s { is_open = false }
unfolding on_heartbeat
beat_silent s h k = simp (h, k) refl

silent_closes :
    (n : ℕ) (s : Session)
    → s.alive ≡ false
    → length s.subscriptions ≡ 0
    → (heartbeats (suc n) s).is_open ≡ false
unfolding heartbeats
silent_closes zero s silent none_left =
    ap (λ (t : Session). t.is_open) (beat_silent s silent none_left)
silent_closes (suc n) s silent none_left =
    ap (λ (t : Session). (heartbeats (suc n) t).is_open) (beat_silent s silent none_left)
    ∙ silent_closes n (record s { is_open = false }) silent none_left

-- A client without a subscription that leaves two or more heartbeats in a row unanswered is closed.
pub heartbeats_silent :
    (n : ℕ) (s : Session)
    → length s.subscriptions ≡ 0
    → (heartbeats (suc (suc n)) s).is_open ≡ false
unfolding heartbeats
heartbeats_silent n s h = elim (Bool-cases s.alive) [
  | inl alive ↦
      ap (λ (t : Session). (heartbeats (suc n) t).is_open) (beat_answering s alive)
      ∙ silent_closes n (record s { alive = false }) refl h
  | inr silent ↦ silent_closes (suc n) s silent h
]

pub set_filters_missing :
    (id : Str) (new : List SubscriptionFilter) (subs : Subscriptions)
    → get_filters id subs ≡ none
    → length (set_filters id new subs) ≡ length subs + 1
unfolding set_filters get_filters
set_filters_missing id new [] h = refl
set_filters_missing id new ((name, filters) ∷ rest) h =
    ground (arith, set_filters_missing id new rest)

pub set_filters_known :
    (id : Str) (new old : List SubscriptionFilter) (subs : Subscriptions)
    → get_filters id subs ≡ some old
    → length (set_filters id new subs) ≡ length subs
unfolding set_filters get_filters
set_filters_known id new old [] h = cc h
set_filters_known id new old ((name, filters) ∷ rest) h =
    ground (arith, set_filters_known id new old rest)

-- What a client is to get for an event: one message for each subscription with a filter that matches.
unfoldable pub matching : Event → Subscriptions → List Output
matching event [] = []
matching event ((id, filters) ∷ rest) =
    let later = matching event rest in
    if any (λ filter. is_event_matching_filter filter event) filters
    then event_message id event ∷ later
    else later

send_matching_lem :
    (s : Session) (event : Event) (subs : Subscriptions)
    → send_matching s event subs ≡ (if s.is_open then matching event subs else [])
unfolding send_matching send_message matching
send_matching_lem s event [] = ground arith
send_matching_lem s event ((id, filters) ∷ rest) = ground (arith, send_matching_lem s event rest)

-- An event goes to an open client once for each subscription that one of its filters matches, in the
-- order of the subscriptions, and to no other client.
pub on_send_event_lem :
    (s : Session) (event : Event)
    → on_send_event s event ≡ (if s.is_open then matching event s.subscriptions else [])
unfolding on_send_event
on_send_event_lem s event = send_matching_lem s event s.subscriptions
