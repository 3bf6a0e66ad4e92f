-- ===== src/Relay/Session.antt =====
-- The session of one client: `WebSocketAdapter` of nostream-share/src/adapters/web-socket-adapter.ts.
-- The challenge's random text and the clock, in milliseconds, are arguments; what goes to the client
-- and to the other sessions is a list of outputs. Abortable handlers are not modelled: no handler
-- aborts anything.
pub mod Laws
use nostr_mesh.Prelude.{
  ℕ, zero, suc, ◌+◌, ◌-◌, ◌*◌, ◌/◌, ◌%◌, ◌^◌, ◌≤◌, ◌<◌, ◌≡◌, refl, sym, ap, subst, ◌∙◌, ◌≢◌, ◌↔◌,
  ◌⊎◌, inl, inr, Bool, true, false, not, ◌&&◌, ◌||◌, Option, none, some, List, [], ◌∷◌, ◌++◌, map,
  arith, ltb, leb, ◌==◌, if◌then◌else◌, ltb→lt, lt→ltb, leb→le, le_of_not_ltb, eq_of_not_ne,
  ==_refl, lt_of_le, ==_iff, &&_parts, Bool-cases, Option-cases, length, get_elem?, take, drop,
  length-append, length-drop, take-append, drop-append, any, all, find, All,
}
use nostr_mesh.Prelude.Text.{
  Str, codes, ◌===◌, ===_iff, ===_refl, starts_with, includes, is_space, trim, to_lower_case,
  is_hex, is_hash, is_hex_lower, is_hash_lower, is_hash_parts, is_hash_lower_parts,
}
use nostr_mesh.Nostr.{Event}
use nostr_mesh.Relay.Filter.{SubscriptionFilter, is_event_matching_filter}

pub data Output : Type 0 where
  command_result : Str → Bool → Str → Output
  auth_message : Str → Output
  notice_message : Str → Output
  event_message : Str → Event → Output
  end_of_stored_events : Str → Output
  ping pong : Output

abbrev pub Subscriptions : Type 0
Subscriptions = List (Str × List SubscriptionFilter)

pub record Challenge : Type 0 where
  pub created_at : ℕ
  pub challenge : Str

pub record Session : Type 0 where
  pub is_open : Bool
  pub alive : Bool
  pub subscriptions : Subscriptions
  pub auth_challenge : Option Challenge
  pub authenticated : Bool

-- What the schema of messages lets through.
pub data Incoming : Type 0 where
  event_in auth_in : Event → Incoming
  req_in : Str → List SubscriptionFilter → Incoming
  close_in : Str → Incoming

abbrev pub new_session : Session
new_session = record {
  is_open = true;
  alive = true;
  subscriptions = [];
  auth_challenge = none;
  authenticated = false;
}

-- `Map.delete`, `Map.get` and `Map.set`, which keeps the place of a key that is there.
unfoldable pub remove : Str → Subscriptions → Subscriptions
remove id [] = []
remove id ((name, filters) ∷ rest) =
    let kept = remove id rest in if name === id then rest else (name, filters) ∷ kept

unfoldable pub get_filters : Str → Subscriptions → Option (List SubscriptionFilter)
get_filters id [] = none
get_filters id ((name, filters) ∷ rest) =
    let later = get_filters id rest in if name === id then some filters else later

unfoldable pub set_filters : Str → List SubscriptionFilter → Subscriptions → Subscriptions
set_filters id new [] = (id, new) ∷ []
set_filters id new ((name, filters) ∷ rest) =
    let later = set_filters id new rest in
    if name === id then (name, new) ∷ rest else (name, filters) ∷ later

unfoldable pub on_subscribed : Str → List SubscriptionFilter → Session → Session
on_subscribed id filters s = record s { subscriptions = set_filters id filters s.subscriptions }

unfoldable pub on_unsubscribed : Str → Session → Session
on_unsubscribed id s = record s { subscriptions = remove id s.subscriptions }

unfoldable pub set_new_auth_challenge : ℕ → Str → Session → Session
set_new_auth_challenge now random s = record s {
  auth_challenge = some (record { created_at = now; challenge = random });
}

unfoldable pub set_client_to_authenticated : Session → Session
set_client_to_authenticated s = record s { authenticated = true; auth_challenge = none }

-- `sendMessage`: nothing is sent to a client that is not open.
unfoldable pub send_message : Session → Output → List Output
send_message s message = if s.is_open then message ∷ [] else []

-- `onSendEvent`.
unfoldable pub send_matching : Session → Event → Subscriptions → List Output
unfolding send_message
send_matching s event [] = []
send_matching s event ((id, filters) ∷ rest) =
    let later = send_matching s event rest in
    if any (λ filter. is_event_matching_filter filter event) filters
    then send_message s (event_message id event) ++ later
    else later

unfoldable pub on_send_event : Session → Event → List Output
on_send_event s event = send_matching s event s.subscriptions

unfoldable pub on_heartbeat : Session → Session × List Output
on_heartbeat s =
    if not s.alive && length s.subscriptions == 0
    then (record s { is_open = false }, [])
    else (record s { alive = false }, ping ∷ [])

unfoldable pub on_client_pong : Session → Session
on_client_pong s = record s { alive = true }

unfoldable pub on_client_ping : Session → Session × List Output
on_client_ping s = (record s { alive = true }, pong ∷ [])

unfoldable pub on_client_close : Session → Session
on_client_close s = record s { alive = false; subscriptions = [] }

-- `message[0] !== AUTH && message[0] !== CLOSE && message[0] !== REQ`.
abbrev pub is_guarded : Incoming → Bool
is_guarded (event_in e) = true
is_guarded _ = false

abbrev pub challenge_for : ℕ → Str → Incoming → Session → Session × List Output
challenge_for now random (event_in e) s = (
  set_new_auth_challenge now random s,
  send_message s (command_result e.id false (codes "rejected: unauthorized"))
      ++ send_message s (auth_message random),
)
challenge_for now random _ s =
    (set_new_auth_challenge now random s, send_message s (auth_message random))

-- `isAuthenticationRequired`: whether the message is dropped, with what it does.
unfoldable pub is_authentication_required :
    Bool → ℕ → Str → Incoming → Session → Bool × Session × List Output
is_authentication_required enabled now random message s =
    let (challenged, outputs) = challenge_for now random message s in
    if not s.authenticated && is_guarded message && enabled
    then (true, challenged, outputs)
    else (false, s, [])
