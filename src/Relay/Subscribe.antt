-- ===== src/Relay/Subscribe.antt =====
-- Subscribing and unsubscribing: nostream-share/src/handlers/subscribe-message-handler.ts and
-- nostream-share/src/handlers/unsubscribe-message-handler.ts. Ramda's `equals` and `uniqWith(equals)`
-- are arguments, and so are the rows that the database finds for the filters.
pub mod Laws
use nostr_mesh.Prelude.{
  ℕ, zero, suc, ◌+◌, ◌-◌, ◌*◌, ◌/◌, ◌%◌, ◌^◌, ◌≤◌, ◌<◌, ◌≡◌, refl, sym, ap, subst, ◌∙◌, ◌≢◌, ◌↔◌,
  ◌⊎◌, inl, inr, Bool, true, false, not, ◌&&◌, ◌||◌, Option, none, some, List, [], ◌∷◌, ◌++◌, map,
  arith, ltb, leb, ◌==◌, if◌then◌else◌, ltb→lt, lt→ltb, leb→le, le_of_not_ltb, eq_of_not_ne,
  ==_refl, lt_of_le, ==_iff, &&_parts, Bool-cases, Option-cases, length, get_elem?, take, drop,
  length-append, length-drop, take-append, drop-append, any, all, find, All,
}
use nostr_mesh.Prelude.Text.{
  Str, codes, ◌===◌, ===_iff, ===_refl, starts_with, includes, is_space, trim, to_lower_case,
  is_hex, is_hash, is_hex_lower, is_hash_lower, is_hash_parts, is_hash_lower_parts,
}
use nostr_mesh.Prelude.Number.{decimal}
use nostr_mesh.Nostr.{Event}
use nostr_mesh.Relay.Filter.{SubscriptionFilter, is_event_matching_filter}
use nostr_mesh.Relay.Settings.{Settings}
use nostr_mesh.Relay.Repository.{Row}
use nostr_mesh.Relay.Session.{
  Output, notice_message, event_message, end_of_stored_events, Subscriptions, Session, get_filters,
  on_subscribed, on_unsubscribed, send_message,
}

pub data Rejection : Type 0 where
  duplicate_subscription : Str → Rejection
  too_many_subscriptions too_many_filters id_too_long : ℕ → Rejection

-- `existingSubscription?.length`.
abbrev pub filter_count : Option (List SubscriptionFilter) → ℕ
filter_count none = 0
filter_count (some filters) = length filters

abbrev pub or_zero : Option ℕ → ℕ
or_zero none = 0
or_zero (some n) = n

abbrev pub exceeds_length : Option ℕ → ℕ → Bool
exceeds_length none n = false
exceeds_length (some limit) n = ltb limit n

-- The text of the notice.
abbrev pub rejection_text : Rejection → Str
rejection_text (duplicate_subscription id) =
    codes "Duplicate subscription " ++ (id ++ codes ": Ignoring")
rejection_text (too_many_subscriptions n) =
    codes "Too many subscriptions: Number of subscriptions must be less than or equal to "
    ++ decimal n
rejection_text (too_many_filters n) =
    codes "Too many filters: Number of filters per susbscription must be less then or equal to "
    ++ decimal n
rejection_text (id_too_long n) =
    codes "Subscription ID too long: Subscription ID must be less or equal to " ++ decimal n

module _ (equals : List SubscriptionFilter → List SubscriptionFilter → Bool) where
  abbrev same_as : List SubscriptionFilter → Option (List SubscriptionFilter) → Bool
  same_as filters none = false
  same_as filters (some existing) = not (length existing == 0) && equals filters existing

  unfoldable pub can_subscribe :
      Settings → Subscriptions → Str → List SubscriptionFilter → Option Rejection
  can_subscribe settings subscriptions id filters =
      let existing = get_filters id subscriptions in
      let max_subscriptions = or_zero settings.max_subscriptions in
      let max_filters = or_zero settings.max_filters in
      if same_as filters existing
      then some (duplicate_subscription id)
      else if ltb 0 max_subscriptions
          && filter_count existing == 0
          && ltb max_subscriptions (length subscriptions + 1)
      then some (too_many_subscriptions max_subscriptions)
      else if ltb 0 max_filters && ltb max_filters (length filters)
      then some (too_many_filters max_filters)
      else if exceeds_length settings.max_subscription_id_length (length id)
      then some (id_too_long (or_zero settings.max_subscription_id_length))
      else none

  -- The pipeline of `fetchAndSend` over the rows that were found.
  unfoldable pub send_rows : Session → Str → List SubscriptionFilter → List Row → List Output
  send_rows s id filters [] = send_message s (end_of_stored_events id)
  send_rows s id filters (row ∷ rows) =
      let later = send_rows s id filters rows in
      if row.is_deleted
      then later
      else if any (λ filter. is_event_matching_filter filter row.event) filters
      then send_message s (event_message id row.event) ++ later
      else later

  abbrev pub subscribed :
      (List SubscriptionFilter → List Row)
      → Str
      → List SubscriptionFilter
      → Option Rejection
      → Session
      → Session × List Output
  subscribed find id filters (some reason) s = (
    s,
    send_message s (notice_message (codes "Subscription rejected: " ++ rejection_text reason)),
  )
  subscribed find id filters none s =
      (on_subscribed id filters s, send_rows s id filters (find filters))

  -- `handleMessage` of the handler of REQ.
  unfoldable pub handle_subscribe :
      (List SubscriptionFilter → List SubscriptionFilter)
      → (List SubscriptionFilter → List Row)
      → Settings
      → Str
      → List SubscriptionFilter
      → Session
      → Session × List Output
  handle_subscribe uniq find settings id asked s =
      let filters = uniq asked in
      subscribed find id filters (can_subscribe settings s.subscriptions id filters) s

  -- `handleMessage` of the handler of CLOSE.
  unfoldable pub handle_unsubscribe : Str → Session → Session
  handle_unsubscribe id s = on_unsubscribed id s
