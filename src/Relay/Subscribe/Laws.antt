-- ===== src/Relay/Subscribe/Laws.antt =====
-- The bound on subscriptions, and what is sent.
use nostr_mesh.Prelude.{
  ◌≤◌, ◌<◌, ◌≡◌, inl, inr, Bool, none, List, arith, Option-cases, length, find,
}
use nostr_mesh.Prelude.Text.{Str}
use nostr_mesh.Relay.Filter.{SubscriptionFilter}
use nostr_mesh.Relay.Settings.{Settings}
use nostr_mesh.Relay.Repository.{Row}
use nostr_mesh.Relay.Session.{Subscriptions, Session, get_filters, set_filters, on_subscribed}
use nostr_mesh.Relay.Session.Laws.{set_filters_missing, set_filters_known}
use nostr_mesh.Relay.Subscribe.{or_zero, can_subscribe, handle_subscribe}

module _ (equals : List SubscriptionFilter → List SubscriptionFilter → Bool) where
  set_bounded :
      (settings : Settings) (subs : Subscriptions) (id : Str) (filters : List SubscriptionFilter)
      → 0 < or_zero settings.max_subscriptions
      → length subs ≤ or_zero settings.max_subscriptions
      → can_subscribe equals settings subs id filters ≡ none
      → length (set_filters id filters subs) ≤ or_zero settings.max_subscriptions
  unfolding can_subscribe
  set_bounded settings subs id filters limited before allowed =
      elim (Option-cases (get_filters id subs)) [
        | inl missing ↦ let size = set_filters_missing id filters subs missing in ground arith
        | inr (old, known) ↦ let size = set_filters_known id filters old subs known in omega arith
      ]

  -- Where the limit on subscriptions is set and not 0, a client within it stays within it,
  -- whatever it subscribes to.
  pub handle_subscribe_bounded :
      (uniq : List SubscriptionFilter → List SubscriptionFilter)
      (find : List SubscriptionFilter → List Row) (settings : Settings) (id : Str)
      (asked : List SubscriptionFilter) (s : Session)
      → 0 < or_zero settings.max_subscriptions
      → length s.subscriptions ≤ or_zero settings.max_subscriptions
      → length (handle_subscribe equals uniq find settings id asked s).0.subscriptions
        ≤ or_zero settings.max_subscriptions
  unfolding handle_subscribe on_subscribed
  handle_subscribe_bounded uniq find settings id asked s limited before =
      elim (Option-cases (can_subscribe equals settings s.subscriptions id (uniq asked))) [
        | inl allowed ↦
            simp allowed
              (set_bounded settings s.subscriptions id (uniq asked) limited before allowed)
        | inr (reason, refused) ↦ simp refused before
      ]
