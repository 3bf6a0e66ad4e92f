-- ===== src/Relay/Mirror.antt =====
-- The worker that mirrors another relay, nostream-share/src/app/static-mirroring-worker.ts: what it
-- takes over from that relay and what it hands to it. The checks of the identifier and the signature,
-- the users, the limits merged from the two settings, and the clock are arguments.
pub mod Laws
pub mod Messages
use nostr_mesh.Prelude.{
  ℕ, zero, suc, ◌+◌, ◌-◌, ◌*◌, ◌/◌, ◌%◌, ◌^◌, ◌≤◌, ◌<◌, ◌≡◌, refl, sym, ap, subst, ◌∙◌, ◌≢◌, ◌↔◌,
  ◌⊎◌, inl, inr, Bool, true, false, not, ◌&&◌, ◌||◌, Option, none, some, List, [], ◌∷◌, ◌++◌, map,
  arith, ltb, leb, ◌==◌, if◌then◌else◌, ltb→lt, lt→ltb, leb→le, le_of_not_ltb, eq_of_not_ne,
  ==_refl, lt_of_le, ==_iff, &&_parts, Bool-cases, Option-cases, length, get_elem?, take, drop,
  length-append, length-drop, take-append, drop-append, any, all, find, All,
}
use nostr_mesh.Prelude.Text.{
  Str, codes, ◌===◌, ===_iff, ===_refl, starts_with, includes, is_space, trim, to_lower_case,
  is_hex, is_hash, is_hex_lower, is_hash_lower, is_hash_parts, is_hash_lower_parts,
}
use nostr_mesh.Prelude.Number.{ℤ}
use nostr_mesh.Nostr.{Event}
use nostr_mesh.Relay.Kinds.{KindOrRange, is_event_kind_or_range_match}
use nostr_mesh.Relay.Filter.{SubscriptionFilter, is_event_matching_filter}
use nostr_mesh.Relay.ProofOfWork.{get_event_proof_of_work, get_pubkey_proof_of_work}
use nostr_mesh.Relay.Settings.{
  ContentLimits, ContentSetting, unset, single, several, EventLimits, FeeSchedule, Settings,
}
use nostr_mesh.Relay.Expiration.{get_event_expiration, is_expired_event}
use nostr_mesh.Relay.Admission.{User, some_in}
use nostr_mesh.Relay.Repository.{Table, null, create}
use nostr_mesh.Relay.EventHandler.{add_expiration_metadata}
use nostr_mesh.Relay.Strategies.{new_row}

-- `typeof limit !== 'undefined' && limit > 0 && test`.
abbrev pub breaks : Option ℕ → (ℕ → Bool) → Bool
breaks none test = false
breaks (some limit) test = ltb 0 limit && test limit

-- `!Array.isArray(kinds) || kinds.some(isEventKindOrRangeMatch(event))`.
abbrev pub concerns : Event → Option (List KindOrRange) → Bool
concerns event none = true
concerns event (some kinds) = any (is_event_kind_or_range_match event) kinds

unfoldable pub is_too_long : Event → ContentLimits → Bool
is_too_long event limit =
    breaks limit.max_length (λ n. ltb n (length event.content) && concerns event limit.kinds)

abbrev pub breaks_content : Event → ContentSetting → Bool
breaks_content event unset = false
breaks_content event (single limit) = is_too_long event limit
breaks_content event (several limits) = any (is_too_long event) limits

-- `typeof list !== 'undefined' && list.length > 0 && …`.
abbrev pub is_filled : {A : Type 0} → Option (List A) → Bool
is_filled none = false
is_filled (some []) = false
is_filled (some (_ ∷ _)) = true

-- `canAcceptEvent`.
unfoldable pub can_accept_event : Str → ℕ → EventLimits → Event → Bool
can_accept_event relay_pubkey now limits event =
    if relay_pubkey === event.pubkey
    then false
    else if breaks_content event limits.content
    then false
    else if breaks limits.max_positive_delta (λ d. ltb (now + d) event.created_at)
    then false
    else if breaks limits.max_negative_delta (λ d. ltb (event.created_at + d) now)
    then false
    else if breaks limits.event_id_min_zero_bits
        (λ bits. ltb (get_event_proof_of_work event.id) bits)
    then false
    else if breaks limits.pubkey_min_zero_bits
        (λ bits. ltb (get_pubkey_proof_of_work event.pubkey) bits)
    then false
    else if is_filled limits.pubkey_whitelist
        && not (some_in limits.pubkey_whitelist (starts_with event.pubkey))
    then false
    else if is_filled limits.pubkey_blacklist
        && some_in limits.pubkey_blacklist (starts_with event.pubkey)
    then false
    else if is_filled limits.kind_whitelist
        && not (some_in limits.kind_whitelist (is_event_kind_or_range_match event))
    then false
    else if is_filled limits.kind_blacklist
        && some_in limits.kind_blacklist (is_event_kind_or_range_match event)
    then false
    else true

unfoldable pub is_applicable_fee : Event → FeeSchedule → Bool
is_applicable_fee event fee =
    fee.enabled
    && not (some_in fee.whitelisted_pubkeys (starts_with event.pubkey))
    && not (some_in fee.whitelisted_event_kinds (is_event_kind_or_range_match event))

-- `minBalance && user.balance < minBalance`.
abbrev pub lacks : Option ℕ → ℕ → Bool
lacks none balance = false
lacks (some minimum) balance = not (minimum == 0) && ltb balance minimum

abbrev pub admits : Option ℕ → Option User → Bool
admits minimum none = false
admits minimum (some user) =
    if not user.is_admitted then false else not (lacks minimum user.balance)

-- `isUserAdmitted`, by `skipAdmissionCheck` of the mirror.
unfoldable pub is_user_admitted : Bool → (Str → Option User) → Settings → Event → Bool
is_user_admitted skip find_user settings event =
    if skip
    then true
    else if not settings.payments_enabled
    then true
    else if not (some_in settings.admission_fees (is_applicable_fee event))
    then true
    else admits settings.event_limits.min_balance (find_user event.pubkey)

-- `Mirror` of the settings, as far as it is read here.
pub record Config : Type 0 where
  pub address : Str
  pub filters : List SubscriptionFilter
  pub skip_admission_check : Bool

-- What the worker is made with; `limits` are the limits of the relay with those of the mirror over
-- them, and `is_worker` tells whether there is a process to send to.
pub record Context : Type 0 where
  pub id_valid : Event → Bool
  pub signature_valid : Event → Bool
  pub to_number : Str → Option ℤ
  pub relay_pubkey : Str
  pub find_user : Str → Option User
  pub settings : Settings
  pub limits : EventLimits
  pub config : Config
  pub is_worker : Bool

-- A message of the mirrored relay, once it is parsed.
pub data Incoming : Type 0 where
  not_an_array other_message : Incoming
  event_message : Str → Event → Incoming

-- The time from which the next subscription asks for events, the stored events, and what was sent to
-- the other processes, with its source.
pub record Mirror : Type 0 where
  pub since : ℕ
  pub table : Table
  pub sent : List (Event × Str)

-- The readings of the clock, in seconds.
pub record Times : Type 0 where
  pub expiration : ℕ
  pub limits : ℕ
  pub arrival : ℕ

-- The message of a process to the others, and what the worker's own socket is.
pub record Broadcast : Type 0 where
  pub is_broadcast : Bool
  pub event : Event
  pub source : Option Str

module _ (c : Context) where
  open c use {
    id_valid, signature_valid, to_number, relay_pubkey, find_user, settings, limits, config,
    is_worker,
  }

  -- The checks of an event of the mirrored relay, in their order.
  unfoldable pub takes : Times → Event → Bool
  takes times event =
      if not (any (λ f. is_event_matching_filter f event) config.filters)
      then false
      else if not (id_valid event) || not (signature_valid event)
      then false
      else if is_expired_event to_number event times.expiration
      then false
      else if not (can_accept_event relay_pubkey times.limits limits event)
      then false
      else is_user_admitted config.skip_admission_check find_user settings event

  abbrev announce : ℕ → Event → List (Event × Str) → List (Event × Str)
  announce zero event sent = sent
  announce (suc n) event sent = if is_worker then sent ++ (event, config.address) ∷ [] else sent

  abbrev store : Times → Event → Mirror → Mirror
  store times event m =
      let expires = add_expiration_metadata (get_event_expiration to_number event) in
      let (inserted, table) = create (new_row event expires null) m.table in
      record m { since = times.arrival - 30; table = table; sent = announce inserted event m.sent }

  -- The handler of `message`.
  unfoldable pub on_message : Str → Times → Incoming → Mirror → Mirror
  on_message subscription_id times not_an_array m = m
  on_message subscription_id times other_message m = m
  on_message subscription_id times (event_message id event) m =
      if not (id === subscription_id)
      then m
      else if takes times event
      then store times event m
      else m

  abbrev is_from : Option Str → Str → Bool
  is_from none address = false
  is_from (some source) address = source === address

  -- `onMessage`: the events of the other processes that the mirrored relay is sent, while the socket
  -- is open.
  unfoldable pub relayed : Bool → Broadcast → List Event
  relayed is_open message =
      if not message.is_broadcast || is_from message.source config.address || not is_open
      then []
      else message.event ∷ []
