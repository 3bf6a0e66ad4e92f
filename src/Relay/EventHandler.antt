-- ===== src/Relay/EventHandler.antt =====
-- `handleMessage` of nostream-share/src/handlers/event-message-handler.ts, with its rate limits. The
-- checks of the identifier and of the signature, the users, Redis and the clock are arguments; each
-- reading of the clock is one of the times.
pub mod Laws
use nostr_mesh.Prelude.{
  ℕ, zero, suc, ◌+◌, ◌-◌, ◌*◌, ◌/◌, ◌%◌, ◌^◌, ◌≤◌, ◌<◌, ◌≡◌, refl, sym, ap, subst, ◌∙◌, ◌≢◌, ◌↔◌,
  ◌⊎◌, inl, inr, Bool, true, false, not, ◌&&◌, ◌||◌, Option, none, some, List, [], ◌∷◌, ◌++◌, map,
  arith, ltb, leb, ◌==◌, if◌then◌else◌, ltb→lt, lt→ltb, leb→le, le_of_not_ltb, eq_of_not_ne,
  ==_refl, lt_of_le, ==_iff, &&_parts, Bool-cases, Option-cases, length, get_elem?, take, drop,
  length-append, length-drop, take-append, drop-append, any, all, find, All,
}
use nostr_mesh.Prelude.Text.{
  Str, codes, ◌===◌, ===_iff, ===_refl, starts_with, includes, is_space, trim, to_lower_case,
  is_hex, is_hash, is_hex_lower, is_hash_lower, is_hash_parts, is_hash_lower_parts,
}
use nostr_mesh.Prelude.Number.{ℤ, decimal}
use nostr_mesh.Nostr.{Event}
use nostr_mesh.Relay.Kinds.{KindOrRange, kind, range, is_event_kind_or_range_match}
use nostr_mesh.Relay.Settings.{EventRateLimit, Settings}
use nostr_mesh.Relay.Expiration.{get_event_expiration, is_expired_event}
use nostr_mesh.Relay.Accept.{Reason, can_accept_event, inside}
use nostr_mesh.Relay.Admission.{User, Refusal, is_user_admitted}
use nostr_mesh.Relay.RateLimit.{SortedSets, hit}
use nostr_mesh.Relay.Repository.{Table}
use nostr_mesh.Relay.Strategies.{
  Verdict, invalid_id, invalid_signature, expired, rate_limited, unable_to_process, rejected,
  blocked, Effect, command_result, execute,
}

-- When the clock is read: in seconds for the expiration and the limits, and in milliseconds for each
-- of the hits.
pub record Times : Type 0 where
  pub expiration : ℕ
  pub limits : ℕ
  pub hits : ℕ → ℕ

-- `toString` of a list of kinds.
abbrev kind_text : KindOrRange → Str
kind_text (kind k) = decimal k
kind_text (range low high) =
    codes "[" ++ (decimal low ++ (codes "," ++ (decimal high ++ codes "]")))

unfoldable pub joined : List KindOrRange → Str
joined [] = []
joined (k ∷ []) = kind_text k
joined (k ∷ l ∷ ks) = kind_text k ++ (codes "," ++ joined (l ∷ ks))

unfoldable pub rate_key : Event → EventRateLimit → Str
rate_key event limit =
    event.pubkey
    ++ (codes ":events:"
        ++ (decimal limit.period ++ (elim limit.kinds [
          | none ↦ []
          | some kinds ↦ codes ":[" ++ (joined kinds ++ codes "]")
        ])))

-- `Array.isArray(kinds) && !kinds.some(…)`.
abbrev is_skipped : Event → Option (List KindOrRange) → Bool
is_skipped event none = false
is_skipped event (some kinds) = not (any (is_event_kind_or_range_match event) kinds)

-- `if (!eventExpiration) return event`.
abbrev pub add_expiration_metadata : Option ℕ → Option ℕ
add_expiration_metadata (some (suc n)) = some (suc n)
add_expiration_metadata _ = none

abbrev pub reject : Event → Verdict → List Effect
reject event verdict = command_result event.id false verdict ∷ []

abbrev pub processed : Event → Option (List Effect) × Table → List Effect × Table
processed event (some effects, table) = (effects, table)
processed event (none, table) = (reject event unable_to_process, table)

-- What a handler is made with, and what the checks of the identifier and the signature say.
pub record Context : Type 1 where
  pub id_valid : Event → Bool
  pub signature_valid : Event → Bool
  pub to_number : Str → Option ℤ
  pub redis : SortedSets
  pub relay_pubkey : Str
  pub find_user : Str → Option User
  pub settings : Settings
  pub client_address : Str

abbrev pub user_verdict : Option Refusal → Option Verdict
user_verdict none = none
user_verdict (some refusal) = some (blocked refusal)

abbrev pub limit_verdict : Option Reason → Option Verdict → Option Verdict
limit_verdict none later = later
limit_verdict (some reason) later = some (rejected reason)

module _ (c : Context) where
  open c use {
    id_valid, signature_valid, to_number, redis, relay_pubkey, find_user, settings, client_address,
  }
  open redis use {Cache}

  -- The loop; the count of the hits so far is the place of the next in the times.
  unfoldable pub hit_all : (ℕ → ℕ) → ℕ → Event → List EventRateLimit → Bool → Cache → Bool × Cache
  hit_all times n event [] limited cache = (limited, cache)
  hit_all times n event (limit ∷ limits) limited cache =
      let skipped = hit_all times n event limits limited cache in
      let (over, after) =
        hit redis (times n) (rate_key event limit) 1 limit.period limit.rate cache in
      let counted = hit_all times (n + 1) event limits (limited || over) after in
      if is_skipped event limit.kinds then skipped else counted

  unfoldable pub is_rate_limited : (ℕ → ℕ) → Event → Cache → Bool × Cache
  is_rate_limited times event cache =
      let limits = settings.event_limits in
      let counted = hit_all times 0 event limits.rate_limits false cache in
      if relay_pubkey === event.pubkey
      then (false, cache)
      else if length limits.rate_limits == 0
      then (false, cache)
      else if inside limits.whitelisted_pubkeys (λ key. key === event.pubkey)
      then (false, cache)
      else if inside limits.whitelisted_ip_addresses (λ address. address === client_address)
      then (false, cache)
      else counted

  -- The checks behind the rate limits.
  unfoldable pub late_verdict : Times → Event → Option Verdict
  late_verdict times event =
      limit_verdict (can_accept_event relay_pubkey times.limits settings.event_limits event)
        (user_verdict (is_user_admitted relay_pubkey find_user settings event))

  -- The first check that fails, and the cache behind the checks that ran.
  unfoldable pub verdict : Times → Event → Cache → Option Verdict × Cache
  verdict times event cache =
      let (limited, after) = is_rate_limited times.hits event cache in
      if not (id_valid event)
      then (some invalid_id, cache)
      else if not (signature_valid event)
      then (some invalid_signature, cache)
      else if is_expired_event to_number event times.expiration
      then (some expired, cache)
      else if limited
      then (some rate_limited, after)
      else (late_verdict times event, after)

  abbrev pub decide : Option Verdict → Event → Table → List Effect × Table
  decide (some verdict) event table = (reject event verdict, table)
  decide none event table =
      processed event
        (execute event (add_expiration_metadata (get_event_expiration to_number event)) table)

  unfoldable pub handle_event : Times → Event → Table → Cache → List Effect × Table × Cache
  handle_event times event table cache =
      let (failed, after) = verdict times event cache in
      let (effects, stored) = decide failed event table in (effects, stored, after)
