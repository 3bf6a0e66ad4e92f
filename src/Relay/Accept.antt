-- ===== src/Relay/Accept.antt =====
-- `canAcceptEvent` of nostream-share/src/handlers/event-message-handler.ts. The relay's public key and
-- the clock, in seconds, are arguments. A reason is one constructor for each message.
pub mod Laws
use nostr_mesh.Prelude.{
  ℕ, zero, suc, ◌+◌, ◌-◌, ◌*◌, ◌/◌, ◌%◌, ◌^◌, ◌≤◌, ◌<◌, ◌≡◌, refl, sym, ap, subst, ◌∙◌, ◌≢◌, ◌↔◌,
  ◌⊎◌, inl, inr, Bool, true, false, not, ◌&&◌, ◌||◌, Option, none, some, List, [], ◌∷◌, ◌++◌, map,
  arith, ltb, leb, ◌==◌, if◌then◌else◌, ltb→lt, lt→ltb, leb→le, le_of_not_ltb, eq_of_not_ne,
  ==_refl, lt_of_le, ==_iff, &&_parts, Bool-cases, Option-cases, length, get_elem?, take, drop,
  length-append, length-drop, take-append, drop-append, any, all, find, All,
}
use nostr_mesh.Prelude.Text.{
  Str, codes, ◌===◌, ===_iff, ===_refl, starts_with, includes, is_space, trim, to_lower_case,
  is_hex, is_hash, is_hex_lower, is_hash_lower, is_hash_parts, is_hash_lower_parts,
}
use nostr_mesh.Nostr.{Event}
use nostr_mesh.Relay.Kinds.{KindOrRange, is_event_kind_or_range_match}
use nostr_mesh.Relay.ProofOfWork.{get_event_proof_of_work, get_pubkey_proof_of_work}
use nostr_mesh.Relay.Settings.{ContentLimits, ContentSetting, unset, single, several, EventLimits}

pub data Reason : Type 0 where
  content_too_long too_far_in_future too_far_in_past : ℕ → Reason
  id_difficulty pubkey_difficulty : ℕ → ℕ → Reason
  pubkey_not_allowed : Reason
  kind_not_allowed : ℕ → Reason

abbrev pub reason_if : Bool → Reason → Option Reason
reason_if true r = some r
reason_if false r = none

-- An early return: the first reason that is given.
infixr 30 ◌<|>◌
abbrev pub ◌<|>◌ : Option Reason → Option Reason → Option Reason
some r <|> later = some r
none <|> later = later

-- `typeof limit !== 'undefined' && limit > 0 && test`.
abbrev pub exceeds : Option ℕ → (ℕ → Bool) → (ℕ → Reason) → Option Reason
exceeds none test reason = none
exceeds (some limit) test reason = reason_if (ltb 0 limit && test limit) (reason limit)

-- `!Array.isArray(kinds) || kinds.some(isEventKindOrRangeMatch(event))`.
abbrev pub applies : Event → Option (List KindOrRange) → Bool
applies event none = true
applies event (some kinds) = any (is_event_kind_or_range_match event) kinds

unfoldable pub content_reason : Event → ContentLimits → Option Reason
content_reason event limit =
    exceeds limit.max_length (λ n. ltb n (length event.content) && applies event limit.kinds)
      content_too_long

unfoldable pub content_reasons : Event → List ContentLimits → Option Reason
content_reasons event [] = none
content_reasons event (limit ∷ limits) = content_reason event limit <|> content_reasons event limits

abbrev pub content_check : Event → ContentSetting → Option Reason
content_check event unset = none
content_check event (single limit) = content_reason event limit
content_check event (several limits) = content_reasons event limits

-- `typeof list !== 'undefined' && list.length > 0 && !list.some(test)`, and without the negation.
abbrev pub outside : {A : Type 0} → Option (List A) → (A → Bool) → Bool
outside none test = false
outside (some []) test = false
outside (some (x ∷ xs)) test = not (any test (x ∷ xs))

abbrev pub inside : {A : Type 0} → Option (List A) → (A → Bool) → Bool
inside none test = false
inside (some xs) test = any test xs

unfoldable pub can_accept_event : Str → ℕ → EventLimits → Event → Option Reason
can_accept_event relay_pubkey now limits event =
    if relay_pubkey === event.pubkey
    then none
    else content_check event limits.content
      <|> exceeds limits.max_positive_delta (λ d. ltb (now + d) event.created_at) too_far_in_future
      <|> exceeds limits.max_negative_delta (λ d. ltb (event.created_at + d) now) too_far_in_past
      <|> exceeds limits.event_id_min_zero_bits
          (λ bits. ltb (get_event_proof_of_work event.id) bits)
          (id_difficulty (get_event_proof_of_work event.id))
      <|> exceeds limits.pubkey_min_zero_bits
          (λ bits. ltb (get_pubkey_proof_of_work event.pubkey) bits)
          (pubkey_difficulty (get_pubkey_proof_of_work event.pubkey))
      <|> reason_if (outside limits.pubkey_whitelist (starts_with event.pubkey)) pubkey_not_allowed
      <|> reason_if (inside limits.pubkey_blacklist (starts_with event.pubkey)) pubkey_not_allowed
      <|> reason_if (outside limits.kind_whitelist (is_event_kind_or_range_match event))
          (kind_not_allowed event.kind)
      <|> reason_if (inside limits.kind_blacklist (is_event_kind_or_range_match event))
          (kind_not_allowed event.kind)
