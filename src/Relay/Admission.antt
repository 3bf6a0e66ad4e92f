-- ===== src/Relay/Admission.antt =====
-- `isUserAdmitted` of nostream-share/src/handlers/event-message-handler.ts. The table of users is an
-- argument.
pub mod Laws
use nostr_mesh.Prelude.{
  ℕ, zero, suc, ◌+◌, ◌-◌, ◌*◌, ◌/◌, ◌%◌, ◌^◌, ◌≤◌, ◌<◌, ◌≡◌, refl, sym, ap, subst, ◌∙◌, ◌≢◌, ◌↔◌,
  ◌⊎◌, inl, inr, Bool, true, false, not, ◌&&◌, ◌||◌, Option, none, some, List, [], ◌∷◌, ◌++◌, map,
  arith, ltb, leb, ◌==◌, if◌then◌else◌, ltb→lt, lt→ltb, leb→le, le_of_not_ltb, eq_of_not_ne,
  ==_refl, lt_of_le, ==_iff, &&_parts, Bool-cases, Option-cases, length, get_elem?, take, drop,
  length-append, length-drop, take-append, drop-append, any, all, find, All,
}
use nostr_mesh.Prelude.Text.{
  Str, codes, ◌===◌, ===_iff, ===_refl, starts_with, includes, is_space, trim, to_lower_case,
  is_hex, is_hash, is_hex_lower, is_hash_lower, is_hash_parts, is_hash_lower_parts,
}
use nostr_mesh.Nostr.{Event}
use nostr_mesh.Relay.Kinds.{KindOrRange, is_event_kind_or_range_match}
use nostr_mesh.Relay.Settings.{FeeSchedule, Settings}

pub record User : Type 0 where
  pub is_admitted : Bool
  pub balance : ℕ

pub data Refusal : Type 0 where
  not_admitted insufficient_balance : Refusal

-- `list?.some(test)`.
abbrev pub some_in : {A : Type 0} → Option (List A) → (A → Bool) → Bool
some_in none test = false
some_in (some xs) test = any test xs

unfoldable pub is_applicable_fee : Event → FeeSchedule → Bool
is_applicable_fee event fee =
    fee.enabled
    && not (some_in fee.whitelisted_pubkeys (starts_with event.pubkey))
    && not (some_in fee.whitelisted_event_kinds (is_event_kind_or_range_match event))

-- Whether the balance of the user is looked at: `minBalance > 0n && user.balance < minBalance`.
abbrev pub is_poor : Option ℕ → ℕ → Bool
is_poor none balance = false
is_poor (some minimum) balance = ltb 0 minimum && ltb balance minimum

unfoldable pub check_user : Option ℕ → Option User → Option Refusal
check_user minimum none = some not_admitted
check_user minimum (some user) =
    if not user.is_admitted
    then some not_admitted
    else if is_poor minimum user.balance
    then some insufficient_balance
    else none

unfoldable pub is_user_admitted : Str → (Str → Option User) → Settings → Event → Option Refusal
is_user_admitted relay_pubkey find_user settings event =
    if not (settings.payments_enabled || settings.require_admission)
    then none
    else if relay_pubkey === event.pubkey
    then none
    else if settings.payments_enabled
        && not (some_in settings.admission_fees (is_applicable_fee event))
    then none
    else check_user settings.event_limits.min_balance (find_user event.pubkey)
