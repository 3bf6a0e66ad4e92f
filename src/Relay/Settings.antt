-- ===== src/Relay/Settings.antt =====
-- The settings that the handlers of the relay read (nostream-share/src/@types/settings.ts). A limit
-- that is not set is `none`.
use nostr_mesh.Prelude.{ℕ, Bool, Option, List}
use nostr_mesh.Prelude.Text.{Str}
use nostr_mesh.Relay.Kinds.{KindOrRange}

pub record ContentLimits : Type 0 where
  pub max_length : Option ℕ
  pub kinds : Option (List KindOrRange)

-- `content?: ContentLimits | ContentLimits[]`.
pub data ContentSetting : Type 0 where
  unset : ContentSetting
  single : ContentLimits → ContentSetting
  several : List ContentLimits → ContentSetting

pub record EventRateLimit : Type 0 where
  pub period : ℕ
  pub rate : ℕ
  pub kinds : Option (List KindOrRange)

pub record EventLimits : Type 0 where
  pub content : ContentSetting
  pub max_positive_delta : Option ℕ
  pub max_negative_delta : Option ℕ
  pub event_id_min_zero_bits : Option ℕ
  pub pubkey_min_zero_bits : Option ℕ
  pub pubkey_whitelist : Option (List Str)
  pub pubkey_blacklist : Option (List Str)
  pub kind_whitelist : Option (List KindOrRange)
  pub kind_blacklist : Option (List KindOrRange)
  pub min_balance : Option ℕ
  pub rate_limits : List EventRateLimit
  pub whitelisted_pubkeys : Option (List Str)
  pub whitelisted_ip_addresses : Option (List Str)

pub record FeeSchedule : Type 0 where
  pub enabled : Bool
  pub amount : ℕ
  pub whitelisted_pubkeys : Option (List Str)
  pub whitelisted_event_kinds : Option (List KindOrRange)

pub record Settings : Type 0 where
  pub event_limits : EventLimits
  pub payments_enabled : Bool
  pub require_admission : Bool
  pub admission_fees : Option (List FeeSchedule)
  pub authentication_enabled : Bool
  pub max_subscriptions : Option ℕ
  pub max_filters : Option ℕ
  pub max_subscription_id_length : Option ℕ
