-- ===== src/Blossom/Config.antt =====
-- The configuration of blossom/src/server.ts: the file config.yml, if it is there, over the defaults,
-- and the environment variable BLOSSOM_PUBLIC_URL over both. js-yaml reads the file; a section or a
-- field that it lacks is `none`.
use nostr_mesh.Prelude.{ℕ, ◌*◌, Bool, true, Option, none, some, List, [], ◌∷◌}
use nostr_mesh.Prelude.Text.{Str, codes}
use nostr_mesh.Prelude.Text.{strip_slash}

pub record BlossomConfig : Type 0 where
  pub host : Str
  pub port : ℕ
  pub public_base_url : Str
  pub storage_path : Str
  pub max_upload_bytes : ℕ
  pub allowed_origins : List Str
  pub require_auth : Bool
  pub max_clock_skew_seconds : ℕ

abbrev pub default_config : BlossomConfig
default_config = record {
  host = codes "0.0.0.0";
  port = 3000;
  public_base_url = codes "http://localhost:3000";
  storage_path = codes "/data/blossom";
  max_upload_bytes = 100 * 1024 * 1024;
  allowed_origins = codes "http://localhost:3000" ∷ codes "http://localhost:4000" ∷ [];
  require_auth = true;
  max_clock_skew_seconds = 30;
}

pub record ServerSection : Type 0 where
  pub host : Option Str
  pub port : Option ℕ
  pub public_base_url : Option Str

pub record AuthSection : Type 0 where
  pub require_auth : Option Bool
  pub max_clock_skew_seconds : Option ℕ

-- `Partial<BlossomConfig>` as it is loaded.
pub record LoadedConfig : Type 0 where
  pub server : Option ServerSection
  pub storage_path : Option Str
  pub max_upload_bytes : Option ℕ
  pub allowed_origins : Option (List Str)
  pub auth : Option AuthSection

-- `section?.field`, `a ?? b`.
abbrev pub field_of {ℓ κ} : {A : Type ℓ} {B : Type κ} → Option A → (A → Option B) → Option B
field_of none f = none
field_of (some a) f = f a

abbrev pub coalesce {ℓ} : {A : Type ℓ} → Option A → A → A
coalesce none b = b
coalesce (some a) b = a

abbrev or_option {ℓ} : {A : Type ℓ} → Option A → Option A → Option A
or_option none b = b
or_option (some a) b = some a

abbrev map_option : (Str → Str) → Option Str → Option Str
map_option f none = none
map_option f (some s) = some (f s)

unfoldable pub load_config : Option Str → Option LoadedConfig → BlossomConfig
load_config env_url none = record default_config {
  public_base_url = coalesce (map_option strip_slash env_url) default_config.public_base_url;
}
load_config env_url (some loaded) =
    let d = default_config in
    record {
      host = coalesce (field_of loaded.server (λ s. s.host)) d.host;
      port = coalesce (field_of loaded.server (λ s. s.port)) d.port;
      public_base_url =
          coalesce
            (or_option (map_option strip_slash env_url)
              (field_of loaded.server (λ s. s.public_base_url)))
            d.public_base_url;
      storage_path = coalesce loaded.storage_path d.storage_path;
      max_upload_bytes = coalesce loaded.max_upload_bytes d.max_upload_bytes;
      allowed_origins = coalesce loaded.allowed_origins d.allowed_origins;
      require_auth = coalesce (field_of loaded.auth (λ a. a.require_auth)) d.require_auth;
      max_clock_skew_seconds =
          coalesce (field_of loaded.auth (λ a. a.max_clock_skew_seconds)) d.max_clock_skew_seconds;
    }
