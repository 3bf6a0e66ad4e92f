-- ===== src/Api/Config.antt =====
-- api/src/config.ts: the relay addresses and the secret key. The process environment is an argument,
-- and the file .env a text or none; `randomBytes` is an argument.
pub mod Laws
use nostr_mesh.Prelude.Number.{ℤ, parse_int}
use nostr_mesh.Prelude.{
  ℕ, zero, suc, ◌+◌, ◌-◌, ◌*◌, ◌/◌, ◌%◌, ◌^◌, ◌≤◌, ◌<◌, ◌≡◌, refl, sym, ap, subst, ◌∙◌, ◌≢◌, ◌↔◌,
  ◌⊎◌, inl, inr, Bool, true, false, not, ◌&&◌, ◌||◌, Option, none, some, List, [], ◌∷◌, ◌++◌, map,
  arith, ltb, leb, ◌==◌, if◌then◌else◌, ltb→lt, lt→ltb, leb→le, le_of_not_ltb, eq_of_not_ne,
  ==_refl, lt_of_le, ==_iff, &&_parts, Bool-cases, Option-cases, length, get_elem?, take, drop,
  length-append, length-drop, take-append, drop-append, any, all, find, All,
}
use nostr_mesh.Prelude.Text.{
  Str, codes, ◌===◌, ===_iff, ===_refl, starts_with, includes, is_space, trim, to_lower_case,
  is_hex, is_hash, is_hex_lower, is_hash_lower, is_hash_parts, is_hash_lower_parts,
}
use nostr_mesh.Prelude.Bytes.{
  Bytes, IsByte, hex_value, hex_digit, from_hex, to_hex, from_hex-to_hex, from_hex-IsByte,
  length-to_hex, to_hex-is_hash_lower, is_hash_of_lower,
}
use nostr_mesh.Prelude.Text.{strip_slash}
use mathlib.Core.List.{filter}

-- `split(",")`: the part before the first comma, and the rest.
unfoldable pub split_from : Str → Str → List Str
split_from current [] = current ∷ []
split_from current (c ∷ cs) =
    let closed = current ∷ split_from [] cs in
    let longer = split_from (current ++ c ∷ []) cs in
    elim (c == b',') [ true ↦ closed | false ↦ longer ]

-- `map(trim)` and `filter(Boolean)`.
unfoldable pub trim_and_keep : List Str → List Str
unfolding trim ◌===◌
trim_and_keep [] = []
trim_and_keep (v ∷ vs) =
    let kept = trim_and_keep vs in if trim v === [] then kept else trim v ∷ kept

unfoldable pub default_relays : List Str
default_relays = codes "ws://localhost:8008" ∷ []

unfoldable pub split_relay_urls : Option Str → List Str
unfolding split_from trim_and_keep default_relays
split_relay_urls none = default_relays
split_relay_urls (some input) =
    if trim input === [] then default_relays else trim_and_keep (split_from [] input)

-- Whether a line of the text begins with the pattern (`/^…/m`).
unfoldable pub some_line_starts : Str → Bool → Str → Bool
unfolding starts_with
some_line_starts pattern at_start [] = at_start && starts_with [] pattern
some_line_starts pattern at_start (c ∷ cs) =
    (at_start && starts_with (c ∷ cs) pattern)
    || some_line_starts pattern (c == 10 || c == 13 || c == 0x2028 || c == 0x2029) cs

abbrev pub env_name : Str
env_name = codes "NOSTR_SECRET_KEY="

abbrev pub newline : Str
newline = 10 ∷ []

-- The file after the call; `none` is a file that is not there.
unfoldable pub persist_secret : Str → Option Str → Option Str
unfolding some_line_starts
persist_secret secret none = some (env_name ++ (secret ++ newline))
persist_secret secret (some existing) =
    if some_line_starts env_name true existing
    then some existing
    else some (existing ++ (newline ++ (env_name ++ (secret ++ newline))))

-- `process.env.NOSTR_SECRET_KEY?.trim()`, accepted where it is 64 hexadecimal digits.
abbrev accepted : Option Str → Option Str
accepted none = none
accepted (some value) = if is_hash (trim value) then some (to_lower_case (trim value)) else none

abbrev use_or_create : Option Str → Bytes → Option Str → Str × Option Str
use_or_create (some secret) random env_file = (secret, env_file)
use_or_create none random env_file = (to_hex random, persist_secret (to_hex random) env_file)

-- The secret, and the file .env afterwards.
unfoldable pub get_or_create_secret_key : Option Str → Bytes → Option Str → Str × Option Str
get_or_create_secret_key current random env_file = use_or_create (accepted current) random env_file

abbrev pub first_of_env : Option Str → Option Str → Option Str
first_of_env none b = b
first_of_env (some a) b = some a

abbrev pub or_default : Option Str → Str → Str
or_default none d = d
or_default (some a) d = a

pub record Environment : Type 0 where
  pub api_port : Option Str
  pub relay_urls : Option Str
  pub relay_url : Option Str
  pub blossom_url : Option Str
  pub blossom_public_url : Option Str
  pub nostr_secret_key : Option Str

-- A port that is no number is NaN, `none`.
pub record ApiConfig : Type 0 where
  pub port : Option ℤ
  pub relay_urls : List Str
  pub blossom_url : Str
  pub blossom_public_url : Str
  pub nostr_secret_key : Str

unfoldable pub load_config : Environment → Bytes → Option Str → ApiConfig
load_config env random env_file =
    let blossom = strip_slash (or_default env.blossom_url (codes "http://localhost:3000")) in
    record {
      port = parse_int (or_default env.api_port (codes "4000"));
      relay_urls = split_relay_urls (first_of_env env.relay_urls env.relay_url);
      blossom_url = blossom;
      blossom_public_url = strip_slash (or_default env.blossom_public_url blossom);
      nostr_secret_key = (get_or_create_secret_key env.nostr_secret_key random env_file).0;
    }
