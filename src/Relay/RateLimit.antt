-- ===== src/Relay/RateLimit.antt =====
-- nostream-share/src/utils/sliding-window-rate-limiter.ts over the sorted sets of Redis, a parameter:
-- a member `timestamp:step` is the pair of the two numbers, and its score is the timestamp. The expiry
-- of a key, which only drops sets whose members have all left the window, is not modelled.
pub mod Laws
use nostr_mesh.Prelude.Number.{decimal}
use nostr_mesh.Prelude.{
  ℕ, zero, suc, ◌+◌, ◌-◌, ◌*◌, ◌/◌, ◌%◌, ◌^◌, ◌≤◌, ◌<◌, ◌≡◌, refl, sym, ap, subst, ◌∙◌, ◌≢◌, ◌↔◌,
  ◌⊎◌, inl, inr, Bool, true, false, not, ◌&&◌, ◌||◌, Option, none, some, List, [], ◌∷◌, ◌++◌, map,
  arith, ltb, leb, ◌==◌, if◌then◌else◌, ltb→lt, lt→ltb, leb→le, le_of_not_ltb, eq_of_not_ne,
  ==_refl, lt_of_le, ==_iff, &&_parts, Bool-cases, Option-cases, length, get_elem?, take, drop,
  length-append, length-drop, take-append, drop-append, any, all, find, All,
}
use nostr_mesh.Prelude.Text.{
  Str, codes, ◌===◌, ===_iff, ===_refl, starts_with, includes, is_space, trim, to_lower_case,
  is_hex, is_hash, is_hex_lower, is_hash_lower, is_hash_parts, is_hash_lower_parts,
}

abbrev pub Member : Type 0
Member = ℕ × ℕ

-- The sum of the steps.
unfoldable pub total : List Member → ℕ
total [] = 0
total ((timestamp, step) ∷ members) = step + total members

unfoldable pub has_member : ℕ → ℕ → List Member → Bool
has_member timestamp step [] = false
has_member timestamp step ((t, s) ∷ members) =
    (t == timestamp && s == step) || has_member timestamp step members

-- The members with a score above `now - period`.
unfoldable pub in_window : ℕ → ℕ → List Member → List Member
in_window now period [] = []
in_window now period ((t, s) ∷ members) =
    let rest = in_window now period members in if leb (t + period) now then rest else (t, s) ∷ rest

-- Redis. `remove_older key now period` removes the members with a score of 0 to `now - period`; adding
-- a member that is there changes nothing; each command leaves other keys alone.
pub record SortedSets : Type 1 where
  pub Cache : Type 0
  pub members : Str → Cache → List Member
  pub remove_older : Str → ℕ → ℕ → Cache → Cache
  pub add : Str → ℕ → ℕ → Cache → Cache
  pub members-remove :
      (key : Str) (now period : ℕ) (c : Cache)
      → members key (remove_older key now period c) ≡ in_window now period (members key c)
  pub total-add :
      (key : Str) (timestamp step : ℕ) (c : Cache)
      → total (members key (add key timestamp step c)) ≡ (
          if has_member timestamp step (members key c)
          then total (members key c)
          else step + total (members key c))
  pub members-remove_other :
      (key other : Str) (now period : ℕ) (c : Cache)
      → key ≢ other
      → members other (remove_older key now period c) ≡ members other c
  pub members-add_other :
      (key other : Str) (timestamp step : ℕ) (c : Cache)
      → key ≢ other
      → members other (add key timestamp step c) ≡ members other c

-- A limit on how often an address may ask for something, by the settings.
pub record RateLimit : Type 0 where
  pub period : ℕ
  pub rate : ℕ

module _ (redis : SortedSets) where
  open redis use {Cache, members, remove_older, add}

  -- `hit`: the commands run in the order in which they are sent.
  unfoldable pub hit : ℕ → Str → ℕ → ℕ → ℕ → Cache → Bool × Cache
  hit now key step period rate cache =
      let after = add key now step (remove_older key now period cache) in
      (ltb rate (total (members key after)), after)

  -- The loop over the rate limits of one page, which the web socket and the controllers share; the count of the hits so far is the place of the next in the times.
  unfoldable pub hit_each : (ℕ → ℕ) → ℕ → Str → Str → List RateLimit → Bool → Cache → Bool × Cache
  hit_each times n address page [] limited cache = (limited, cache)
  hit_each times n address page (limit ∷ limits) limited cache =
      let key = address ++ (codes ":" ++ (page ++ (codes ":" ++ decimal limit.period))) in
      let (over, after) = hit (times n) key 1 limit.period limit.rate cache in
      hit_each times (n + 1) address page limits (limited || over) after
