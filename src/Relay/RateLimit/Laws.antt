-- ===== src/Relay/RateLimit/Laws.antt =====
-- What the sliding window counts.
use nostr_mesh.Prelude.{ℕ, ◌+◌, ◌<◌, ◌≡◌, ◌∙◌, ◌≢◌, ◌↔◌, true, if◌then◌else◌, ltb→lt, lt→ltb}
use nostr_mesh.Prelude.Text.{Str}
use nostr_mesh.Relay.RateLimit.{total, has_member, in_window, SortedSets, hit}

module _ (redis : SortedSets) where
  open redis use {Cache, members}

  -- A hit is refused exactly if the hits of the window, this one with them, are more than the rate;
  -- this one counts unless one of the same step was counted in the same millisecond.
  pub hit_iff :
      (now step period rate : ℕ) (key : Str) (cache : Cache)
      → let window = in_window now period (members key cache) in
        ((hit redis now key step period rate cache).0 ≡ true)
        ↔ (rate < (if has_member now step window then total window else step + total window))
  unfolding hit
  hit_iff now step period rate key cache =
      rw (redis.total-add, redis.members-remove) (ltb→lt rate _, lt→ltb rate _)

  -- A hit of one key leaves what is counted under another key.
  pub hit_other :
      (now step period rate : ℕ) (key other : Str) (cache : Cache)
      → key ≢ other
      → members other (hit redis now key step period rate cache).1 ≡ members other cache
  unfolding hit
  hit_other now step period rate key other cache apart =
      redis.members-add_other key other now step _ apart
      ∙ redis.members-remove_other key other now period cache apart
