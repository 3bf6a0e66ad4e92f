-- ===== src/Relay/Runes/Passing.antt =====
-- When a rune holds, nostream-share/src/utils/runes.
use nostr_mesh.Prelude.{
  ◌≡◌, refl, ◌↔◌, ◌⊎◌, inl, inr, true, Option, none, some, List, [], ◌∷◌, ◌++◌, All,
}
use nostr_mesh.Prelude.Text.{Str}
use nostr_mesh.Prelude.Result.{Result, ok, err, ◌>>=◌}
use nostr_mesh.Relay.Runes.Alternative.{RuneError, Alternative}
use nostr_mesh.Relay.Runes.Rune.{Restriction, RuneLike}
use nostr_mesh.Relay.Runes.Check.{
  Value, test, or_next, test_alternatives, test_restriction, refused, test_restrictions, test_rune,
}

module _ (values : Str → Option Value) where
  -- Some alternative holds, and those before it give a reason.
  pub Passes : List Alternative → Type 0
  Passes [] = ⊥
  Passes (a ∷ as') =
      (test values a ≡ ok none) ⊎ ((reason : Str) × (test values a ≡ ok (some reason)) × Passes as')

  or_next_sound :
      (reasons : List Str) (a : Alternative) (as' : List Alternative)
      → (tested : Result RuneError (Option Str)) → test values a ≡ tested
      → ((more : List Str) → test_alternatives values more as' ≡ ok none → Passes as')
      → (tested >>= λ reason. or_next reasons reason (λ more. test_alternatives values more as'))
        ≡ ok none
      → Passes (a ∷ as')
  unfolding Passes
  or_next_sound reasons a as' (err e) same rest h = cc
  or_next_sound reasons a as' (ok none) same rest h = inl same
  or_next_sound reasons a as' (ok (some reason)) same rest h =
      inr (reason, same, rest (reasons ++ (reason ∷ [])) h)

  test_alternatives_sound :
      (reasons : List Str) (as' : List Alternative)
      → test_alternatives values reasons as' ≡ ok none
      → Passes as'
  unfolding test_alternatives
  test_alternatives_sound reasons [] h = cc
  test_alternatives_sound reasons (a ∷ as') h =
      or_next_sound reasons a as' (test values a) refl (λ more. test_alternatives_sound more as') h

  test_alternatives_complete :
      (reasons : List Str) (as' : List Alternative)
      → Passes as'
      → test_alternatives values reasons as' ≡ ok none
  unfolding test_alternatives Passes
  test_alternatives_complete reasons [] h = elim h [ ]
  test_alternatives_complete reasons (a ∷ as') (inl holds) = rw holds refl
  test_alternatives_complete reasons (a ∷ as') (inr (reason, fails, rest)) =
      rw fails (test_alternatives_complete (reasons ++ (reason ∷ [])) as' rest)

  refused_sound :
      (rs : List Restriction) (r : Restriction) (tested : Result RuneError (Option Str))
      → test_restriction values r ≡ tested
      → (test_restrictions values rs ≡ ok (true, []) → All (λ q. Passes q.alternatives) rs)
      → (tested >>= λ reasons. refused reasons (test_restrictions values rs)) ≡ ok (true, [])
      → All (λ q. Passes q.alternatives) (r ∷ rs)
  unfolding test_restriction
  refused_sound rs r (err e) same rest h = cc
  refused_sound rs r (ok none) same rest h =
      (test_alternatives_sound [] r.alternatives same, rest h)
  refused_sound rs r (ok (some reasons)) same rest h = cc

  test_restrictions_sound :
      (rs : List Restriction)
      → test_restrictions values rs ≡ ok (true, [])
      → All (λ q. Passes q.alternatives) rs
  unfolding test_restrictions
  test_restrictions_sound [] h = tt
  test_restrictions_sound (r ∷ rs) h =
      refused_sound rs r (test_restriction values r) refl (test_restrictions_sound rs) h

  test_restrictions_complete :
      (rs : List Restriction)
      → All (λ q. Passes q.alternatives) rs
      → test_restrictions values rs ≡ ok (true, [])
  unfolding test_restrictions test_restriction
  test_restrictions_complete [] h = refl
  test_restrictions_complete (r ∷ rs) (here, there) =
      rw (test_alternatives_complete [] r.alternatives here, test_restrictions_complete rs there)
        refl

  -- A rune holds for values, with the empty reason, exactly if each of its restrictions has an
  -- alternative that holds, with no alternative before it that throws.
  pub test_rune_iff :
      (rune : RuneLike)
      → (test_rune values rune ≡ ok (true, [])) ↔ All (λ q. Passes q.alternatives) rune.restrictions
  unfolding test_rune
  test_rune_iff rune =
      (test_restrictions_sound rune.restrictions, test_restrictions_complete rune.restrictions)
