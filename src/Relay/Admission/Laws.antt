-- ===== src/Relay/Admission/Laws.antt =====
-- Who is admitted.
use nostr_mesh.Prelude.{
  ℕ, ◌≡◌, refl, sym, ap, subst, ◌≢◌, ◌↔◌, Bool, true, false, not, ◌&&◌, ◌||◌, Option, none, some,
  arith,
}
use nostr_mesh.Prelude.Text.{Str, ◌===◌, ===_iff}
use nostr_mesh.Nostr.{Event}
use nostr_mesh.Relay.Settings.{Settings}
use nostr_mesh.Relay.Admission.{
  User, some_in, is_applicable_fee, is_poor, check_user, is_user_admitted,
}

-- The user is known, admitted, and has the balance that is asked.
abbrev pub InGoodStanding : Option ℕ → Option User → Type 0
InGoodStanding minimum user =
    (u : User) × (user ≡ some u) × (u.is_admitted ≡ true) × (is_poor minimum u.balance ≡ false)

check_user_iff :
    (minimum : Option ℕ) (user : Option User)
    → (check_user minimum user ≡ none) ↔ InGoodStanding minimum user
unfolding check_user
check_user_iff minimum none = (λ h. cc, λ h. cc h.1)
check_user_iff minimum (some u) = (
  (λ h. (u, refl, ground arith, ground arith)),
  (λ (v, e, admitted, rich).
      let same : u ≡ v = cc in
      let admitted' = subst (λ (w : User). w.is_admitted ≡ true) (sym same) admitted in
      let rich' = subst (λ (w : User). is_poor minimum w.balance ≡ false) (sym same) rich in
      ground arith),
)

and_not : (a b : Bool) → (a ≡ true → b ≡ true) → (a && not b) ≡ false
and_not true b same = ap not (same refl)
and_not false b same = refl

-- Where admission is asked of the author (a fee applies, if the relay takes payments), an author who
-- is not the relay is admitted exactly in good standing.
pub is_user_admitted_iff :
    (relay_pubkey : Str) (find_user : Str → Option User) (settings : Settings) (event : Event)
    → (settings.payments_enabled || settings.require_admission) ≡ true
    → relay_pubkey ≢ event.pubkey
    → (settings.payments_enabled ≡ true
        → some_in settings.admission_fees (is_applicable_fee event) ≡ true)
    → (is_user_admitted relay_pubkey find_user settings event ≡ none)
      ↔ InGoodStanding settings.event_limits.min_balance (find_user event.pubkey)
unfolding is_user_admitted
is_user_admitted_iff relay_pubkey find_user settings event asked other fee =
    let foreign : (relay_pubkey === event.pubkey) ≡ false =
      ground (arith, ===_iff relay_pubkey event.pubkey) in
    let charged : (settings.payments_enabled
          && not (some_in settings.admission_fees (is_applicable_fee event)))
        ≡ false =
      and_not _ _ fee in
    simp (asked, foreign, charged)
      (check_user_iff settings.event_limits.min_balance (find_user event.pubkey))
