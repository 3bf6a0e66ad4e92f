-- ===== src/Relay/Accept/Laws.antt =====
-- When the relay accepts an event.
use nostr_mesh.Prelude.{
  ℕ, ◌+◌, ◌≤◌, ◌<◌, ◌≡◌, refl, ◌≢◌, ◌↔◌, inl, inr, Bool, true, false, ◌&&◌, Option, none, some,
  List, [], ◌∷◌, arith, ltb, ltb→lt, lt→ltb, le_of_not_ltb, lt_of_le, Bool-cases, length, All,
}
use nostr_mesh.Prelude.Text.{Str, ◌===◌, ===_iff, starts_with}
use nostr_mesh.Nostr.{Event}
use nostr_mesh.Relay.Kinds.{is_event_kind_or_range_match}
use nostr_mesh.Relay.ProofOfWork.{get_event_proof_of_work, get_pubkey_proof_of_work}
use nostr_mesh.Relay.Settings.{ContentLimits, ContentSetting, unset, single, several, EventLimits}
use nostr_mesh.Relay.Accept.{
  Reason, reason_if, ◌<|>◌, exceeds, applies, content_reason, content_reasons, content_check,
  outside, inside, can_accept_event, content_too_long,
}

-- A limit that is set and is not 0 holds.
abbrev pub Limited : Option ℕ → (ℕ → Type 0) → Type 0
Limited none P = Unit
Limited (some limit) P = 0 < limit → P limit

abbrev pub FitsContent : Event → ContentLimits → Type 0
FitsContent event limit =
    Limited limit.max_length (λ n. applies event limit.kinds ≡ true → length event.content ≤ n)

abbrev pub ContentFits : Event → ContentSetting → Type 0
ContentFits event unset = Unit
ContentFits event (single limit) = FitsContent event limit
ContentFits event (several limits) = All (FitsContent event) limits

-- The event keeps within all limits.
pub record Acceptable (now : ℕ) (limits : EventLimits) (event : Event) : Type 0 where
  pub content : ContentFits event limits.content
  pub not_future : Limited limits.max_positive_delta (λ d. event.created_at ≤ now + d)
  pub not_past : Limited limits.max_negative_delta (λ d. now ≤ event.created_at + d)
  pub id_work : Limited limits.event_id_min_zero_bits (λ b. b ≤ get_event_proof_of_work event.id)
  pub pubkey_work :
      Limited limits.pubkey_min_zero_bits (λ b. b ≤ get_pubkey_proof_of_work event.pubkey)
  pub pubkey_listed : outside limits.pubkey_whitelist (starts_with event.pubkey) ≡ false
  pub pubkey_unlisted : inside limits.pubkey_blacklist (starts_with event.pubkey) ≡ false
  pub kind_listed : outside limits.kind_whitelist (is_event_kind_or_range_match event) ≡ false
  pub kind_unlisted : inside limits.kind_blacklist (is_event_kind_or_range_match event) ≡ false

<|>_none : (a b : Option Reason) → (a <|> b) ≡ none → (a ≡ none) × (b ≡ none)
<|>_none none b h = (refl, h)
<|>_none (some r) b h = cc

reason_if-none : (b : Bool) (r : Reason) → reason_if b r ≡ none → b ≡ false
reason_if-none true r h = cc
reason_if-none false r h = refl

exceeds_iff :
    (o : Option ℕ) (test : ℕ → Bool) (reason : ℕ → Reason) (P : ℕ → Type 0)
    → ((n : ℕ) → (test n ≡ false) ↔ P n)
    → (exceeds o test reason ≡ none) ↔ Limited o P
exceeds_iff none test reason P f = (λ h. tt, λ h. refl)
exceeds_iff (some limit) test reason P f = (
  (λ h positive.
      let off = reason_if-none (ltb 0 limit && test limit) (reason limit) h in
      (f limit).0 (rw (lt→ltb 0 limit positive) at off)),
  (λ h. elim (Bool-cases (ltb 0 limit)) [
    | inl positive ↦ rw (positive, (f limit).1 (h (ltb→lt 0 limit positive)))
    | inr zero' ↦ rw zero'
  ]),
)

at_most : (a b : ℕ) → (ltb a b ≡ false) ↔ (b ≤ a)
at_most a b = (le_of_not_ltb a b, lt_of_le b a)

and_true-false : (a b : Bool) → b ≡ true → (a && b) ≡ false → a ≡ false
and_true-false a b h k = ground arith

and_false : (a b : Bool) → (b ≡ true → a ≡ false) → (a && b) ≡ false
and_false a true f = rw (f refl)
and_false true false f = refl
and_false false false f = refl

content_reason_iff :
    (event : Event) (limit : ContentLimits)
    → (content_reason event limit ≡ none) ↔ FitsContent event limit
unfolding content_reason
content_reason_iff event limit = exceeds_iff limit.max_length _ content_too_long _ λ n. (
  (λ h applied. le_of_not_ltb n (length event.content) (and_true-false _ _ applied h)),
  (λ f. and_false _ _ λ applied. lt_of_le _ _ (f applied)),
)

content_reasons_iff :
    (event : Event) (limits : List ContentLimits)
    → (content_reasons event limits ≡ none) ↔ All (FitsContent event) limits
unfolding content_reasons
content_reasons_iff event [] = (λ h. tt, λ h. refl)
content_reasons_iff event (limit ∷ limits) =
    let (to, from) = content_reason_iff event limit in
    let (to', from') = content_reasons_iff event limits in
    (
      (λ h. let (a, b) = <|>_none (content_reason event limit) _ h in (to a, to' b)),
      (λ (a, b). rw (from a) (from' b)),
    )

content_check_iff :
    (event : Event) (setting : ContentSetting)
    → (content_check event setting ≡ none) ↔ ContentFits event setting
content_check_iff event unset = (λ h. tt, λ h. refl)
content_check_iff event (single limit) = content_reason_iff event limit
content_check_iff event (several limits) = content_reasons_iff event limits

listed_iff : (b : Bool) (r : Reason) → (reason_if b r ≡ none) ↔ (b ≡ false)
listed_iff b r = (reason_if-none b r, λ h. rw h)

both_none :
    {P Q : Type 0} (a b : Option Reason)
    → (a ≡ none) ↔ P
    → (b ≡ none) ↔ Q
    → ((a <|> b) ≡ none) ↔ (P × Q)
both_none a b (to, from) (to', from') =
    ((λ h. let (x, y) = <|>_none a b h in (to x, to' y)), (λ (p, q). rw (from p) (from' q)))

module _ (relay_pubkey : Str) (now : ℕ) (limits : EventLimits) (event : Event) where
  checks_iff :
      relay_pubkey ≢ event.pubkey
      → (can_accept_event relay_pubkey now limits event ≡ none) ↔ (
          ContentFits event limits.content
          × (Limited limits.max_positive_delta (λ d. event.created_at ≤ now + d)
              × (Limited limits.max_negative_delta (λ d. now ≤ event.created_at + d)
                  × (Limited limits.event_id_min_zero_bits
                        (λ b. b ≤ get_event_proof_of_work event.id)
                      × (Limited limits.pubkey_min_zero_bits
                            (λ b. b ≤ get_pubkey_proof_of_work event.pubkey)
                          × ((outside limits.pubkey_whitelist (starts_with event.pubkey) ≡ false)
                              × ((inside limits.pubkey_blacklist (starts_with event.pubkey) ≡ false)
                                  × ((outside limits.kind_whitelist
                                          (is_event_kind_or_range_match event)
                                        ≡ false)
                                      × (inside limits.kind_blacklist
                                            (is_event_kind_or_range_match event)
                                          ≡ false)))))))))
  unfolding can_accept_event
  checks_iff other =
      let foreign : (relay_pubkey === event.pubkey) ≡ false =
        ground (arith, ===_iff relay_pubkey event.pubkey) in
      rw foreign (
        both_none _ _ (content_check_iff event limits.content) (
          both_none _ _ (exceeds_iff _ _ _ _ λ d. at_most (now + d) event.created_at) (
            both_none _ _ (exceeds_iff _ _ _ _ λ d. at_most (event.created_at + d) now) (
              both_none _ _ (exceeds_iff _ _ _ _ λ b. at_most (get_event_proof_of_work event.id) b)
                (both_none _ _
                  (exceeds_iff _ _ _ _ λ b. at_most (get_pubkey_proof_of_work event.pubkey) b)
                  (both_none _ _ (listed_iff _ _) (
                    both_none _ _ (listed_iff _ _)
                      (both_none _ _ (listed_iff _ _) (listed_iff _ _)))))))))

  -- An event of another author than the relay is accepted exactly if it keeps within all limits.
  pub can_accept_event_iff :
      relay_pubkey ≢ event.pubkey
      → (can_accept_event relay_pubkey now limits event ≡ none) ↔ Acceptable now limits event
  can_accept_event_iff other =
      let (to, from) = checks_iff other in
      (
        (λ h.
            let (content, (future, (past, (id, (key, (white, (black, (kinds, banned)))))))) =
              to h in
            record {
              content = content;
              not_future = future;
              not_past = past;
              id_work = id;
              pubkey_work = key;
              pubkey_listed = white;
              pubkey_unlisted = black;
              kind_listed = kinds;
              kind_unlisted = banned;
            }),
        (λ a. from (
          a.content,
          (
            a.not_future,
            (
              a.not_past,
              (
                a.id_work,
                (
                  a.pubkey_work,
                  (a.pubkey_listed, (a.pubkey_unlisted, (a.kind_listed, a.kind_unlisted))),
                ),
              ),
            ),
          ),
        )),
      )
