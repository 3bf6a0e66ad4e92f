-- ===== src/Relay/Mirror/Laws.antt =====
-- The checks of nostream-share/src/app/static-mirroring-worker.ts before those of
-- nostream-share/src/handlers/event-message-handler.ts.
use nostr_mesh.Prelude.{
  ℕ, ◌≡◌, refl, sym, ap, ◌∙◌, Bool, true, false, not, ◌&&◌, ◌||◌, Option, none, some, List, [], ◌∷◌,
  arith, ltb, ◌==◌, if◌then◌else◌, any,
}
use nostr_mesh.Prelude.Text.{Str, ◌===◌}
use nostr_mesh.Nostr.{Event}
use nostr_mesh.Relay.Settings.{
  ContentLimits, ContentSetting, unset, single, several, EventLimits, Settings,
}
use nostr_mesh.Relay.Accept
use nostr_mesh.Relay.Accept.{
  Reason, reason_if, ◌<|>◌, exceeds, content_reason, content_reasons, content_check, outside,
  inside,
}
use nostr_mesh.Relay.Admission
use nostr_mesh.Relay.Admission.{User, Refusal, some_in, is_poor, check_user}
use nostr_mesh.Relay.Mirror.{
  breaks, is_too_long, breaks_content, is_filled, can_accept_event, is_applicable_fee, lacks,
  admits, is_user_admitted,
}

-- `reason === undefined`.
abbrev pub is_none : {A : Type 0} → Option A → Bool
is_none none = true
is_none (some _) = false

is_none-reason_if : (b : Bool) (r : Reason) → is_none (reason_if b r) ≡ not b
is_none-reason_if true r = refl
is_none-reason_if false r = refl

is_none-exceeds :
    (limit : Option ℕ) (test : ℕ → Bool) (r : ℕ → Reason)
    → is_none (exceeds limit test r) ≡ not (breaks limit test)
is_none-exceeds none test r = refl
is_none-exceeds (some n) test r = is_none-reason_if (ltb 0 n && test n) (r n)

outside_filled :
    {A : Type 0} (list : Option (List A)) (test : A → Bool)
    → outside list test ≡ (is_filled list && not (some_in list test))
outside_filled none test = refl
outside_filled (some []) test = refl
outside_filled (some (x ∷ xs)) test = refl

inside_filled :
    {A : Type 0} (list : Option (List A)) (test : A → Bool)
    → inside list test ≡ (is_filled list && some_in list test)
inside_filled none test = refl
inside_filled (some []) test = refl
inside_filled (some (x ∷ xs)) test = refl

-- One early return of the worker before one of the handler, and the last one.
chained :
    (b : Bool) (reason later : Option Reason) (rest : Bool)
    → is_none reason ≡ not b
    → rest ≡ is_none later
    → (if b then false else rest) ≡ is_none (reason <|> later)
chained true none later rest h k = cc h
chained true (some r) later rest h k = refl
chained false none later rest h k = k
chained false (some r) later rest h k = cc h

last_one :
    (b : Bool) (reason : Option Reason)
    → is_none reason ≡ not b
    → (if b then false else true) ≡ is_none reason
last_one true reason h = sym h
last_one false reason h = sym h

first_reason :
    (b c : Bool) (reason later : Option Reason)
    → is_none reason ≡ not b
    → is_none later ≡ not c
    → is_none (reason <|> later) ≡ not (b || c)
first_reason true c none later h k = cc h
first_reason true c (some r) later h k = refl
first_reason false c none later h k = k
first_reason false c (some r) later h k = cc h

content_reasons_lem :
    (event : Event) (limits : List ContentLimits)
    → is_none (content_reasons event limits) ≡ not (any (is_too_long event) limits)
unfolding content_reasons content_reason is_too_long
content_reasons_lem event [] = refl
content_reasons_lem event (limit ∷ limits) =
    first_reason _ _ (content_reason event limit) _ (is_none-exceeds limit.max_length _ _)
      (content_reasons_lem event limits)

content_check_lem :
    (event : Event) (content : ContentSetting)
    → is_none (content_check event content) ≡ not (breaks_content event content)
unfolding content_reason is_too_long
content_check_lem event unset = refl
content_check_lem event (single limit) = is_none-exceeds limit.max_length _ _
content_check_lem event (several limits) = content_reasons_lem event limits

by_key :
    (b r : Bool) (o : Option Reason)
    → r ≡ is_none o
    → (if b then false else r) ≡ (not b && is_none (if b then none else o))
by_key true r o h = refl
by_key false r o h = h

-- The worker takes an event by its limits exactly if the relay would take it from a client under the
-- same limits, and it is not the relay's own.
pub can_accept_event_lem :
    (relay_pubkey : Str) (now : ℕ) (limits : EventLimits) (event : Event)
    → can_accept_event relay_pubkey now limits event ≡ (
        not (relay_pubkey === event.pubkey)
        && is_none (Accept.can_accept_event relay_pubkey now limits event))
unfolding can_accept_event Accept.can_accept_event
can_accept_event_lem relay_pubkey now limits event = by_key (relay_pubkey === event.pubkey) _ _ (
    chained _ (content_check event limits.content) _ _ (content_check_lem event limits.content) (
      chained _ _ _ _ (is_none-exceeds limits.max_positive_delta _ _) (
        chained _ _ _ _ (is_none-exceeds limits.max_negative_delta _ _) (
          chained _ _ _ _ (is_none-exceeds limits.event_id_min_zero_bits _ _) (
            chained _ _ _ _ (is_none-exceeds limits.pubkey_min_zero_bits _ _) (
              chained _ _ _ _
                (is_none-reason_if _ _ ∙ ap not (outside_filled limits.pubkey_whitelist _))
                (chained _ _ _ _
                  (is_none-reason_if _ _ ∙ ap not (inside_filled limits.pubkey_blacklist _))
                  (chained _ _ _ _
                    (is_none-reason_if _ _ ∙ ap not (outside_filled limits.kind_whitelist _))
                    (last_one _ _ (
                      is_none-reason_if _ _
                      ∙ ap not (inside_filled limits.kind_blacklist _)))))))))))

positive : (n : ℕ) → not (n == 0) ≡ ltb 0 n
positive n = ground arith

same_balance : (minimum : Option ℕ) (balance : ℕ) → lacks minimum balance ≡ is_poor minimum balance
same_balance none balance = refl
same_balance (some minimum) balance = ap (λ b. b && ltb balance minimum) (positive minimum)

standing :
    (is_admitted is_poor : Bool)
    → (if not is_admitted then false else not is_poor)
      ≡ is_none (
          if not is_admitted
          then some Admission.not_admitted
          else if is_poor
          then some Admission.insufficient_balance
          else none)
standing true true = refl
standing true false = refl
standing false is_poor = refl

admits_lem :
    (minimum : Option ℕ) (user : Option User)
    → admits minimum user ≡ is_none (check_user minimum user)
unfolding check_user
admits_lem minimum none = refl
admits_lem minimum (some user) =
    ap (λ b. if not user.is_admitted then false else not b) (same_balance minimum user.balance)
    ∙ standing user.is_admitted (is_poor minimum user.balance)

asked :
    (payments admission is_relay charged : Bool) (refusal : Option Refusal) (admitted : Bool)
    → admission ≡ false
    → is_relay ≡ false
    → admitted ≡ is_none refusal
    → (if not payments then true else if not charged then true else admitted)
      ≡ is_none (
          if not (payments || admission)
          then none
          else if is_relay
          then none
          else if payments && not charged
          then none
          else refusal)
asked payments true is_relay charged refusal admitted h k l = cc h
asked payments false true charged refusal admitted h k l = cc k
asked false false false charged refusal admitted h k l = refl
asked true false false true refusal admitted h k l = l
asked true false false false refusal admitted h k l = refl

-- Without `skipAdmissionCheck`, and in a relay that only asks for admission by fees, the worker admits
-- the author of an event, who is not the relay, exactly if the relay admits them as a client.
pub is_user_admitted_lem :
    (relay_pubkey : Str) (find_user : Str → Option User) (settings : Settings) (event : Event)
    → settings.require_admission ≡ false
    → (relay_pubkey === event.pubkey) ≡ false
    → is_user_admitted false find_user settings event
      ≡ is_none (Admission.is_user_admitted relay_pubkey find_user settings event)
unfolding is_user_admitted Admission.is_user_admitted is_applicable_fee Admission.is_applicable_fee
is_user_admitted_lem relay_pubkey find_user settings event by_fees other =
    asked settings.payments_enabled settings.require_admission (relay_pubkey === event.pubkey)
      (some_in settings.admission_fees (Admission.is_applicable_fee event)) _ _ by_fees other
      (admits_lem settings.event_limits.min_balance (find_user event.pubkey))
