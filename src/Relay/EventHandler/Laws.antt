-- ===== src/Relay/EventHandler/Laws.antt =====
-- No event is stored or broadcast that did not pass every check.
use nostr_mesh.Prelude.{
  ◌≡◌, refl, ◌⊎◌, inl, inr, true, false, Option, none, some, Bool-cases, Option-cases,
}
use nostr_mesh.Nostr.{Event}
use nostr_mesh.Relay.Expiration.{is_expired_event}
use nostr_mesh.Relay.Accept.{Reason, can_accept_event}
use nostr_mesh.Relay.Admission.{Refusal, is_user_admitted}
use nostr_mesh.Relay.Repository.{Table}
use nostr_mesh.Relay.Strategies.{Verdict}
use nostr_mesh.Relay.EventHandler.{
  Context, Times, reject, is_rate_limited, late_verdict, limit_verdict, user_verdict, verdict,
  handle_event,
}

limit_none :
    (reason : Option Reason) (refusal : Option Refusal)
    → limit_verdict reason (user_verdict refusal) ≡ none
    → (reason ≡ none) × (refusal ≡ none)
limit_none none none h = (refl, refl)
limit_none none (some refusal) h = cc
limit_none (some reason) refusal h = cc

module _ (c : Context) where
  open c use {redis}
  open redis use {Cache}

  -- The event passed every check.
  pub record Passed (times : Times) (event : Event) (cache : Cache) : Type 0 where
    pub id : c.id_valid event ≡ true
    pub signature : c.signature_valid event ≡ true
    pub not_expired : is_expired_event c.to_number event times.expiration ≡ false
    pub not_limited : (is_rate_limited c times.hits event cache).0 ≡ false
    pub acceptable :
        can_accept_event c.relay_pubkey times.limits c.settings.event_limits event ≡ none
    pub admitted : is_user_admitted c.relay_pubkey c.find_user c.settings event ≡ none

  verdict-Passed :
      (times : Times) (event : Event) (cache : Cache)
      → (verdict c times event cache).0 ≡ none
      → Passed times event cache
  unfolding verdict late_verdict
  verdict-Passed times event cache = elim (Bool-cases (c.id_valid event)) [
    | inr id ↦ simp id (λ h. cc h)
    | inl id ↦ elim (Bool-cases (c.signature_valid event)) [
      | inr signature ↦ simp (id, signature) (λ h. cc h)
      | inl signature ↦ elim (Bool-cases (is_expired_event c.to_number event times.expiration)) [
        | inl expired ↦ simp (id, signature, expired) (λ h. cc h)
        | inr fresh ↦ elim (Bool-cases (is_rate_limited c times.hits event cache).0) [
          | inl limited ↦ simp (id, signature, fresh, limited) (λ h. cc h)
          | inr free ↦
              simp (id, signature, fresh, free)
                (λ h.
                  let (acceptable, admitted) = limit_none _ _ h in
                  record {
                    id = id;
                    signature = signature;
                    not_expired = fresh;
                    not_limited = free;
                    acceptable = acceptable;
                    admitted = admitted;
                  })
        ]
      ]
    ]
  ]

  -- An event either passes every check (the identifier, the signature, the expiration, the rate
  -- limits, the limits on events and the admission of its author), or it is answered by one command
  -- result that says no, broadcast to nobody, and leaves the table as it was.
  pub handle_event_guarded :
      (times : Times) (event : Event) (table : Table) (cache : Cache)
      → Passed times event cache
        ⊎ ((v : Verdict) × ((handle_event c times event table cache).0 ≡ reject event v)
            × ((handle_event c times event table cache).1 ≡ table))
  unfolding handle_event
  handle_event_guarded times event table cache =
      elim (Option-cases (verdict c times event cache).0) [
        | inl passed ↦ inl (verdict-Passed times event cache passed)
        | inr (v, failed) ↦ inr (v, rw failed refl, rw failed refl)
      ]
