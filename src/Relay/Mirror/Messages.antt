-- ===== src/Relay/Mirror/Messages.antt =====
-- What a message of the mirrored relay changes: the handler of messages in
-- nostream-share/src/app/static-mirroring-worker.ts.
use nostr_mesh.Prelude.{
  ◌≡◌, refl, sym, ap, subst, ◌⊎◌, inl, inr, Bool, true, false, not, ◌||◌, if◌then◌else◌, Bool-cases,
  any,
}
use nostr_mesh.Prelude.Text.{Str, ◌===◌, ===_iff}
use nostr_mesh.Nostr.{Event}
use nostr_mesh.Relay.Filter.{is_event_matching_filter}
use nostr_mesh.Relay.Expiration.{is_expired_event}
use nostr_mesh.Relay.Repository.Laws.{IsUnique}
use nostr_mesh.Relay.Repository.Unique.{create-IsUnique}
use nostr_mesh.Relay.Mirror.{
  can_accept_event, is_user_admitted, Incoming, not_an_array, other_message, event_message, Mirror,
  Times, Context, takes, store, on_message,
}

module _ (c : Context) (subscription_id : Str) (times : Times) where
  -- What a message adds: nothing, or one row that all checks let through.
  data Taken (message : Incoming) (m m' : Mirror) : Type 0 where
    unchanged : m' ≡ m → Taken message m m'
    taken :
        (event : Event)
        → message ≡ event_message subscription_id event
        → takes c times event ≡ true
        → m' ≡ store c times event m
        → Taken message m m'

  on_message-Taken :
      (message : Incoming) (m : Mirror)
      → Taken message m (on_message c subscription_id times message m)
  unfolding on_message
  on_message-Taken not_an_array m = unchanged refl
  on_message-Taken other_message m = unchanged refl
  on_message-Taken (event_message id event) m = elim (Bool-cases (id === subscription_id)) [
    | inl mine ↦ elim (Bool-cases (takes c times event)) [
      | inl good ↦
          taken event (ap (λ i. event_message i event) ((===_iff id subscription_id).0 mine)) good
            (rw (mine, good) refl)
      | inr bad ↦ unchanged (rw (mine, bad) refl)
    ]
    | inr foreign ↦ unchanged (rw foreign refl)
  ]

  -- A message of the mirrored subscription with an event that passed every check.
  pub record Passed (message : Incoming) : Type 0 where
    pub event : Event
    pub subscribed : message ≡ event_message subscription_id event
    pub matched : any (λ f. is_event_matching_filter f event) c.config.filters ≡ true
    pub id_valid : c.id_valid event ≡ true
    pub signature_valid : c.signature_valid event ≡ true
    pub fresh : is_expired_event c.to_number event times.expiration ≡ false
    pub accepted : can_accept_event c.relay_pubkey times.limits c.limits event ≡ true
    pub admitted :
        is_user_admitted c.config.skip_admission_check c.find_user c.settings event ≡ true

  all_passed :
      (matched id_ok signature_ok old accepted admitted : Bool)
      → (if not matched
          then false
          else if not id_ok || not signature_ok
          then false
          else if old
          then false
          else if not accepted
          then false
          else admitted)
        ≡ true
      → (matched ≡ true)
        × (id_ok ≡ true)
        × (signature_ok ≡ true)
        × (old ≡ false)
        × (accepted ≡ true)
        × (admitted ≡ true)
  all_passed true true true false true admitted h = (refl, refl, refl, refl, refl, h)
  all_passed true true true false false admitted h = cc h
  all_passed true true true true accepted admitted h = cc h
  all_passed true true false old accepted admitted h = cc h
  all_passed true false signature_ok old accepted admitted h = cc h
  all_passed false id_ok signature_ok old accepted admitted h = cc h

  takes-Passed :
      (message : Incoming) (event : Event)
      → message ≡ event_message subscription_id event
      → takes c times event ≡ true
      → Passed message
  unfolding takes
  takes-Passed message event subscribed h =
      let (matched, id_ok, signature_ok, fresh, accepted, admitted) = all_passed _ _ _ _ _ _ h in
      record {
        event = event;
        subscribed = subscribed;
        matched = matched;
        id_valid = id_ok;
        signature_valid = signature_ok;
        fresh = fresh;
        accepted = accepted;
        admitted = admitted;
      }

  -- A message keeps the stored rows unique, and leaves the worker as it was unless it belongs to the
  -- subscription and carries an event that matches a filter of the mirror, has a valid identifier and
  -- signature, is not expired, and is accepted by its limits and by the admission of its author.
  pub on_message-Passed :
      (message : Incoming) (m : Mirror)
      → IsUnique m.table
      → IsUnique (on_message c subscription_id times message m).table
        × (on_message c subscription_id times message m ≡ m ⊎ Passed message)
  on_message-Passed message m unique = elim (on_message-Taken message m) [
    | unchanged same ↦ (subst (λ (n : Mirror). IsUnique n.table) (sym same) unique, inl same)
    | taken event subscribed good made ↦ (
      subst (λ (n : Mirror). IsUnique n.table) (sym made) (create-IsUnique _ m.table unique).0,
      inr (takes-Passed message event subscribed good),
    )
  ]
