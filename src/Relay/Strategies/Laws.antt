-- ===== src/Relay/Strategies/Laws.antt =====
-- What the strategies do with the table and the session.
use nostr_mesh.Prelude.{
  ℕ, ◌+◌, ◌<◌, ◌≡◌, refl, sym, subst, ◌∙◌, ◌↔◌, Bool, true, false, ◌&&◌, Option, none, some, List,
  [], ◌∷◌, ltb, if◌then◌else◌, ltb→lt, lt→ltb,
}
use nostr_mesh.Nostr.{Event}
use nostr_mesh.Relay.SignedAuth.{is_valid_signed_auth_event}
use nostr_mesh.Relay.Session.{Session, Challenge, set_client_to_authenticated}
use nostr_mesh.Relay.Strategies.{
  Effect, command_result, authentication_succeeded, authentication_failed, permitted_delay,
  authenticate, execute_signed_auth,
}

-- The event answers the challenge of the session, in time.
abbrev pub Answers : ℕ → Event → Session → Type 0
Answers now event s =
    (c : Challenge) × (s.auth_challenge ≡ some c)
    × (is_valid_signed_auth_event event c.challenge ≡ true)
    × (now < c.created_at + permitted_delay)

chosen :
    (valid timely : Bool) (a b : Option (List Effect)) (s t : Session)
    → s.authenticated ≡ false
    → t.authenticated ≡ true
    → ((if◌then◌else◌ {A = Option (List Effect) × Session}
          (valid && timely)
          (a, t)
          (b, s)).1.authenticated
        ≡ true)
      ↔ ((valid ≡ true) × (timely ≡ true))
chosen true true a b s t h k = (λ e. (refl, refl), λ e. k)
chosen true false a b s t h k = (λ e. cc (sym h ∙ e), λ (_, e). cc e)
chosen false timely a b s t h k = (λ e. cc (sym h ∙ e), λ (e, _). cc e)

answered_iff :
    (now : ℕ) (event : Event) (s : Session) (open_challenge : Option Challenge)
    → s.authenticated ≡ false
    → ((authenticate now event open_challenge s).1.authenticated ≡ true) ↔ (
        (c : Challenge) × (open_challenge ≡ some c)
        × (is_valid_signed_auth_event event c.challenge ≡ true)
        × (now < c.created_at + permitted_delay))
answered_iff now event s none before = (λ e. cc (sym before ∙ e), λ (c, e, _, _). cc e)
answered_iff now event s (some c) before =
    let step =
      chosen (is_valid_signed_auth_event event c.challenge)
        (ltb now (c.created_at + permitted_delay))
        (some (command_result event.id true authentication_succeeded ∷ []))
        (some (command_result event.id false authentication_failed ∷ [])) s
        (set_client_to_authenticated s) before (unfold set_client_to_authenticated in refl) in
    (
      (λ e. let (valid, timely) = step.0 e in (c, refl, valid, ltb→lt _ _ timely)),
      (λ (d, same, valid, timely).
          let here : d ≡ c = cc in
          step.1 (
            subst (λ (x : Challenge). is_valid_signed_auth_event event x.challenge ≡ true) here
                valid,
            lt→ltb _ _
                (subst (λ (x : Challenge). now < x.created_at + permitted_delay) here timely),
          )),
    )

-- A session that was not authenticated becomes so exactly by an event that answers its challenge
-- within ten minutes.
pub execute_signed_auth_iff :
    (now : ℕ) (event : Event) (s : Session)
    → s.authenticated ≡ false
    → ((execute_signed_auth now event s).1.authenticated ≡ true) ↔ Answers now event s
unfolding execute_signed_auth
execute_signed_auth_iff now event s before = answered_iff now event s s.auth_challenge before
