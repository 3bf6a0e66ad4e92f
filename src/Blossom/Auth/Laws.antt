-- ===== src/Blossom/Auth/Laws.antt =====
-- Whom `parseAuthEvent` of blossom/src/server.ts lets in.
use nostr_mesh.Prelude.{
  ℕ, suc, ◌≡◌, ◌<◌, ltb→lt, lt→ltb, sym, ap, ◌↔◌, Bool, true, false, not, ◌&&◌, Option, none, some,
  arith, ◌==◌, eq_of_not_ne, ==_iff, Bool-cases, inl, inr, subst, ◌∙◌, if◌then◌else◌,
}
use nostr_mesh.Prelude.Text.{Str, codes, ===_iff}
use nostr_mesh.Prelude.Result.{Result, ok, err, ◌>>=◌, throw_if-eq-ok, >>=-eq-ok, ok-injective}
use nostr_mesh.Prelude.Number.{ℤ, pos, negsuc}
use nostr_mesh.Nostr.{AuthEvent, find_tag, Signer, Base64, EventJson}
use nostr_mesh.Blossom.Config.{BlossomConfig}
use nostr_mesh.Blossom.Auth.{
  AuthVerb, verb_text, is_present, text_of, expiration_of, is_before, tag_is, infinite_from, finite,
  is_finite, HttpError, no_expiration, check_event, parse_auth_event, read_event,
}

-- A number that a text reads as, when it is not Infinity.
abbrev pub IsFinite : ℤ → Type 0
IsFinite (pos n) = n < infinite_from
IsFinite (negsuc n) = suc n < infinite_from

is_finite-IsFinite : (e : ℤ) → (is_finite e ≡ true) ↔ IsFinite e
is_finite-IsFinite (pos n) = (ltb→lt n infinite_from, lt→ltb n infinite_from)
is_finite-IsFinite (negsuc n) = (ltb→lt (suc n) infinite_from, lt→ltb (suc n) infinite_from)

-- An event that lets its signer in: of the right kind, complete, verified, for this verb, and with an
-- expiration that is a finite number and has not passed by more than the clock skew.
pub record Accepted (signer : Signer) (config : BlossomConfig) (verb : AuthVerb) (now : ℕ)
    (event : AuthEvent) : Type 0 where
  pub kind : event.kind ≡ 24242
  pub complete :
      (is_present event.id ≡ true)
      × (is_present event.sig ≡ true)
      × (is_present event.pubkey ≡ true)
  pub verified : signer.verify_event event ≡ true
  pub verb_tag : find_tag event.tags (codes "t") ≡ some (verb_text verb)
  pub expiration :
      (e : ℤ) × (expiration_of (find_tag event.tags (codes "expiration")) ≡ some e)
      × IsFinite e
      × (is_before e now config.max_clock_skew_seconds ≡ false)

tag_is_iff : (o : Option Str) (s : Str) → (tag_is o s ≡ true) ↔ (o ≡ some s)
tag_is_iff none s = (λ h. cc, λ h. cc)
tag_is_iff (some t) s = (λ h. ap some ((===_iff t s).0 h), λ h. ground (arith, ===_iff t s))

finite-eq-ok : (o : Option ℤ) {e : ℤ} → finite o ≡ ok e → (o ≡ some e) × (is_finite e ≡ true)
finite-eq-ok none h = cc
finite-eq-ok (some v) {e} h = elim (Bool-cases (is_finite v)) [
  | inl small ↦
      let same : v ≡ e =
        ok-injective (ap (λ b. if b then ok v else err no_expiration) (sym small) ∙ h) in
      (ap some same, subst (λ (z : ℤ). is_finite z ≡ true) same small)
  | inr large ↦ cc (
      ap (λ (b : Bool). if◌then◌else◌ {A = Result HttpError ℤ} b (ok v) (err no_expiration))
        (sym large)
      ∙ h)
]

true_of_not : (b : Bool) → not b ≡ false → b ≡ true
true_of_not b h = ground arith

&&₃_parts : (a b c : Bool) → (a && b && c) ≡ true → (a ≡ true) × (b ≡ true) × (c ≡ true)
&&₃_parts a b c h = ground arith

module _ (signer : Signer) (base64 : Base64) (json : EventJson) where
  check_event_sound :
      (config : BlossomConfig) (event : AuthEvent) (verb : AuthVerb) (now : ℕ) (pubkey : Str)
      → check_event signer base64 json config event verb now ≡ ok pubkey
      → Accepted signer config verb now event × (pubkey ≡ text_of event.pubkey)
  unfolding check_event
  check_event_sound config event verb now pubkey h =
      let (kind, h₁) = throw_if-eq-ok (not (event.kind == 24242)) _ _ h in
      let (complete, h₂) = throw_if-eq-ok _ _ _ h₁ in
      let (verified, h₃) = throw_if-eq-ok _ _ _ h₂ in
      let (verb_tag, h₄) = throw_if-eq-ok _ _ _ h₃ in
      let (e, found, h₅) =
        >>=-eq-ok (finite (expiration_of (find_tag event.tags (codes "expiration")))) _ h₄ in
      let (live, h₆) = throw_if-eq-ok _ _ _ h₅ in
      (
        record {
          kind = eq_of_not_ne _ _ kind;
          complete = &&₃_parts _ _ _ (true_of_not _ complete);
          verified = true_of_not _ verified;
          verb_tag = (tag_is_iff _ _).0 (true_of_not _ verb_tag);
          expiration =
              let (read, small) = finite-eq-ok _ found in
              (e, read, (is_finite-IsFinite e).0 small, live);
        },
        sym (ok-injective h₆),
      )

  pub check_event_complete :
      (config : BlossomConfig) (event : AuthEvent) (verb : AuthVerb) (now : ℕ)
      → Accepted signer config verb now event
      → check_event signer base64 json config event verb now ≡ ok (text_of event.pubkey)
  unfolding check_event
  check_event_complete config event verb now a = rw (
    (==_iff event.kind 24242).1 a.kind,
    a.complete.0,
    a.complete.1,
    a.complete.2,
    a.verified,
    (tag_is_iff _ _).1 a.verb_tag,
    a.expiration.1,
    (is_finite-IsFinite a.expiration.0).1 a.expiration.2,
    a.expiration.3,
  )

  auth_required :
      (config : BlossomConfig) (header : Option Str) (verb : AuthVerb) (now : ℕ)
      → config.require_auth ≡ true
      → parse_auth_event signer base64 json config header verb now ≡ (
          read_event signer base64 json header >>= λ event.
          check_event signer base64 json config event verb now)
  unfolding parse_auth_event
  auth_required config header verb now required = simp required

  -- Where authorisation is required, a header lets somebody in exactly if it carries an event that is
  -- accepted, and then it lets in the event's public key.
  pub parse_auth_event_iff :
      (config : BlossomConfig) (header : Option Str) (verb : AuthVerb) (now : ℕ) (pubkey : Str)
      → config.require_auth ≡ true
      → (parse_auth_event signer base64 json config header verb now ≡ ok pubkey) ↔ (
          (event : AuthEvent) × (read_event signer base64 json header ≡ ok event)
          × Accepted signer config verb now event
          × (pubkey ≡ text_of event.pubkey))
  parse_auth_event_iff config header verb now pubkey required =
      rw (auth_required config header verb now required) (
        (λ h.
            let (event, read, h₁) = >>=-eq-ok (read_event signer base64 json header) _ h in
            let (accepted, key) = check_event_sound config event verb now pubkey h₁ in
            (event, read, accepted, key)),
        (λ (event, read, accepted, key).
            rw (read, key) (check_event_complete config event verb now accepted)),
      )
