-- ===== src/Relay/Payments/Laws/Tokens.antt =====
-- Which requests the callback of LNbits answers,
-- nostream-share/src/controllers/callbacks/lnbits-callback-controller.ts.
use nostr_mesh.Prelude.{
  ℕ, ◌≡◌, refl, sym, ap, ◌∙◌, ◌⊎◌, inl, inr, Bool, true, false, ◌&&◌, Option, none, some, [], ◌∷◌,
  ◌++◌, ◌==◌, if◌then◌else◌, ==_iff, &&_parts, Bool-cases, length,
}
use nostr_mesh.Prelude.Text.{Str, codes, ◌===◌, ===_iff}
use nostr_mesh.Prelude.Result.{Result}
use nostr_mesh.Prelude.Number.{parse_int}
use nostr_mesh.Relay.Settings.{Settings}
use nostr_mesh.Relay.Payments.Data.{Db, Failure}
use nostr_mesh.Relay.Payments.Service.{Faults}
use nostr_mesh.Relay.Payments.Callbacks.{LnbitsInvoice}
use nostr_mesh.Relay.Payments.Lnbits.{
  cons_first, split_colon, is_token, is_after, passes, validation_passed, with_body, lnbits_request,
}

some_pair :
    (a b c d : Str) → ◌≡◌ {A = Option (Str × Str)} (some (a, b)) (some (c, d)) → (a ≡ c) × (b ≡ d)
some_pair a b c d h = (ap (λ o. (or_empty o).0) h, ap (λ o. (or_empty o).1) h)
  where
    or_empty : Option (Str × Str) → Str × Str
    or_empty none = ([], [])
    or_empty (some pair) = pair

split_step :
    (here : Bool) (c : ℕ) (cs : Str) (more : Option (Str × Str)) (before after : Str)
    → (c == b':') ≡ here
    → ((first rest : Str) → more ≡ some (first, rest) → cs ≡ first ++ (b':' ∷ rest))
    → (if here then some ([], cs) else cons_first c more) ≡ some (before, after)
    → c ∷ cs ≡ before ++ (b':' ∷ after)
split_step true c cs more before after same known h =
    let (none_before, rest) = some_pair [] cs before after h in
    rw ((==_iff c b':').0 same, sym none_before, sym rest) refl
split_step false c cs none before after same known h = cc h
split_step false c cs (some (first, rest)) before after same known h =
    let (front, back) = some_pair (c ∷ first) rest before after h in
    rw (sym front, sym back) (ap (λ (t : Str). c ∷ t) (known first rest refl))

split_colon_sound :
    (token before after : Str)
    → split_colon token ≡ some (before, after)
    → token ≡ before ++ (b':' ∷ after)
unfolding split_colon
split_colon_sound [] before after h = cc h
split_colon_sound (c ∷ cs) before after h =
    split_step (c == b':') c cs (split_colon cs) before after refl (split_colon_sound cs) h

module _ (faults : Faults) (settings : Settings) (processor : Str) (sign : Str → Str)
    (get_invoice : Str → Result Failure LnbitsInvoice) (now expiration : ℕ) where
  -- A token for a time that has not come, with the HMAC of its digits, and a hash of 64 code units.
  pub record Granted (token payment_hash : Option Str) : Type 0 where
    pub ours : (processor === codes "lnbits") ≡ true
    pub digits : Str
    pub hash : Str
    pub signed : token ≡ some (digits ++ (b':' ∷ sign digits))
    pub valid : is_after now (parse_int digits) ≡ true
    pub given : payment_hash ≡ some hash
    pub size : length hash ≡ 64

  passes_signed :
      (token : Str) (parts : Option (Str × Str))
      → split_colon token ≡ parts
      → passes sign now parts ≡ true
      → (digits : Str) × (token ≡ digits ++ (b':' ∷ sign digits))
        × (is_after now (parse_int digits) ≡ true)
  passes_signed token none same h = cc h
  passes_signed token (some (digits, mac)) same h =
      let (checks, later) =
        &&_parts (is_token digits mac && sign digits === mac) (is_after now (parse_int digits)) h in
      let (_, signed) = &&_parts (is_token digits mac) (sign digits === mac) checks in
      (
        digits,
        split_colon_sound token digits mac same
            ∙ ap (λ (m : Str). digits ++ (b':' ∷ m)) (sym ((===_iff (sign digits) mac).0 signed)),
        later,
      )

  with_body_guarded :
      (token : Str) (payment_hash : Option Str) (db : Db)
      → (processor === codes "lnbits") ≡ true
      → validation_passed sign now (some token) ≡ true
      → ((with_body faults settings processor sign get_invoice now expiration payment_hash db).1
          ≡ db)
        ⊎ Granted (some token) payment_hash
  unfolding validation_passed
  with_body_guarded token none db ours h = inl refl
  with_body_guarded token (some hash) db ours h = elim (Bool-cases (length hash == 64)) [
    | inl size ↦
        let (digits, signed, later) = passes_signed token (split_colon token) refl h in
        inr (record {
          ours = ours;
          digits = digits;
          hash = hash;
          signed = ap some signed;
          valid = later;
          given = refl;
          size = (==_iff (length hash) 64).0 size;
        })
    | inr other ↦ inl (rw other refl)
  ]

  -- A request to the callback of LNbits leaves the database as it was, unless LNbits is the relay's
  -- processor, the token is a time that has not come with a colon and the HMAC of that time behind it,
  -- and the payment hash has 64 code units.
  pub lnbits_request-Granted :
      (token payment_hash : Option Str) (db : Db)
      → ((lnbits_request faults settings processor sign get_invoice now expiration token
            payment_hash db).1
          ≡ db)
        ⊎ Granted token payment_hash
  unfolding lnbits_request validation_passed
  lnbits_request-Granted token payment_hash db = elim (Bool-cases (processor === codes "lnbits")) [
    | inr other ↦ inl (rw other refl)
    | inl ours ↦ elim (Bool-cases (validation_passed sign now token)) [
      | inr invalid ↦ inl (rw (ours, invalid) refl)
      | inl valid ↦ rw (ours, valid) (some_token token ours valid)
    ]
  ]
    where
      some_token :
          (t : Option Str)
          → (processor === codes "lnbits") ≡ true
          → validation_passed sign now t ≡ true
          → ((with_body faults settings processor sign get_invoice now expiration payment_hash db).1
              ≡ db)
            ⊎ Granted t payment_hash
      some_token none ours valid = cc valid
      some_token (some t) ours valid = with_body_guarded t payment_hash db ours valid
