-- ===== src/Relay/Payments/Laws/Invoicing.antt =====
-- The amount that nostream-share/src/controllers/invoices/post-invoice-controller.ts asks for, before
-- the fee that nostream-share/src/services/payments-service.ts compares a payment with.
use nostr_mesh.Prelude.{
  ℕ, ◌+◌, ◌≡◌, refl, sym, ap, ◌∙◌, inl, inr, Bool, true, false, not, ◌&&◌, ◌||◌, Option, none, some,
  List, [], ◌∷◌, arith, ltb, leb, ==_refl, &&_parts, Bool-cases, any,
}
use nostr_mesh.Prelude.Text.{Str, ◌===◌, ===_iff, starts_with}
use nostr_mesh.Relay.Settings.{FeeSchedule, Settings}
use nostr_mesh.Relay.Admission.{some_in}
use nostr_mesh.Relay.Payments.Data.{InvoiceUpdate, InvoiceUnit, msats}
use nostr_mesh.Relay.Payments.Service.{
  is_applicable_fee, add_fees, admission_fee, is_paid, to_msats,
}
use nostr_mesh.Relay.Payments.Invoicing.{applicable_fees, amount_of, admission_fees}

starts_with_refl : (s : Str) → starts_with s s ≡ true
unfolding starts_with
starts_with_refl [] = refl
starts_with_refl (c ∷ cs) = rw (==_refl c, starts_with_refl cs) refl

neither : (a b : Bool) → (a || b) ≡ false → (a ≡ false) × (b ≡ false)
neither a b h = ground arith

-- A white list that holds the key has a prefix of it.
any_prefix :
    (pubkey : Str) (keys : List Str)
    → any (starts_with pubkey) keys ≡ false
    → any (λ key. key === pubkey) keys ≡ false
any_prefix pubkey [] h = refl
any_prefix pubkey (k ∷ ks) h =
    let (first, rest) = neither (starts_with pubkey k) (any (starts_with pubkey) ks) h in
    elim (Bool-cases (k === pubkey)) [
      | inl same ↦ cc (
          sym first ∙ ap (starts_with pubkey) ((===_iff k pubkey).0 same) ∙ starts_with_refl pubkey)
      | inr other ↦ rw other (any_prefix pubkey ks rest)
    ]

some_prefix :
    (pubkey : Str) (keys : Option (List Str))
    → some_in keys (starts_with pubkey) ≡ false
    → some_in keys (λ key. key === pubkey) ≡ false
some_prefix pubkey none h = refl
some_prefix pubkey (some keys) h = any_prefix pubkey keys h

negated : (b : Bool) → not b ≡ true → b ≡ false
negated b h = ground arith

counts : (a b : Bool) → a ≡ true → b ≡ false → (a && not b) ≡ true
counts a b h k = ground arith

applicable_counts :
    (pubkey : Str) (fee : FeeSchedule)
    → is_applicable_fee pubkey fee ≡ true
    → (fee.enabled && not (some_in fee.whitelisted_pubkeys (λ key. key === pubkey))) ≡ true
unfolding is_applicable_fee
applicable_counts pubkey fee h =
    let (enabled, free) = &&_parts fee.enabled _ h in
    counts fee.enabled _ enabled (some_prefix pubkey fee.whitelisted_pubkeys (negated _ free))

plus_comm : (a b : ℕ) → a + b ≡ b + a
plus_comm a b = omega arith

plus_zero : (a : ℕ) → a + 0 ≡ a
plus_zero a = omega arith

amount_of_nil : (pubkey : Str) (sum : ℕ) → amount_of pubkey sum [] ≡ sum
unfolding amount_of
amount_of_nil pubkey sum = refl

counted_step :
    (pubkey : Str) (sum : ℕ) (fee : FeeSchedule) (fees : List FeeSchedule)
    → is_applicable_fee pubkey fee ≡ true
    → amount_of pubkey sum (fee ∷ fees) ≡ amount_of pubkey (sum + fee.amount) fees
unfolding amount_of
counted_step pubkey sum fee fees applies =
    rw (applicable_counts pubkey fee applies)
      (ap (λ n. amount_of pubkey n fees) (plus_comm fee.amount sum))

amount_of-applicable :
    (pubkey : Str) (sum : ℕ) (fees : List FeeSchedule)
    → amount_of pubkey sum (applicable_fees pubkey fees) ≡ add_fees pubkey sum fees
unfolding applicable_fees add_fees
amount_of-applicable pubkey sum [] = amount_of_nil pubkey sum
amount_of-applicable pubkey sum (fee ∷ fees) = elim (Bool-cases (is_applicable_fee pubkey fee)) [
  | inl applies ↦
      rw (applies, counted_step pubkey sum fee (applicable_fees pubkey fees) applies)
        (amount_of-applicable pubkey (sum + fee.amount) fees)
  | inr spared ↦ rw (spared, plus_zero sum) (amount_of-applicable pubkey sum fees)
]

either_fees :
    (pubkey : Str) (fees : Option (List FeeSchedule))
    → amount_of pubkey 0 (elim fees [ none ↦ [] | some fs ↦ applicable_fees pubkey fs ])
      ≡ (elim fees [ none ↦ 0 | some fs ↦ add_fees pubkey 0 fs ])
either_fees pubkey none = amount_of_nil pubkey 0
either_fees pubkey (some fs) = amount_of-applicable pubkey 0 fs

amount_of-admission_fees :
    (pubkey : Str) (settings : Settings)
    → amount_of pubkey 0 (admission_fees pubkey settings) ≡ admission_fee pubkey settings
unfolding admission_fees admission_fee
amount_of-admission_fees pubkey settings = either_fees pubkey settings.admission_fees

exactly : (n : ℕ) → (ltb 0 n && leb n n) ≡ ltb 0 n
exactly n = ground arith

paid_exactly :
    (settings : Settings) (invoice : InvoiceUpdate) (amount : ℕ)
    → to_msats invoice.unit amount ≡ amount
    → amount ≡ admission_fee invoice.pubkey settings
    → is_paid settings invoice amount ≡ ltb 0 (admission_fee invoice.pubkey settings)
unfolding is_paid
paid_exactly settings invoice amount same asked =
    let fee = admission_fee invoice.pubkey settings in
    ap (λ n. ltb 0 fee && leb fee n) (same ∙ asked) ∙ exactly fee

in_thousandths :
    (unit : Option InvoiceUnit) (amount : ℕ) → unit ≡ some msats → to_msats unit amount ≡ amount
unfolding to_msats
in_thousandths unit amount h = ap (λ u. to_msats u amount) h

-- The amount of the invoice that is asked for an admission is the fee that the confirmation of a
-- payment asks for, and a payment of that amount in thousandths of a satoshi admits the key, if the
-- amount is above zero.
pub amount_of-admission :
    (settings : Settings) (invoice : InvoiceUpdate)
    → invoice.unit ≡ some msats
    → (amount_of invoice.pubkey 0 (admission_fees invoice.pubkey settings)
        ≡ admission_fee invoice.pubkey settings)
      × (is_paid settings invoice
            (amount_of invoice.pubkey 0 (admission_fees invoice.pubkey settings))
          ≡ ltb 0 (admission_fee invoice.pubkey settings))
amount_of-admission settings invoice in_msats =
    let asked = amount_of-admission_fees invoice.pubkey settings in
    (asked, paid_exactly settings invoice _ (in_thousandths invoice.unit _ in_msats) asked)
