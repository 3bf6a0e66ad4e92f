-- ===== src/Relay/Payments/Laws/Service.antt =====
-- `confirmInvoice` and `createInvoice` of nostream-share/src/services/payments-service.ts.
use nostr_mesh.Prelude.{
  ℕ, ◌≡◌, refl, sym, ap, subst, ◌∙◌, inl, inr, Bool, true, false, ◌&&◌, ◌||◌, Option, none, some,
  [], arith, ltb, leb, Bool-cases,
}
use nostr_mesh.Prelude.Text.{Str, ◌===◌, ===_iff}
use nostr_mesh.Prelude.Result.{Result, ok, err, >>=-eq-ok, ok-injective}
use nostr_mesh.Prelude.Bytes.{Bytes, from_hex}
use nostr_mesh.Relay.Settings.{Settings}
use nostr_mesh.Relay.Payments.Data.{
  Db, InvoiceUpdate, Failure, InvoiceStatus, transaction_not_started, is_completed,
}
use nostr_mesh.Relay.Payments.Tables.{upsert_user, confirm_invoice}
use nostr_mesh.Relay.Payments.Service.{
  Faults, in_transaction, CreateInvoiceRequest, CreateInvoiceResponse, create_invoice, checked,
  check_confirmable, admission_fee, to_msats, is_paid, admit, confirm,
}
use nostr_mesh.Relay.Payments.Laws.Users.{
  apart_of, admitting, is_admitted, is_admitted_same, is_admitted_some, HasBalances,
  find_user-upsert, find_user-upsert_other, upsert_user-HasBalances,
}
use nostr_mesh.Relay.Payments.Laws.Confirmation.{is_admitted-confirm, confirm_invoice-HasBalances}
use nostr_mesh.Relay.Payments.Laws.Transactions.{in_transaction_keeps, in_transaction-eq-ok}

module _ (faults : Faults) (settings : Settings) (now : ℕ) where
  -- A confirmation of an invoice that throws leaves the database as it was.
  pub confirm_failed :
      (invoice : InvoiceUpdate) (db : Db) (e : Failure)
      → (confirm faults settings now invoice db).0 ≡ err e
      → (confirm faults settings now invoice db).1 ≡ db
  unfolding confirm
  confirm_failed invoice db e = in_transaction_keeps faults _ db (check_confirmable invoice) e

  -- The creation of an invoice that throws leaves the database as it was: the user is not stored
  -- either when the payments processor refuses.
  pub create_invoice_failed :
      (processor : CreateInvoiceRequest → Result Failure CreateInvoiceResponse) (pubkey : Str)
      → (amount : ℕ) (description : Str) (db : Db) (e : Failure)
      → (create_invoice faults processor now pubkey amount description db).0 ≡ err e
      → (create_invoice faults processor now pubkey amount description db).1 ≡ db
  unfolding create_invoice
  create_invoice_failed processor pubkey amount description db e =
      in_transaction_keeps faults _ db (ok tt) e

  -- What a confirmation that went through has done.
  pub record Done (invoice : InvoiceUpdate) (db db' : Db) : Type 0 where
    pub amount : ℕ
    pub date : ℕ
    pub confirmed : Db
    pub dated : invoice.confirmed_at ≡ some date
    pub completed : is_completed invoice.status ≡ true
    pub paid : invoice.amount_paid ≡ some amount
    pub stored : confirm_invoice invoice.id amount date now db ≡ ok confirmed
    pub admitted : admit settings invoice amount now confirmed ≡ db'

  checked-eq-ok :
      (confirmed_at : Option ℕ) (is_complete : Bool) (amount_paid : Option ℕ)
      (status : InvoiceStatus)
      → (amount date : ℕ) → checked confirmed_at is_complete amount_paid status ≡ ok (amount, date)
      → (confirmed_at ≡ some date) × (is_complete ≡ true) × (amount_paid ≡ some amount)
  checked-eq-ok none is_complete amount_paid status amount date h = cc h
  checked-eq-ok (some d) false amount_paid status amount date h = cc h
  checked-eq-ok (some d) true none status amount date h = cc h
  checked-eq-ok (some d) true (some a) status amount date h =
      let same = ok-injective h in
      (ap (λ pair. some (pair.1)) same, refl, ap (λ pair. some (pair.0)) same)

  check_confirmable-eq-ok :
      (invoice : InvoiceUpdate) (amount date : ℕ)
      → check_confirmable invoice ≡ ok (amount, date)
      → (invoice.confirmed_at ≡ some date)
        × (is_completed invoice.status ≡ true)
        × (invoice.amount_paid ≡ some amount)
  unfolding check_confirmable
  check_confirmable-eq-ok invoice amount date h =
      checked-eq-ok invoice.confirmed_at (is_completed invoice.status) invoice.amount_paid
        invoice.status amount date h

  pub confirm-Done :
      (invoice : InvoiceUpdate) (db db' : Db)
      → confirm faults settings now invoice db ≡ (ok tt, db')
      → Done invoice db db'
  unfolding confirm
  confirm-Done invoice db db' h =
      let ((amount, date), _, db'', checked, ran, _, after) =
        in_transaction-eq-ok faults _ db (check_confirmable invoice) tt db' h in
      let (confirmed, stored, made) =
        >>=-eq-ok (confirm_invoice invoice.id amount date now db) _ ran in
      let (dated, completed, paid) = check_confirmable-eq-ok invoice amount date checked in
      record {
        amount = amount;
        date = date;
        confirmed = confirmed;
        dated = dated;
        completed = completed;
        paid = paid;
        stored = stored;
        admitted = ap (λ pair. pair.1) (ok-injective made) ∙ after;
      }

  or_true : (a : Bool) → true ≡ (a || true)
  or_true = ground arith

  or_false : (a : Bool) → a ≡ (a || false)
  or_false = ground arith

  absorbed : (a b : Bool) → a ≡ (a || (b && false))
  absorbed = ground arith

  is_admitted-admit_paid :
      (key payer : Bytes) (db : Db)
      → is_admitted key (upsert_user payer (admitting (some now)) now db.users)
        ≡ (is_admitted key db.users || ((payer === key) && true))
  is_admitted-admit_paid key payer db =
      let patch = admitting (some now) in
      elim (Bool-cases (payer === key)) [
        | inl same ↦
            let (u, found, admitted, _) = find_user-upsert payer patch now db.users in
            rw same (
              ap (λ k. is_admitted k (upsert_user payer patch now db.users))
                (sym ((===_iff payer key).0 same))
              ∙ is_admitted_some payer _ [] u found
              ∙ admitted
              ∙ or_true (is_admitted key db.users))
        | inr other ↦ rw other (
            is_admitted_same key db.users (upsert_user payer patch now db.users)
              (find_user-upsert_other payer patch now key db.users (apart_of payer key other))
            ∙ or_false (is_admitted key db.users))
      ]

  is_admitted-admit :
      (key : Bytes) (invoice : InvoiceUpdate) (amount : ℕ) (db : Db)
      → is_admitted key (admit settings invoice amount now db).users ≡ (
          is_admitted key db.users
          || ((from_hex invoice.pubkey === key) && is_paid settings invoice amount))
  unfolding admit
  is_admitted-admit key invoice amount db = elim (Bool-cases (is_paid settings invoice amount)) [
    | inl paid ↦ rw paid (is_admitted-admit_paid key (from_hex invoice.pubkey) db)
    | inr unpaid ↦ rw unpaid (absorbed (is_admitted key db.users) (from_hex invoice.pubkey === key))
  ]

  pub confirm-is_paid :
      (key : Bytes) (invoice : InvoiceUpdate) (db db' : Db)
      → confirm faults settings now invoice db ≡ (ok tt, db')
      → (amount : ℕ) × (invoice.amount_paid ≡ some amount)
        × (is_completed invoice.status ≡ true)
        × (is_admitted key db'.users ≡ (
            is_admitted key db.users
            || ((from_hex invoice.pubkey === key) && is_paid settings invoice amount)))
  confirm-is_paid key invoice db db' h =
      let d = confirm-Done invoice db db' h in
      (
        d.amount,
        d.paid,
        d.completed,
        ap (λ (after : Db). is_admitted key after.users) (sym d.admitted)
            ∙ is_admitted-admit key invoice d.amount d.confirmed
            ∙ ap
                (λ before.
                  before
                  || ((from_hex invoice.pubkey === key) && is_paid settings invoice d.amount))
                (is_admitted-confirm invoice.id d.amount d.date now key db d.confirmed d.stored),
      )

  -- When a confirmation has gone through, the invoice was completed and had an amount, and a key is
  -- admitted exactly if it was before, or if it is the key of the invoice and the amount, in
  -- thousandths of a satoshi, covers an admission fee above zero.
  pub confirm-admission :
      (key : Bytes) (invoice : InvoiceUpdate) (db db' : Db)
      → confirm faults settings now invoice db ≡ (ok tt, db')
      → (amount : ℕ) × (invoice.amount_paid ≡ some amount)
        × (is_completed invoice.status ≡ true)
        × (is_admitted key db'.users ≡ (
            is_admitted key db.users
            || ((from_hex invoice.pubkey === key)
                && (ltb 0 (admission_fee invoice.pubkey settings)
                    && leb
                        (admission_fee invoice.pubkey settings)
                        (to_msats invoice.unit amount)))))
  unfolding is_paid
  confirm-admission key invoice db db' h = confirm-is_paid key invoice db db' h

  admit-HasBalances :
      (invoice : InvoiceUpdate) (amount : ℕ) (db : Db)
      → HasBalances db.users
      → HasBalances (admit settings invoice amount now db).users
  unfolding admit
  admit-HasBalances invoice amount db small = elim (Bool-cases (is_paid settings invoice amount)) [
    | inl paid ↦ rw paid (upsert_user-HasBalances _ _ now db.users small)
    | inr unpaid ↦ rw unpaid small
  ]

  -- Where every balance fits its column, every balance does so behind a confirmation, whether it goes
  -- through or throws.
  pub confirm-HasBalances :
      (invoice : InvoiceUpdate) (db : Db)
      → HasBalances db.users
      → HasBalances (confirm faults settings now invoice db).1.users
  confirm-HasBalances invoice db small = by_result (confirm faults settings now invoice db).0 refl
    where
      by_result :
          (r : Result Failure (Unit {0}))
          → (confirm faults settings now invoice db).0 ≡ r
          → HasBalances (confirm faults settings now invoice db).1.users
      by_result (err e) h =
          subst (λ (d : Db). HasBalances d.users) (sym (confirm_failed invoice db e h)) small
      by_result (ok tt) h =
          let d =
            confirm-Done invoice db _
              (ap (λ r. (r, (confirm faults settings now invoice db).1)) h) in
          subst (λ (after : Db). HasBalances after.users) d.admitted
            (admit-HasBalances invoice d.amount d.confirmed (
              confirm_invoice-HasBalances invoice.id d.amount d.date now db d.confirmed small
                d.stored))

  -- An invoice without a date or without an amount, or that is not completed, is never confirmed, and
  -- what is thrown says that no transaction was started.
  pub confirm_unchecked :
      (invoice : InvoiceUpdate) (db : Db) (e : Failure)
      → check_confirmable invoice ≡ err e
      → confirm faults settings now invoice db ≡ (err transaction_not_started, db)
  unfolding confirm in_transaction
  confirm_unchecked invoice db e h = rw h refl
