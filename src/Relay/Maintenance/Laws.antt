-- ===== src/Relay/Maintenance/Laws.antt =====
-- Whom a run of nostream-share/src/app/maintenance-worker.ts admits, and what it leaves undone.
use nostr_mesh.Prelude.{
  ℕ, suc, ltb, ltb→lt, leb→le, ◌<◌, ◌≤◌, ◌≡◌, refl, sym, ap, subst, ◌∙◌, ◌⊎◌, inl, inr, Bool, true,
  false, not, ◌&&◌, ◌||◌, Option, none, some, List, [], ◌∷◌, if◌then◌else◌, &&_parts, Bool-cases,
}
use nostr_mesh.Prelude.Text.{Str, ◌===◌, ===_iff}
use nostr_mesh.Prelude.Result.{Result, ok, err}
use nostr_mesh.Prelude.Any.{Any}
use nostr_mesh.Prelude.Bytes.{Bytes, from_hex}
use nostr_mesh.Relay.Settings.{Settings}
use nostr_mesh.Relay.Payments.Data.{
  InvoiceStatus, pending, completed, expired, Db, Invoice, InvoiceUpdate, Failure, is_completed,
}
use nostr_mesh.Relay.Payments.Service.{
  Faults, get_pending_invoices, update_invoice_status, confirm, admission_fee, to_msats, is_paid,
  send_invoice_update_notification,
}
use nostr_mesh.Relay.Payments.Laws.Users.{is_admitted}
use nostr_mesh.Relay.Payments.Laws.Service.{confirm-is_paid, confirm_failed}
use nostr_mesh.Relay.Maintenance.{
  PartialInvoice, update_of, settle, if_settled, with_status, with_answer, update_one, update_all,
  on_schedule,
}

module _ (faults : Faults) (settings : Settings)
    (processor : Invoice → Result Failure PartialInvoice) (now expiration : ℕ → ℕ) where
  -- The processor answers that the invoice is completed, and its amount covers the admission fee of a
  -- key.
  pub record PaysFor (key : Bytes) (invoice : Invoice) : Type 0 where
    pub known : PartialInvoice
    pub id : Str
    pub date : ℕ
    pub answered : processor invoice ≡ ok known
    pub status : known.status ≡ some completed
    pub confirmed : known.confirmed_at ≡ some date
    pub pubkey : from_hex (update_of invoice known id completed date).pubkey ≡ key
    pub charged : 0 < admission_fee (update_of invoice known id completed date).pubkey settings
    pub paid :
        admission_fee (update_of invoice known id completed date).pubkey settings
        ≤ to_msats (update_of invoice known id completed date).unit invoice.amount_requested

  is_paid_parts :
      (update : InvoiceUpdate) (amount : ℕ)
      → is_paid settings update amount ≡ true
      → (0 < admission_fee update.pubkey settings)
        × (admission_fee update.pubkey settings ≤ to_msats update.unit amount)
  unfolding is_paid
  is_paid_parts update amount h =
      let (above, covered) = &&_parts (ltb 0 (admission_fee update.pubkey settings)) _ h in
      (ltb→lt 0 _ above, leb→le _ _ covered)

  sent_users :
      (n : ℕ) (update : InvoiceUpdate) (db : Db) (amount : ℕ)
      → update.amount_paid ≡ some amount
      → (send_invoice_update_notification (now n) (expiration n) update db).1.users ≡ db.users
  unfolding send_invoice_update_notification
  sent_users n update db amount e = rw e refl

  -- What settling an invoice leaves of the users.
  settle_users :
      (n : ℕ) (update : InvoiceUpdate) (db : Db) (amount : ℕ)
      → update.amount_paid ≡ some amount
      → (settle faults settings processor now expiration n update db).1.users
        ≡ (confirm faults settings (now n) update db).1.users
  unfolding settle
  settle_users n update db amount e =
      sent_users n update (confirm faults settings (now n) update db).1 amount e

  or_parts : (a b c : Bool) → (a || (b && c)) ≡ true → (a ≡ true) ⊎ ((b ≡ true) × (c ≡ true))
  or_parts true b c h = inl refl
  or_parts false b c h = inr (&&_parts b c h)

  -- Who is admitted behind a confirmation, whether it goes through or throws.
  confirm_admits :
      (n : ℕ) (key : Bytes) (update : InvoiceUpdate) (db : Db) (amount : ℕ)
      → update.amount_paid ≡ some amount
      → is_admitted key (confirm faults settings (now n) update db).1.users ≡ true
      → (is_admitted key db.users ≡ true)
        ⊎ ((from_hex update.pubkey ≡ key) × (is_paid settings update amount ≡ true))
  confirm_admits n key update db amount asked h =
      by_result (confirm faults settings (now n) update db).0 refl
    where
      by_result :
          (r : Result Failure (Unit {0}))
          → (confirm faults settings (now n) update db).0 ≡ r
          → (is_admitted key db.users ≡ true)
            ⊎ ((from_hex update.pubkey ≡ key) × (is_paid settings update amount ≡ true))
      by_result (err e) failed = inl (
          subst (λ (d : Db). is_admitted key d.users ≡ true)
            (confirm_failed faults settings (now n) update db e failed) h)
      by_result (ok tt) through =
          let db' = (confirm faults settings (now n) update db).1 in
          let (amount', asked', _, admission) =
            confirm-is_paid faults settings (now n) key update db db'
              (ap (λ r. (r, db')) through) in
          let same : amount' ≡ amount = cc (sym asked' ∙ asked) in
          elim (or_parts (is_admitted key db.users) (from_hex update.pubkey === key)
            (is_paid settings update amount') (sym admission ∙ h)) [
              | inl before ↦ inl before
              | inr (mine, paid) ↦ inr (
                (===_iff (from_hex update.pubkey) key).0 mine,
                ap (is_paid settings update) (sym same) ∙ paid,
              )
            ]

  abbrev Admits : Bytes → Invoice → Db → Db → Type 0
  Admits key invoice db db' =
      is_admitted key db'.users ≡ true → (is_admitted key db.users ≡ true) ⊎ PaysFor key invoice

  completed_of : (status : InvoiceStatus) → is_completed status ≡ true → status ≡ completed
  completed_of pending h = cc h
  completed_of completed h = refl
  completed_of expired h = cc h

  settle-Admits :
      (n : ℕ) (key : Bytes) (invoice : Invoice) (known : PartialInvoice) (id : Str)
      → (status : InvoiceStatus) (date : ℕ) (db : Db) → processor invoice ≡ ok known
      → known.status ≡ some status
      → known.confirmed_at ≡ some date
      → status ≡ completed
      → Admits key invoice db
          (settle faults settings processor now expiration n
            (update_of invoice known id status date)
            db).1
  settle-Admits n key invoice known id status date db answered stated dated done h =
      let update = update_of invoice known id status date in
      let before =
        ap (is_admitted key) (sym (settle_users n update db invoice.amount_requested refl)) ∙ h in
      elim (confirm_admits n key update db invoice.amount_requested refl before) [
        | inl was ↦ inl was
        | inr (mine, paid) ↦
            let covered =
              is_paid_parts (update_of invoice known id completed date) invoice.amount_requested (
                subst
                  (λ s.
                    is_paid settings (update_of invoice known id s date) invoice.amount_requested
                    ≡ true)
                  done paid) in
            inr (record {
              known = known;
              id = id;
              date = date;
              answered = answered;
              status = stated ∙ ap some done;
              confirmed = dated;
              pubkey = mine;
              charged = covered.0;
              paid = covered.1;
            })
      ]

  if_settled-Admits :
      (n : ℕ) (key : Bytes) (invoice : Invoice) (known : PartialInvoice) (id : Str)
      → (status : InvoiceStatus) (confirmed_at : Option ℕ) (db : Db) → processor invoice ≡ ok known
      → known.status ≡ some status
      → known.confirmed_at ≡ confirmed_at
      → Admits key invoice db
          (if_settled faults settings processor now expiration n invoice known id status
            confirmed_at db).1
  if_settled-Admits n key invoice known id status none db answered stated dated = λ h. inl h
  if_settled-Admits n key invoice known id status (some date) db answered stated dated =
      elim (Bool-cases (not (is_completed invoice.status) && is_completed status)) [
        | inl fresh ↦
            let (_, done) =
              &&_parts (not (is_completed invoice.status)) (is_completed status) fresh in
            rw fresh (
              settle-Admits n key invoice known id status date db answered stated dated
                (completed_of status done))
        | inr other ↦ rw other (λ h. inl h)
      ]

  stored_users :
      (id : Str) (status : InvoiceStatus) (n : ℕ) (db : Db)
      → (update_invoice_status id (some status) (now n) db).1.users ≡ db.users
  unfolding update_invoice_status
  stored_users id status n db = refl

  with_status-Admits :
      (n : ℕ) (key : Bytes) (invoice : Invoice) (known : PartialInvoice)
      → (id : Option Str) (status : Option InvoiceStatus) (db : Db) → processor invoice ≡ ok known
      → known.status ≡ status
      → Admits key invoice db
          (with_status faults settings processor now expiration n invoice known id status db).1
  with_status-Admits n key invoice known none status db answered stated h = inl h
  with_status-Admits n key invoice known (some id) none db answered stated h = inl h
  with_status-Admits n key invoice known (some id) (some status) db answered stated h =
      let db' = (update_invoice_status id (some status) (now n) db).1 in
      elim (if_settled-Admits n key invoice known id status known.confirmed_at db' answered stated
        refl h) [
          | inl was ↦ inl (ap (is_admitted key) (sym (stored_users id status n db)) ∙ was)
          | inr pays ↦ inr pays
        ]

  with_answer-Admits :
      (n : ℕ) (key : Bytes) (invoice : Invoice) (answer : Result Failure PartialInvoice) (db : Db)
      → processor invoice ≡ answer
      → Admits key invoice db
          (with_answer faults settings processor now expiration n invoice answer db).1
  with_answer-Admits n key invoice (err e) db same = λ h. inl h
  with_answer-Admits n key invoice (ok known) db same =
      with_status-Admits n key invoice known known.id known.status db same refl

  update_all-Admits :
      (n : ℕ) (key : Bytes) (invoices : List Invoice) (successful : ℕ) (db : Db)
      → is_admitted key
          (update_all faults settings processor now expiration n invoices successful db).1.users
        ≡ true
      → (is_admitted key db.users ≡ true) ⊎ Any (PaysFor key) invoices
  unfolding update_all update_one
  update_all-Admits n key [] successful db h = inl h
  update_all-Admits n key (invoice ∷ invoices) successful db h =
      let (updated, db') = update_one faults settings processor now expiration n invoice db in
      elim (update_all-Admits (suc n) key invoices (if updated then suc successful else successful)
        db' h) [
          | inl later ↦ elim (with_answer-Admits n key invoice (processor invoice) db refl later) [
            | inl was ↦ inl was
            | inr pays ↦ inr (inl pays)
          ]
          | inr pays ↦ inr (inr pays)
        ]

  -- A key that is admitted behind a run of the worker was so before, or one of the pending invoices is
  -- completed and confirmed by the answer of the payments processor, is the key's, and its amount
  -- covers an admission fee above zero; where payments are not enabled, it was so before.
  pub on_schedule-PaysFor :
      (key : Bytes) (db : Db)
      → is_admitted key (on_schedule faults settings processor now expiration db).1.users ≡ true
      → (is_admitted key db.users ≡ true)
        ⊎ ((settings.payments_enabled ≡ true) × Any (PaysFor key) (get_pending_invoices db))
  unfolding on_schedule
  on_schedule-PaysFor key db = by_setting settings.payments_enabled refl
    where
      by_setting :
          (enabled : Bool)
          → settings.payments_enabled ≡ enabled
          → is_admitted key
              (if not enabled
                then (0, db)
                else update_all faults settings processor now expiration 0
                    (get_pending_invoices db)
                    0
                    db).1.users
            ≡ true
          → (is_admitted key db.users ≡ true)
            ⊎ ((settings.payments_enabled ≡ true) × Any (PaysFor key) (get_pending_invoices db))
      by_setting false same h = inl h
      by_setting true same h = elim (update_all-Admits 0 key (get_pending_invoices db) 0 db h) [
        | inl was ↦ inl was
        | inr pays ↦ inr (same, pays)
      ]
