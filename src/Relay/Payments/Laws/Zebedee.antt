-- ===== src/Relay/Payments/Laws/Zebedee.antt =====
-- Whom the callback of Zebedee admits,
-- nostream-share/src/controllers/callbacks/zebedee-callback-controller.ts.
use nostr_mesh.Prelude.{
  ℕ, ◌≡◌, refl, ap, ◌∙◌, Bool, true, false, not, ◌&&◌, ◌||◌, Option, none, some, ◌==◌, ltb, leb,
  if◌then◌else◌, length,
}
use nostr_mesh.Prelude.Text.{Str, codes, ◌===◌, includes}
use nostr_mesh.Prelude.Result.{Result, ok, err}
use nostr_mesh.Prelude.Bytes.{Bytes, from_hex}
use nostr_mesh.Relay.Settings.{Settings}
use nostr_mesh.Relay.Payments.Data.{InvoiceStatus, Db, Invoice, Failure, is_completed}
use nostr_mesh.Relay.Payments.Service.{
  Faults, update_invoice_status, confirm, to_msats, admission_fee, is_paid,
  send_invoice_update_notification,
}
use nostr_mesh.Relay.Payments.Callbacks.{
  Reply, accepted, confirmed, forbidden, is_set, notified, confirm_and_notify,
}
use nostr_mesh.Relay.Payments.Zebedee.{
  ZebedeeInvoice, zebedee_update, zebedee_shown, ZebedeeSettings, zebedee_updated, zebedee_callback,
}
use nostr_mesh.Relay.Payments.Laws.Users.{is_admitted}
use nostr_mesh.Relay.Payments.Laws.Service.{confirm-is_paid}

module _ (faults : Faults) (settings : Settings) (now expiration : ℕ) (key : Bytes) where
  notified_users :
      (result : Result Failure (Unit {0})) (invoice : ZebedeeInvoice) (updated : Invoice) (db : Db)
      → (notified faults settings now expiration result (zebedee_shown invoice updated) db).0
        ≡ ok confirmed
      → (result ≡ ok tt)
        × ((notified faults settings now expiration result
              (zebedee_shown invoice updated)
              db).1.users
            ≡ db.users)
  unfolding send_invoice_update_notification
  notified_users (err e) invoice updated db h = cc h
  notified_users (ok tt) invoice updated db h = (refl, refl)

  -- Who is admitted behind a callback, by who was before.
  abbrev Admits : ZebedeeInvoice → Db → Result Failure Reply × Db → Type 0
  Admits invoice db answer = is_admitted key answer.1.users ≡ (
      is_admitted key db.users
      || ((from_hex invoice.pubkey === key)
          && is_paid settings (zebedee_update invoice invoice.status) invoice.amount_requested))

  same_payment :
      (invoice : ZebedeeInvoice) (status other : InvoiceStatus) (amount : ℕ)
      → is_paid settings (zebedee_update invoice status) amount
        ≡ is_paid settings (zebedee_update invoice other) amount
  unfolding is_paid
  same_payment invoice status other amount = refl

  confirm_and_notify-Admits :
      (invoice : ZebedeeInvoice) (updated : Invoice) (db : Db)
      → (confirm_and_notify faults settings now expiration
          (zebedee_update invoice updated.status)
          (zebedee_shown invoice updated)
          db).0
        ≡ ok confirmed
      → Admits invoice db (
          confirm_and_notify faults settings now expiration
            (zebedee_update invoice updated.status)
            (zebedee_shown invoice updated)
            db)
  unfolding confirm_and_notify
  confirm_and_notify-Admits invoice updated db h =
      let run = confirm faults settings now (zebedee_update invoice updated.status) db in
      let (through, same) = notified_users run.0 invoice updated run.1 h in
      let (amount, paid, _, admission) =
        confirm-is_paid faults settings now key (zebedee_update invoice updated.status) db run.1
          (ap (λ r. (r, run.1)) through) in
      ap (is_admitted key) same
      ∙ admission
      ∙ ap (λ b. is_admitted key db.users || ((from_hex invoice.pubkey === key) && b))
          (ap (is_paid settings (zebedee_update invoice updated.status)) (cc paid)
            ∙ same_payment invoice updated.status invoice.status invoice.amount_requested)

  zebedee_updated-Admits :
      (zebedee : ZebedeeSettings) (invoice : ZebedeeInvoice) (updated : Option Invoice) (db : Db)
      → (zebedee_updated faults settings zebedee now expiration invoice updated db).0 ≡ ok confirmed
      → Admits invoice db
          (zebedee_updated faults settings zebedee now expiration invoice updated db)
  zebedee_updated-Admits zebedee invoice none db h = cc h
  zebedee_updated-Admits zebedee invoice (some updated) db h =
      waiting (not (is_completed updated.status) && not (is_set updated.confirmed_at)) h
    where
      waiting :
          (early : Bool)
          → ◌≡◌ {A = Result Failure Reply}
              (if early
                then (ok accepted, db)
                else confirm_and_notify faults settings now expiration
                    (zebedee_update invoice updated.status)
                    (zebedee_shown invoice updated)
                    db).0
              (ok confirmed)
          → Admits invoice db (
              if early
              then (ok accepted, db)
              else confirm_and_notify faults settings now expiration
                  (zebedee_update invoice updated.status)
                  (zebedee_shown invoice updated)
                  db)
      waiting true h = cc h
      waiting false h = confirm_and_notify-Admits invoice updated db h

  admitted_by :
      (blocked foreign : Bool) (invoice : ZebedeeInvoice) (db db' : Db)
      → (answer : Result Failure Reply × Db) → db'.users ≡ db.users
      → (answer.0 ≡ ok confirmed → Admits invoice db' answer)
      → ◌≡◌ {A = Result Failure Reply}
          (if blocked then (ok forbidden, db) else if foreign then (ok forbidden, db) else answer).0
          (ok confirmed)
      → Admits invoice db
          (if blocked then (ok forbidden, db) else if foreign then (ok forbidden, db) else answer)
  admitted_by true foreign invoice db db' answer same admits h = cc h
  admitted_by false true invoice db db' answer same admits h = cc h
  admitted_by false false invoice db db' answer same admits h =
      admits h
      ∙ ap
          (λ users.
            is_admitted key users
            || ((from_hex invoice.pubkey === key)
                && is_paid settings (zebedee_update invoice invoice.status)
                    invoice.amount_requested))
          same

  stored_users :
      (id : Str) (status : InvoiceStatus) (db : Db)
      → (update_invoice_status id (some status) now db).1.users ≡ db.users
  unfolding update_invoice_status
  stored_users id status db = refl

  zebedee_callback-is_paid :
      (zebedee : ZebedeeSettings) (address : Str) (invoice : ZebedeeInvoice) (db : Db)
      → (zebedee_callback faults settings zebedee now expiration address invoice db).0
        ≡ ok confirmed
      → is_admitted key
          (zebedee_callback faults settings zebedee now expiration address invoice db).1.users
        ≡ (is_admitted key db.users
            || ((from_hex invoice.pubkey === key)
                && is_paid settings
                    (zebedee_update invoice invoice.status)
                    invoice.amount_requested))
  unfolding zebedee_callback
  zebedee_callback-is_paid zebedee address invoice db =
      let (updated, db') = update_invoice_status invoice.id (some invoice.status) now db in
      admitted_by
        (not (length zebedee.ip_whitelist == 0) && not (includes zebedee.ip_whitelist address))
        (not (zebedee.processor === codes "zebedee")) invoice db db'
        (zebedee_updated faults settings zebedee now expiration invoice updated db')
        (stored_users invoice.id invoice.status db)
        (zebedee_updated-Admits zebedee invoice updated db')

  -- When the callback of Zebedee answers that an invoice is confirmed, a key is admitted exactly if it
  -- was before, or if it is the key of the invoice and the requested amount, read in thousandths of a
  -- satoshi, covers an admission fee above zero.
  pub zebedee_confirmed :
      (zebedee : ZebedeeSettings) (address : Str) (invoice : ZebedeeInvoice) (db : Db)
      → (zebedee_callback faults settings zebedee now expiration address invoice db).0
        ≡ ok confirmed
      → is_admitted key
          (zebedee_callback faults settings zebedee now expiration address invoice db).1.users
        ≡ (is_admitted key db.users
            || ((from_hex invoice.pubkey === key)
                && (ltb 0 (admission_fee invoice.pubkey settings)
                    && leb (admission_fee invoice.pubkey settings) invoice.amount_requested)))
  unfolding is_paid to_msats
  zebedee_confirmed zebedee address invoice db h =
      zebedee_callback-is_paid zebedee address invoice db h
