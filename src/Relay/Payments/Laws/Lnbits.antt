-- ===== src/Relay/Payments/Laws/Lnbits.antt =====
-- The callback of LNbits, nostream-share/src/controllers/callbacks/lnbits-callback-controller.ts, on a
-- payment whose confirmation fails.
use nostr_mesh.Prelude.{
  ℕ, ◌≡◌, refl, ap, ◌∙◌, Bool, true, false, not, ◌&&◌, Option, none, some, if◌then◌else◌,
}
use nostr_mesh.Prelude.Result.{Result, ok, err}
use nostr_mesh.Relay.Settings.{Settings}
use nostr_mesh.Relay.Payments.Data.{DbInvoice, Db, Invoice, Failure, is_completed, from_db_invoice}
use nostr_mesh.Relay.Payments.Tables.{
  read_row, find_invoice, find_by_id, with_status, update_status,
}
use nostr_mesh.Relay.Payments.Service.{
  Faults, update_invoice_status, confirm, send_invoice_update_notification,
}
use nostr_mesh.Relay.Payments.Callbacks.{
  Reply, accepted, is_set, already_paid, LnbitsInvoice, lnbits_update, lnbits_found, notified,
  confirm_and_notify, lnbits_callback,
}
use nostr_mesh.Relay.Payments.Laws.Invoices.{find_invoice-update}
use nostr_mesh.Relay.Payments.Laws.Service.{confirm_failed}

module _ (faults : Faults) (settings : Settings) (now expiration : ℕ)
    (invoice : LnbitsInvoice) where
  notified_failed :
      (db : Db) (result : Result Failure (Unit {0})) (e : Failure)
      → (confirm faults settings now (lnbits_update invoice) db).0 ≡ result
      → (notified faults settings now expiration result
          (lnbits_update invoice)
          (confirm faults settings now (lnbits_update invoice) db).1).0
        ≡ err e
      → (notified faults settings now expiration result
          (lnbits_update invoice)
          (confirm faults settings now (lnbits_update invoice) db).1).1
        ≡ db
  unfolding send_invoice_update_notification
  notified_failed db (ok tt) e h k = cc k
  notified_failed db (err failure) e h k =
      confirm_failed faults settings now (lnbits_update invoice) db failure h

  confirm_and_notify_failed :
      (db : Db) (e : Failure)
      → (confirm_and_notify faults settings now expiration
          (lnbits_update invoice)
          (lnbits_update invoice)
          db).0
        ≡ err e
      → (confirm_and_notify faults settings now expiration
          (lnbits_update invoice)
          (lnbits_update invoice)
          db).1
        ≡ db
  unfolding confirm_and_notify
  confirm_and_notify_failed db e h =
      notified_failed db (confirm faults settings now (lnbits_update invoice) db).0 e refl h

  abbrev marked : Db → Db
  marked db = (update_invoice_status invoice.id (some invoice.status) now db).1

  abbrev after_update : Bool → Bool → Bool → Db → Result Failure Reply × Db
  after_update complete is_dated paid db' =
      if not complete && not is_dated
      then (ok accepted, db')
      else if paid
      then (ok already_paid, db')
      else confirm_and_notify faults settings now expiration (lnbits_update invoice)
          (lnbits_update invoice) db'

  after_update_failed :
      (complete is_dated paid : Bool) (db' : Db) (e : Failure)
      → (after_update complete is_dated paid db').0 ≡ err e
      → (after_update complete is_dated paid db').1 ≡ db'
  after_update_failed true is_dated true db' e h = refl
  after_update_failed true is_dated false db' e h = confirm_and_notify_failed db' e h
  after_update_failed false true true db' e h = refl
  after_update_failed false true false db' e h = confirm_and_notify_failed db' e h
  after_update_failed false false paid db' e h = refl

  lnbits_failed :
      (before : Option Invoice) (db : Db) (e : Failure)
      → (lnbits_found faults settings now expiration invoice before db).0 ≡ err e
      → (lnbits_found faults settings now expiration invoice before db).1 ≡ marked db
  lnbits_failed none db e h = cc h
  lnbits_failed (some before) db e h =
      after_update_failed (is_completed invoice.status) (is_set invoice.confirmed_at)
        (is_completed before.status) (marked db) e h

  marked_users : (db : Db) → (marked db).users ≡ db.users
  unfolding update_invoice_status
  marked_users db = refl

  marked_row :
      (db : Db) (row : DbInvoice)
      → find_invoice invoice.id db.invoices ≡ some row
      → find_by_id invoice.id (marked db).invoices
        ≡ some (from_db_invoice (with_status (some invoice.status) now row))
  unfolding update_invoice_status update_status find_by_id
  marked_row db row found = ap read_row (
      find_invoice-update invoice.id (with_status (some invoice.status) now) (λ r. refl) db.invoices
        row found)

-- The same callback once more, after the first one has left the invoice marked.
already_marked :
    (faults : Faults) (settings : Settings) (now expiration : ℕ) (invoice : LnbitsInvoice)
    → (before : Invoice) (db : Db) → is_completed invoice.status ≡ true
    → before.status ≡ invoice.status
    → lnbits_found faults settings now expiration invoice (some before) db
      ≡ (ok already_paid, marked faults settings now expiration invoice db)
already_marked faults settings now expiration invoice before db complete same =
    ap
      (λ b.
        after_update faults settings now expiration invoice b (is_set invoice.confirmed_at)
          (is_completed before.status) (marked faults settings now expiration invoice db))
      complete
    ∙ ap
        (λ b.
          after_update faults settings now expiration invoice true (is_set invoice.confirmed_at) b
            (marked faults settings now expiration invoice db))
        (ap is_completed same ∙ complete)

-- If the callback of LNbits throws for a stored invoice that is completed, because its confirmation
-- failed, then any repetition of it is answered that the invoice is already paid, and nobody is
-- credited or admitted by either.
pub lnbits_repeated :
    (faults faults' : Faults) (settings : Settings) (now expiration now' expiration' : ℕ)
    → (invoice : LnbitsInvoice) (db : Db) (row : DbInvoice) (e : Failure)
    → find_invoice invoice.id db.invoices ≡ some row
    → is_completed invoice.status ≡ true
    → (lnbits_callback faults settings now expiration invoice.id (ok invoice) db).0 ≡ err e
    → ((lnbits_callback faults' settings now' expiration' invoice.id
          (ok invoice)
          (lnbits_callback faults settings now expiration invoice.id (ok invoice) db).1).0
        ≡ ok already_paid)
      × ((lnbits_callback faults' settings now' expiration' invoice.id
            (ok invoice)
            (lnbits_callback faults settings now expiration invoice.id (ok invoice) db).1).1.users
          ≡ db.users)
unfolding lnbits_callback from_db_invoice
lnbits_repeated faults faults' settings now expiration now' expiration' invoice db row e found
      complete failed =
    let first =
      lnbits_failed faults settings now expiration invoice (find_by_id invoice.id db.invoices) db e
        failed in
    let again =
      ap
        (λ (d : Db).
          lnbits_found faults' settings now' expiration' invoice (find_by_id invoice.id d.invoices)
            d)
        first
      ∙ ap
          (λ o.
            lnbits_found faults' settings now' expiration' invoice o
              (marked faults settings now expiration invoice db))
          (marked_row faults settings now expiration invoice db row found)
      ∙ already_marked faults' settings now' expiration' invoice
          (from_db_invoice (with_status (some invoice.status) now row))
          (marked faults settings now expiration invoice db) complete refl in
    (
      ap (λ pair. pair.0) again,
      ap (λ pair. pair.1.users) again
          ∙ marked_users faults' settings now' expiration' invoice _
          ∙ marked_users faults settings now expiration invoice db,
    )
