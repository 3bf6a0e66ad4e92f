-- ===== src/Relay/Payments/Laws/Callbacks.antt =====
-- The callback of OpenNode, nostream-share/src/controllers/callbacks/opennode-callback-controller.ts,
-- on an invoice that is stored and not confirmed.
use nostr_mesh.Prelude.{
  ℕ, ◌≡◌, refl, ap, ◌∙◌, Bool, true, false, not, ◌&&◌, Option, none, some, if◌then◌else◌,
}
use nostr_mesh.Prelude.Text.{Str}
use nostr_mesh.Prelude.Result.{Result, ok, err}
use nostr_mesh.Relay.Settings.{Settings}
use nostr_mesh.Relay.Payments.Data.{
  InvoiceStatus, DbInvoice, Db, Invoice, InvoiceUpdate, Failure, transaction_not_started,
  is_completed, from_db_invoice, confirmation_date_not_set,
}
use nostr_mesh.Relay.Payments.Tables.{
  or_default, read_row, find_invoice, find_by_id, with_status, update_status,
}
use nostr_mesh.Relay.Payments.Service.{Faults, update_invoice_status, checked, check_confirmable}
use nostr_mesh.Relay.Payments.Callbacks.{
  Reply, accepted, OpenNodeInvoice, opennode_status, opennode_update, opennode_shown,
  opennode_updated, is_set, notified, confirm_and_notify, opennode_callback,
}
use nostr_mesh.Relay.Payments.Laws.Invoices.{find_invoice-update}
use nostr_mesh.Relay.Payments.Laws.Service.{confirm_unchecked}

updated_row :
    (id : Str) (status : Option InvoiceStatus) (now : ℕ) (db : Db) (row : DbInvoice)
    → find_invoice id db.invoices ≡ some row
    → (update_invoice_status id status now db).0
      ≡ some (from_db_invoice (with_status status now row))
unfolding update_invoice_status update_status find_by_id
updated_row id status now db row found =
    ap read_row (find_invoice-update id (with_status status now) (λ r. refl) db.invoices row found)

-- What the callback answers to an invoice that is not confirmed, by whether it is now completed.
abbrev pub opennode_answer : Bool → Result Failure Reply
opennode_answer true = err transaction_not_started
opennode_answer false = ok accepted

module _ (faults : Faults) (settings : Settings) (now expiration : ℕ) where
  pub confirm_and_notify_refused :
      (invoice shown : InvoiceUpdate) (db : Db)
      → invoice.confirmed_at ≡ none
      → confirm_and_notify faults settings now expiration invoice shown db
        ≡ (err transaction_not_started, db)
  unfolding confirm_and_notify check_confirmable
  confirm_and_notify_refused invoice shown db fresh =
      ap (λ r. notified faults settings now expiration r.0 shown r.1)
        (confirm_unchecked faults settings now invoice db confirmation_date_not_set (
          ap (λ o. checked o (is_completed invoice.status) invoice.amount_paid invoice.status)
            fresh))

  opennode_updated_unconfirmed :
      (invoice : OpenNodeInvoice) (updated : Invoice) (db : Db)
      → updated.confirmed_at ≡ none
      → opennode_updated faults settings now expiration invoice (some updated) db
        ≡ (opennode_answer (is_completed updated.status), db)
  opennode_updated_unconfirmed invoice updated db fresh =
      by_status (is_completed updated.status) ∙ ap (λ b. (opennode_answer b, db)) refl
    where
      by_status :
          (is_complete : Bool)
          → (if not is_complete && not (is_set updated.confirmed_at)
              then (ok accepted, db)
              else confirm_and_notify faults settings now expiration
                  (opennode_update invoice updated)
                  (opennode_shown invoice updated)
                  db)
            ≡ (opennode_answer is_complete, db)
      by_status true = confirm_and_notify_refused _ _ db fresh
      by_status false =
          ap
            (λ o.
              if not (is_set o)
              then (ok accepted, db)
              else confirm_and_notify faults settings now expiration
                  (opennode_update invoice updated) (opennode_shown invoice updated) db)
            fresh

  -- For an invoice that is stored and not confirmed, the callback of OpenNode never credits or admits
  -- anyone, whatever OpenNode says: a completed invoice makes it throw that no transaction was
  -- started, any other is accepted without effect on the users.
  pub opennode_unconfirmed :
      (invoice : OpenNodeInvoice) (db : Db) (row : DbInvoice)
      → find_invoice invoice.id db.invoices ≡ some row
      → row.confirmed_at ≡ none
      → ((opennode_callback faults settings now expiration invoice db).0
          ≡ opennode_answer (is_completed (or_default row.status (opennode_status invoice.status))))
        × ((opennode_callback faults settings now expiration invoice db).1.users ≡ db.users)
  unfolding opennode_callback from_db_invoice update_invoice_status
  opennode_unconfirmed invoice db row found fresh =
      let status = opennode_status invoice.status in
      let after = (update_invoice_status invoice.id status now db).1 in
      let step =
        ap (λ o. opennode_updated faults settings now expiration invoice o after)
          (updated_row invoice.id status now db row found)
        ∙ opennode_updated_unconfirmed invoice (from_db_invoice (with_status status now row)) after
            fresh in
      (ap (λ pair. pair.0) step, ap (λ pair. pair.1.users) step)
