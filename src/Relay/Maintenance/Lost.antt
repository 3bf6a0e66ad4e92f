-- ===== src/Relay/Maintenance/Lost.antt =====
-- A payment that nostream-share/src/app/maintenance-worker.ts stores as completed and does not confirm.
use nostr_mesh.Nostr.{EventTemplate, find_tag}
use nostr_mesh.Prelude.Text.{codes, ◌===◌}
use nostr_mesh.Prelude.{[], ◌∷◌, ◌++◌, ℕ, ◌≡◌, refl, Bool, false, some}
use nostr_mesh.Prelude.Text.{Str}
use nostr_mesh.Prelude.Result.{Result, ok, err}
use nostr_mesh.Relay.Settings.{Settings}
use nostr_mesh.Relay.Payments.Data.{
  completed, DbInvoice, Db, Invoice, Failure, transaction_not_started, is_completed,
}
use nostr_mesh.Relay.Payments.Tables.{or_default, find_invoice, update_status}
use nostr_mesh.Relay.Payments.Tables
use nostr_mesh.Relay.Payments.Service.{
  Faults, in_transaction, update_invoice_status, confirm, check_confirmable,
  send_invoice_update_notification,
}
use nostr_mesh.Relay.Payments.Laws.Invoices.{find_invoice-update}
use nostr_mesh.Relay.Maintenance.{PartialInvoice, update_of, settle, update_one}

module _ (faults : Faults) (settings : Settings)
    (processor : Invoice → Result Failure PartialInvoice) (now expiration : ℕ → ℕ) where
  confirm_unbegun :
      (n : ℕ) (invoice : Invoice) (known : PartialInvoice) (id : Str) (date : ℕ) (db : Db)
      (e : Failure)
      → faults.begin ≡ some e
      → confirm faults settings (now n) (update_of invoice known id completed date) db
        ≡ (err transaction_not_started, db)
  unfolding confirm in_transaction check_confirmable
  confirm_unbegun n invoice known id date db e h = rw h refl

  -- What the worker leaves of such an invoice.
  pub record IsLost (n : ℕ) (id owner : Str) (row : DbInvoice) (db : Db) (answer : Bool × Db)
      : Type 0 where
    pub uncounted : answer.0 ≡ false
    pub users : answer.1.users ≡ db.users
    pub invoice :
        find_invoice id answer.1.invoices
        ≡ some (record row { status = completed; updated_at = now n })
    pub notice : EventTemplate
    pub notified : answer.1.notices ≡ db.notices ++ (notice ∷ [])
    pub kind : notice.kind ≡ 402
    pub addressed : find_tag notice.tags (codes "p") ≡ some owner
    pub worded : (amount : Str) × (notice.content ≡ codes "Invoice paid: " ++ amount)

  settle_unbegun :
      (n : ℕ) (invoice : Invoice) (known : PartialInvoice) (id : Str) (date : ℕ) (row : DbInvoice)
      (db : Db)
      → (e : Failure) → faults.begin ≡ some e
      → find_invoice id db.invoices ≡ some row
      → IsLost n id (or_default invoice.pubkey known.pubkey) row db (
          settle faults settings processor now expiration n
            (update_of invoice known id completed date)
            (update_invoice_status id (some completed) (now n) db).1)
  unfolding settle update_invoice_status update_status send_invoice_update_notification find_tag
      ◌===◌
  settle_unbegun n invoice known id date row db e h found =
      rw (confirm_unbegun n invoice known id date _ e h) (record {
        uncounted = refl;
        users = refl;
        invoice =
            find_invoice-update id (Tables.with_status (some completed) (now n)) (λ r. refl)
              db.invoices row found;
        notice = _;
        notified = refl;
        kind = refl;
        addressed = refl;
        worded = (_, refl);
      })

  -- When the database cannot begin a transaction, an invoice that is stored, not completed, and
  -- completed and confirmed by the payments processor's answer is stored as completed, and
  -- one notice is handed over to be signed, stored and broadcast, of the kind 402, addressed to the
  -- owner and worded `Invoice paid`, while no user is credited or admitted; the run does not count it
  -- as updated.
  pub update_one-IsLost :
      (n : ℕ) (invoice : Invoice) (known : PartialInvoice) (id : Str) (date : ℕ) (row : DbInvoice)
      (db : Db)
      → (e : Failure) → faults.begin ≡ some e
      → processor invoice ≡ ok known
      → known.id ≡ some id
      → known.status ≡ some completed
      → known.confirmed_at ≡ some date
      → is_completed invoice.status ≡ false
      → find_invoice id db.invoices ≡ some row
      → IsLost n id
          (or_default invoice.pubkey known.pubkey)
          row
          db
          (update_one faults settings processor now expiration n invoice db)
  unfolding update_one
  update_one-IsLost n invoice known id date row db e h answered named stated dated fresh found =
      rw (answered, named, stated, dated, fresh)
        (settle_unbegun n invoice known id date row db e h found)
