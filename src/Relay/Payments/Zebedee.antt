-- ===== src/Relay/Payments/Zebedee.antt =====
-- The callback of Zebedee, nostream-share/src/controllers/callbacks/zebedee-callback-controller.ts.
-- The remote address is an argument.
use nostr_mesh.Prelude.{ℕ, not, ◌&&◌, Option, none, some, List, [], ◌==◌, if◌then◌else◌, length}
use nostr_mesh.Prelude.Text.{Str, codes, ◌===◌, includes}
use nostr_mesh.Prelude.Result.{Result, ok, err}
use nostr_mesh.Relay.Settings.{Settings}
use nostr_mesh.Relay.Payments.Data.{
  InvoiceStatus, Db, Invoice, InvoiceUpdate, Failure, type_error, is_completed,
}
use nostr_mesh.Relay.Payments.Service.{Faults, update_invoice_status}
use nostr_mesh.Relay.Payments.Callbacks.{Reply, accepted, forbidden, is_set, confirm_and_notify}

-- What is read of the invoice that Zebedee sends, `fromZebedeeInvoice`.
pub record ZebedeeInvoice : Type 0 where
  pub id : Str
  pub pubkey : Str
  pub amount_requested : ℕ
  pub status : InvoiceStatus
  pub confirmed_at : Option ℕ

-- The record that is confirmed: with the status that is stored, and without a unit.
abbrev pub zebedee_update : ZebedeeInvoice → InvoiceStatus → InvoiceUpdate
zebedee_update invoice status = record {
  id = invoice.id;
  pubkey = invoice.pubkey;
  bolt11 = [];
  unit = none;
  status = status;
  amount_paid = some invoice.amount_requested;
  confirmed_at = invoice.confirmed_at;
}

-- The record that is notified of: the stored one with the amount that was asked.
abbrev pub zebedee_shown : ZebedeeInvoice → Invoice → InvoiceUpdate
zebedee_shown invoice updated = record {
  id = updated.id;
  pubkey = updated.pubkey;
  bolt11 = updated.bolt11;
  unit = some updated.unit;
  status = updated.status;
  amount_paid = some invoice.amount_requested;
  confirmed_at = updated.confirmed_at;
}

-- `paymentsProcessors.zebedee.ipWhitelist` and `payments.processor`.
pub record ZebedeeSettings : Type 0 where
  pub ip_whitelist : List Str
  pub processor : Str

module _ (faults : Faults) (settings : Settings) (zebedee : ZebedeeSettings)
    (now expiration : ℕ) where
  abbrev pub zebedee_updated : ZebedeeInvoice → Option Invoice → Db → Result Failure Reply × Db
  zebedee_updated invoice none db = (err type_error, db)
  zebedee_updated invoice (some updated) db =
      if not (is_completed updated.status) && not (is_set updated.confirmed_at)
      then (ok accepted, db)
      else confirm_and_notify faults settings now expiration (zebedee_update invoice updated.status)
          (zebedee_shown invoice updated) db

  unfoldable pub zebedee_callback : Str → ZebedeeInvoice → Db → Result Failure Reply × Db
  zebedee_callback address invoice db =
      let (updated, db') = update_invoice_status invoice.id (some invoice.status) now db in
      if not (length zebedee.ip_whitelist == 0) && not (includes zebedee.ip_whitelist address)
      then (ok forbidden, db)
      else if not (zebedee.processor === codes "zebedee")
      then (ok forbidden, db)
      else zebedee_updated invoice updated db'
