-- ===== src/Relay/Payments/Nodeless.antt =====
-- The callback of Nodeless, nostream-share/src/controllers/callbacks/nodeless-callback-controller.ts.
-- The signature that is expected of the body is an argument.
use nostr_mesh.Prelude.{ℕ, Bool, false, not, ◌&&◌, ◌||◌, Option, none, some, [], if◌then◌else◌}
use nostr_mesh.Prelude.Text.{Str, codes, ◌===◌}
use nostr_mesh.Prelude.Result.{Result, ok, err}
use nostr_mesh.Relay.Settings.{Settings}
use nostr_mesh.Relay.Payments.Data.{
  InvoiceUnit, InvoiceStatus, pending, completed, expired, Db, Invoice, InvoiceUpdate, Failure,
  type_error, is_completed,
}
use nostr_mesh.Relay.Payments.Tables.{or_default}
use nostr_mesh.Relay.Payments.Service.{Faults, update_invoice_status}
use nostr_mesh.Relay.Payments.Callbacks.{Reply, accepted, forbidden, is_set, confirm_and_notify}

-- What is read of the body.
pub record NodelessInvoice : Type 0 where
  pub id : Str
  pub pubkey : Str
  pub amount_requested : ℕ
  pub unit : Option InvoiceUnit
  pub status : Str

-- The status by the word of Nodeless, in `fromNodelessInvoice`; undefined for another.
unfoldable pub nodeless_status : Str → Option InvoiceStatus
nodeless_status word =
    if word === codes "new"
      || word === codes "pending_confirmation"
      || word === codes "underpaid"
      || word === codes "in_flight"
    then some pending
    else if word === codes "paid" || word === codes "overpaid"
    then some completed
    else if word === codes "expired"
    then some expired
    else none

-- `paidAt`, which only the word `paid` sets.
abbrev pub paid_at : ℕ → Str → Option ℕ
paid_at now word = if word === codes "paid" then some now else none

-- The record that is confirmed. A status that is not known goes with no date, which is looked at first.
abbrev pub nodeless_update : ℕ → NodelessInvoice → InvoiceUpdate
nodeless_update now invoice = record {
  id = invoice.id;
  pubkey = invoice.pubkey;
  bolt11 = [];
  unit = invoice.unit;
  status = or_default pending (nodeless_status invoice.status);
  amount_paid = some invoice.amount_requested;
  confirmed_at = paid_at now invoice.status;
}

-- The record that is notified of: the stored one with the amount that was asked.
abbrev pub nodeless_shown : NodelessInvoice → Invoice → InvoiceUpdate
nodeless_shown invoice updated = record {
  id = updated.id;
  pubkey = updated.pubkey;
  bolt11 = updated.bolt11;
  unit = some updated.unit;
  status = updated.status;
  amount_paid = some invoice.amount_requested;
  confirmed_at = updated.confirmed_at;
}

abbrev pub is_signed : Str → Option Str → Bool
is_signed expected none = false
is_signed expected (some actual) = expected === actual

module _ (faults : Faults) (settings : Settings) (processor : Str) (now expiration : ℕ) where
  abbrev pub nodeless_updated : NodelessInvoice → Option Invoice → Db → Result Failure Reply × Db
  nodeless_updated invoice none db = (err type_error, db)
  nodeless_updated invoice (some updated) db =
      if not (is_completed updated.status) && not (is_set updated.confirmed_at)
      then (ok accepted, db)
      else confirm_and_notify faults settings now expiration (nodeless_update now invoice)
          (nodeless_shown invoice updated) db

  unfoldable pub nodeless_callback :
      Str → Option Str → NodelessInvoice → Db → Result Failure Reply × Db
  nodeless_callback expected actual invoice db =
      let (updated, db') =
        update_invoice_status invoice.id (nodeless_status invoice.status) now db in
      if not (is_signed expected actual)
      then (ok forbidden, db)
      else if not (processor === codes "nodeless")
      then (ok forbidden, db)
      else nodeless_updated invoice updated db'
