-- ===== src/Relay/Payments/Callbacks.antt =====
-- How the relay learns that an invoice is paid: the callback of OpenNode
-- (nostream-share/src/controllers/callbacks/opennode-callback-controller.ts) and, behind its checks of
-- the request, the callback of LNbits
-- (nostream-share/src/controllers/callbacks/lnbits-callback-controller.ts).
use nostr_mesh.Prelude.{
  ℕ, Bool, true, false, not, ◌&&◌, ◌||◌, Option, none, some, [], if◌then◌else◌,
}
use nostr_mesh.Prelude.Text.{Str, codes, ◌===◌}
use nostr_mesh.Prelude.Result.{Result, ok, err}
use nostr_mesh.Relay.Settings.{Settings}
use nostr_mesh.Relay.Payments.Data.{
  InvoiceUnit, InvoiceStatus, pending, completed, expired, Db, Invoice, InvoiceUpdate, Failure,
  type_error, is_completed,
}
use nostr_mesh.Relay.Payments.Tables.{find_by_id}
use nostr_mesh.Relay.Payments.Service.{
  Faults, update_invoice_status, confirm, send_invoice_update_notification,
}

pub data Reply : Type 0 where
  -- Status 200, without and with a text.
  accepted confirmed : Reply
  -- Status 404 and 409.
  no_such_invoice already_paid : Reply
  -- Status 403 and 400.
  forbidden malformed_body : Reply

-- The status of an invoice by the word of OpenNode, in `fromOpenNodeInvoice`; undefined for another.
unfoldable pub opennode_status : Str → Option InvoiceStatus
opennode_status word =
    if word === codes "expired" || word === codes "refunded"
    then some expired
    else if word === codes "unpaid" || word === codes "processing" || word === codes "underpaid"
    then some pending
    else if word === codes "paid"
    then some completed
    else none

-- What the callback reads of the invoice that OpenNode sends.
pub record OpenNodeInvoice : Type 0 where
  pub id : Str
  pub pubkey : Str
  pub amount_requested : ℕ
  pub status : Str

-- The record that the callback confirms: its unit is not given.
abbrev pub opennode_update : OpenNodeInvoice → Invoice → InvoiceUpdate
opennode_update invoice updated = record {
  id = invoice.id;
  pubkey = invoice.pubkey;
  bolt11 = [];
  unit = none;
  status = updated.status;
  amount_paid = some updated.amount_requested;
  confirmed_at = updated.confirmed_at;
}

abbrev pub opennode_shown : OpenNodeInvoice → Invoice → InvoiceUpdate
opennode_shown invoice updated = record {
  id = updated.id;
  pubkey = updated.pubkey;
  bolt11 = updated.bolt11;
  unit = some updated.unit;
  status = updated.status;
  amount_paid = some invoice.amount_requested;
  confirmed_at = updated.confirmed_at;
}

abbrev pub is_set : Option ℕ → Bool
is_set none = false
is_set (some _) = true

-- `Partial<Invoice>` of the payments processor of LNbits, as its `getInvoice` fills it.
pub record LnbitsInvoice : Type 0 where
  pub id : Str
  pub pubkey : Str
  pub bolt11 : Str
  pub amount_requested : ℕ
  pub unit : InvoiceUnit
  pub status : InvoiceStatus
  pub confirmed_at : Option ℕ

abbrev pub lnbits_update : LnbitsInvoice → InvoiceUpdate
lnbits_update invoice = record {
  id = invoice.id;
  pubkey = invoice.pubkey;
  bolt11 = invoice.bolt11;
  unit = some invoice.unit;
  status = invoice.status;
  amount_paid = some invoice.amount_requested;
  confirmed_at = invoice.confirmed_at;
}

module _ (faults : Faults) (settings : Settings) (now expiration : ℕ) where
  abbrev pub notified : Result Failure (Unit {0}) → InvoiceUpdate → Db → Result Failure Reply × Db
  notified (err e) invoice db = (err e, db)
  notified (ok _) invoice db =
      let (sent, db') = send_invoice_update_notification now expiration invoice db in
      (elim sent [ ok _ ↦ ok confirmed | err e ↦ err e ], db')

  -- `confirmInvoice`, then `sendInvoiceUpdateNotification` of what may be another record.
  unfoldable pub confirm_and_notify : InvoiceUpdate → InvoiceUpdate → Db → Result Failure Reply × Db
  confirm_and_notify invoice shown db =
      let (result, db') = confirm faults settings now invoice db in notified result shown db'

  abbrev pub opennode_updated : OpenNodeInvoice → Option Invoice → Db → Result Failure Reply × Db
  opennode_updated invoice none db = (err type_error, db)
  opennode_updated invoice (some updated) db =
      if not (is_completed updated.status) && not (is_set updated.confirmed_at)
      then (ok accepted, db)
      else confirm_and_notify (opennode_update invoice updated) (opennode_shown invoice updated) db

  unfoldable pub opennode_callback : OpenNodeInvoice → Db → Result Failure Reply × Db
  opennode_callback invoice db =
      let (updated, db') =
        update_invoice_status invoice.id (opennode_status invoice.status) now db in
      opennode_updated invoice updated db'

  abbrev pub lnbits_found : LnbitsInvoice → Option Invoice → Db → Result Failure Reply × Db
  lnbits_found invoice none db = (ok no_such_invoice, db)
  lnbits_found invoice (some before) db =
      let (_, db') = update_invoice_status invoice.id (some invoice.status) now db in
      if not (is_completed invoice.status) && not (is_set invoice.confirmed_at)
      then (ok accepted, db')
      else if is_completed before.status
      then (ok already_paid, db')
      else confirm_and_notify (lnbits_update invoice) (lnbits_update invoice) db'

  -- The callback of LNbits after its checks, for a payment hash and what the processor answers to it.
  unfoldable pub lnbits_callback :
      Str → Result Failure LnbitsInvoice → Db → Result Failure Reply × Db
  lnbits_callback payment_hash (err e) db = (err e, db)
  lnbits_callback payment_hash (ok invoice) db =
      lnbits_found invoice (find_by_id payment_hash db.invoices) db
