-- ===== src/Relay/Maintenance.antt =====
-- nostream-share/src/app/maintenance-worker.ts: what one run of the worker does to the pending
-- invoices. What the payments processor answers, the settings and the clock, which is read once for
-- each invoice, are arguments; the waiting between two invoices is left out.
pub mod Laws
pub mod Lost
use nostr_mesh.Prelude.{
  ℕ, zero, suc, ◌+◌, ◌-◌, ◌*◌, ◌/◌, ◌%◌, ◌^◌, ◌≤◌, ◌<◌, ◌≡◌, refl, sym, ap, subst, ◌∙◌, ◌≢◌, ◌↔◌,
  ◌⊎◌, inl, inr, Bool, true, false, not, ◌&&◌, ◌||◌, Option, none, some, List, [], ◌∷◌, ◌++◌, map,
  arith, ltb, leb, ◌==◌, if◌then◌else◌, ltb→lt, lt→ltb, leb→le, le_of_not_ltb, eq_of_not_ne,
  ==_refl, lt_of_le, ==_iff, &&_parts, Bool-cases, Option-cases, length, get_elem?, take, drop,
  length-append, length-drop, take-append, drop-append, any, all, find, All,
}
use nostr_mesh.Prelude.Text.{
  Str, codes, ◌===◌, ===_iff, ===_refl, starts_with, includes, is_space, trim, to_lower_case,
  is_hex, is_hash, is_hex_lower, is_hash_lower, is_hash_parts, is_hash_lower_parts,
}
use nostr_mesh.Prelude.Result.{
  Result, ok, err, ◌>>=◌, ◌>>◌, throw_if, throw_if-eq-ok, >>=-eq-ok, >>=-ok, ok-injective,
}
use nostr_mesh.Relay.Settings.{Settings}
use nostr_mesh.Relay.Payments.Data.{
  InvoiceUnit, InvoiceStatus, pending, completed, expired, Db, Invoice, InvoiceUpdate, Failure,
  is_completed,
}
use nostr_mesh.Relay.Payments.Tables.{or_default}
use nostr_mesh.Relay.Payments.Service.{
  Faults, get_pending_invoices, update_invoice_status, confirm, send_invoice_update_notification,
}

-- What the processor knows of an invoice: a member that it does not give is `none`.
pub record PartialInvoice : Type 0 where
  pub id : Option Str
  pub pubkey : Option Str
  pub bolt11 : Option Str
  pub unit : Option InvoiceUnit
  pub status : Option InvoiceStatus
  pub confirmed_at : Option ℕ

-- `mergeDeepLeft` of what the processor knows into the invoice, with the amount that was asked for as
-- the amount that was paid.
abbrev pub update_of : Invoice → PartialInvoice → Str → InvoiceStatus → ℕ → InvoiceUpdate
update_of invoice known id status date = record {
  id = id;
  pubkey = or_default invoice.pubkey known.pubkey;
  bolt11 = or_default invoice.bolt11 known.bolt11;
  unit = some (or_default invoice.unit known.unit);
  status = status;
  amount_paid = some invoice.amount_requested;
  confirmed_at = some date;
}

abbrev pub is_ok {ℓ} : {A : Type ℓ} → Result Failure A → Bool
is_ok (ok a) = true
is_ok (err e) = false

module _ (faults : Faults) (settings : Settings)
    (processor : Invoice → Result Failure PartialInvoice) (now expiration : ℕ → ℕ) where
  -- `Promise.all`: both are started, and if one of them throws, the other one is not undone.
  unfoldable pub settle : ℕ → InvoiceUpdate → Db → Bool × Db
  settle n update db =
      let (confirmed, db') = confirm faults settings (now n) update db in
      let (sent, db'') = send_invoice_update_notification (now n) (expiration n) update db' in
      (is_ok confirmed && is_ok sent, db'')

  -- `invoice.status !== status && status == COMPLETED && confirmedAt`; the time 0 is a date too.
  abbrev pub if_settled :
      ℕ → Invoice → PartialInvoice → Str → InvoiceStatus → Option ℕ → Db → Bool × Db
  if_settled n invoice known id status none db = (true, db)
  if_settled n invoice known id status (some date) db =
      if not (is_completed invoice.status) && is_completed status
      then settle n (update_of invoice known id status date) db
      else (true, db)

  abbrev pub with_status :
      ℕ → Invoice → PartialInvoice → Option Str → Option InvoiceStatus → Db → Bool × Db
  with_status n invoice known (some id) (some status) db =
      let (_, db') = update_invoice_status id (some status) (now n) db in
      if_settled n invoice known id status known.confirmed_at db'
  with_status n invoice known _ _ db = (false, db)

  abbrev pub with_answer : ℕ → Invoice → Result Failure PartialInvoice → Db → Bool × Db
  with_answer n invoice (err e) db = (false, db)
  with_answer n invoice (ok known) db = with_status n invoice known known.id known.status db

  -- The body of the loop, and whether the invoice counts as updated.
  unfoldable pub update_one : ℕ → Invoice → Db → Bool × Db
  update_one n invoice db = with_answer n invoice (processor invoice) db

  unfoldable pub update_all : ℕ → List Invoice → ℕ → Db → ℕ × Db
  update_all n [] successful db = (successful, db)
  update_all n (invoice ∷ invoices) successful db =
      let (updated, db') = update_one n invoice db in
      update_all (suc n) invoices (if updated then suc successful else successful) db'

  -- `onSchedule`.
  unfoldable pub on_schedule : Db → ℕ × Db
  on_schedule db =
      if not settings.payments_enabled then (0, db) else update_all 0 (get_pending_invoices db) 0 db
