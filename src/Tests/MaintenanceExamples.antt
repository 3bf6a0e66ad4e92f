-- ===== src/Tests/MaintenanceExamples.antt =====
-- The theorems on the maintenance of invoices at concrete inputs.
use nostr_mesh.Prelude.{
  ℕ, zero, suc, ◌+◌, ◌-◌, ◌*◌, ◌/◌, ◌%◌, ◌^◌, ◌≤◌, ◌<◌, ◌≡◌, refl, sym, ap, subst, ◌∙◌, ◌≢◌, ◌↔◌,
  ◌⊎◌, inl, inr, Bool, true, false, not, ◌&&◌, ◌||◌, Option, none, some, List, [], ◌∷◌, ◌++◌, map,
  arith, ltb, leb, ◌==◌, if◌then◌else◌, ltb→lt, lt→ltb, leb→le, le_of_not_ltb, eq_of_not_ne,
  ==_refl, lt_of_le, ==_iff, &&_parts, Bool-cases, Option-cases, length, get_elem?, take, drop,
  length-append, length-drop, take-append, drop-append, any, all, find, All,
}
use nostr_mesh.Prelude.Text.{codes, ◌===◌}
use nostr_mesh.Prelude.Result.{Result, ok}
use nostr_mesh.Prelude.Any.{Any}
use nostr_mesh.Relay.Settings.{Settings}
use nostr_mesh.Relay.Payments.Data.{completed, Invoice, Failure, thrown, from_db_invoice}
use nostr_mesh.Relay.Payments.Tables.{find_invoice}
use nostr_mesh.Relay.Payments.Service.{Faults, get_pending_invoices}
use nostr_mesh.Relay.Payments.Laws.Users.{is_admitted}
use nostr_mesh.Relay.Maintenance.{PartialInvoice, update_one, on_schedule}
use nostr_mesh.Relay.Maintenance.Laws.{PaysFor, on_schedule-PaysFor}
use nostr_mesh.Relay.Maintenance.Lost.{IsLost, update_one-IsLost}
use nostr_mesh.Tests.PaymentsExamples.{payee, open_invoice, before, faultless, charging}

abbrev paid : PartialInvoice
paid = record {
  id = some (codes "i");
  pubkey = none;
  bolt11 = none;
  unit = none;
  status = some completed;
  confirmed_at = some 9;
}

abbrev processor : Invoice → Result Failure PartialInvoice
processor invoice = ok paid

abbrev enabled : Settings
enabled = record charging { payments_enabled = true }

abbrev clock : ℕ → ℕ
clock n = 100 + n

payee_admitted :
    is_admitted payee (on_schedule faultless enabled processor clock clock before).1.users ≡ true
unfolding on_schedule is_admitted nostr_mesh.Relay.Payments.Tables.find_user
    nostr_mesh.Relay.Maintenance.update_all get_pending_invoices
    nostr_mesh.Relay.Payments.Tables.find_pending_invoices
    nostr_mesh.Relay.Payments.Tables.pending_rows update_one from_db_invoice
    nostr_mesh.Relay.Maintenance.settle
    nostr_mesh.Relay.Payments.Service.send_invoice_update_notification
    nostr_mesh.Relay.Payments.Service.confirm nostr_mesh.Relay.Payments.Service.in_transaction
    nostr_mesh.Relay.Payments.Service.check_confirmable
    nostr_mesh.Relay.Payments.Tables.confirm_invoice find_invoice
    nostr_mesh.Relay.Payments.Service.update_invoice_status
    nostr_mesh.Relay.Payments.Tables.update_status nostr_mesh.Relay.Payments.Tables.update_invoice
    nostr_mesh.Relay.Payments.Tables.first_confirmation nostr_mesh.Relay.Payments.Tables.credit_user
    nostr_mesh.Relay.Payments.Tables.credit_of nostr_mesh.Relay.Payments.Service.admit
    nostr_mesh.Relay.Payments.Service.is_paid nostr_mesh.Relay.Payments.Service.admission_fee
    nostr_mesh.Relay.Payments.Service.add_fees nostr_mesh.Relay.Payments.Service.is_applicable_fee
    nostr_mesh.Relay.Payments.Service.to_msats nostr_mesh.Relay.Payments.Tables.upsert_user ◌===◌
    nostr_mesh.Prelude.Bytes.from_hex nostr_mesh.Prelude.Bytes.to_hex
payee_admitted = refl

on_schedule-PaysFor_example :
    (is_admitted payee before.users ≡ true)
    ⊎ ((true ≡ true)
        × Any (PaysFor faultless enabled processor clock clock payee) (get_pending_invoices before))
on_schedule-PaysFor_example =
    on_schedule-PaysFor faultless enabled processor clock clock payee before payee_admitted

abbrev unreachable : Faults
unreachable = record { begin = some (thrown (codes "no connection")); commit = none }

stored : find_invoice (codes "i") before.invoices ≡ some open_invoice
unfolding find_invoice ◌===◌
stored = refl

update_one-IsLost_example :
    IsLost unreachable enabled processor clock clock 0
      (codes "i")
      (from_db_invoice open_invoice).pubkey
      open_invoice
      before
      (update_one unreachable enabled processor clock clock 0 (from_db_invoice open_invoice) before)
unfolding from_db_invoice
update_one-IsLost_example =
    update_one-IsLost unreachable enabled processor clock clock 0 (from_db_invoice open_invoice)
      paid (codes "i") 9 open_invoice before (thrown (codes "no connection")) refl refl refl refl
      refl refl stored
