-- ===== src/Relay/Payments/Service.antt =====
-- `PaymentsService` of nostream-share/src/services/payments-service.ts, with the transactions of
-- nostream-share/src/database/transaction.ts. The payments processor, the clock, and whether the
-- database begins and commits a transaction are arguments.
use nostr_mesh.Prelude.{
  ℕ, ◌+◌, ◌*◌, ◌/◌, Bool, true, false, not, ◌&&◌, Option, none, some, List, [], ◌∷◌, ◌++◌, ltb, leb,
  if◌then◌else◌,
}
use nostr_mesh.Prelude.Text.{Str, codes, starts_with}
use nostr_mesh.Prelude.Result.{Result, ok, err, ◌>>=◌}
use nostr_mesh.Prelude.Bytes.{from_hex}
use nostr_mesh.Prelude.Number.{decimal}
use nostr_mesh.Relay.Settings.{FeeSchedule, Settings}
use nostr_mesh.Relay.Admission.{some_in}
use nostr_mesh.Relay.Payments.Data.{
  InvoiceUnit, msats, sats, btc, InvoiceStatus, DbInvoice, Db, Invoice, InvoiceUpdate, Failure,
  confirmation_date_not_set, amount_not_set, not_complete, transaction_not_started,
  unable_to_notify, is_completed,
}
use nostr_mesh.Relay.Payments.Tables.{
  UserPatch, upsert_user, find_pending_invoices, update_status, upsert_invoice, confirm_invoice,
}

-- What the database throws when a transaction begins, and what is thrown when its commit fails.
pub record Faults : Type 0 where
  pub begin : Option Failure
  pub commit : Option Failure

module _ {A : Type 0} where
  abbrev pub commit : Option Failure → A → Db → Db → Result Failure A × Db
  commit none a db db' = (ok a, db')
  commit (some e) a db db' = (err e, db)

  -- `await transaction.rollback(); throw error`.
  abbrev pub finish : Option Failure → Db → Result Failure (A × Db) → Result Failure A × Db
  finish fault db (ok (a, db')) = commit fault a db db'
  finish fault db (err e) = (err e, db)

  abbrev pub begin :
      Faults → (Db → Result Failure (A × Db)) → Db → Option Failure → Result Failure A × Db
  begin faults body db none = finish faults.commit db (body db)
  begin faults body db (some e) = (err transaction_not_started, db)

  -- The `try` block of a method: checks, then statements between `begin` and `commit`. What is thrown
  -- before the transaction has begun makes the rollback throw in turn.
  unfoldable pub in_transaction :
      {C : Type 0}
      → Faults
      → Result Failure C
      → (C → Db → Result Failure (A × Db))
      → Db
      → Result Failure A × Db
  in_transaction faults (err e) body db = (err transaction_not_started, db)
  in_transaction faults (ok c) body db = begin faults (body c) db faults.begin

-- `getPendingInvoices`.
unfoldable pub get_pending_invoices : Db → List Invoice
get_pending_invoices db = find_pending_invoices 0 10 db.invoices

-- What the payments processor answers to a request for an invoice.
pub record CreateInvoiceResponse : Type 0 where
  pub id : Str
  pub bolt11 : Str
  pub amount_requested : ℕ
  pub description : Str
  pub unit : InvoiceUnit
  pub status : InvoiceStatus
  pub expires_at : Option ℕ
  pub created_at : ℕ
  pub verify_url : Option Str

pub record CreateInvoiceRequest : Type 0 where
  pub amount : ℕ
  pub description : Str
  pub request_id : Str

abbrev stored : Str → ℕ → CreateInvoiceResponse → DbInvoice
stored pubkey date response = record {
  id = response.id;
  pubkey = from_hex pubkey;
  bolt11 = response.bolt11;
  amount_requested = response.amount_requested;
  amount_paid = none;
  unit = response.unit;
  status = response.status;
  description = response.description;
  confirmed_at = none;
  expires_at = response.expires_at;
  updated_at = date;
  created_at = date;
  verify_url = response.verify_url;
}

abbrev returned : Str → Str → ℕ → CreateInvoiceResponse → Invoice
returned pubkey description date response = record {
  id = response.id;
  pubkey = pubkey;
  bolt11 = response.bolt11;
  amount_requested = response.amount_requested;
  amount_paid = none;
  unit = response.unit;
  status = response.status;
  description = description;
  confirmed_at = none;
  expires_at = response.expires_at;
  updated_at = date;
  created_at = response.created_at;
  verify_url = response.verify_url;
}

abbrev no_fields : UserPatch
no_fields = record { is_admitted = none; tos_accepted_at = none }

-- `createInvoice`.
unfoldable pub create_invoice :
    Faults
    → (CreateInvoiceRequest → Result Failure CreateInvoiceResponse)
    → ℕ
    → Str
    → ℕ
    → Str
    → Db
    → Result Failure Invoice × Db
create_invoice faults processor date pubkey amount description =
    in_transaction faults (ok tt) (λ _ db. do
      let users = upsert_user (from_hex pubkey) no_fields date db.users
      response ←
          processor (record { amount = amount; description = description; request_id = pubkey })
      invoices ← upsert_invoice (stored pubkey date response) db.invoices
      ok (
        returned pubkey description date response,
        record db { users = users; invoices = invoices },
      ))

-- `updateInvoice` and `updateInvoiceStatus`, which only differ in what they return.
unfoldable pub update_invoice_status : Str → Option InvoiceStatus → ℕ → Db → Option Invoice × Db
update_invoice_status id status now db =
    let (updated, invoices) = update_status id status now db.invoices in
    (updated, record db { invoices = invoices })

-- The checks of `confirmInvoice`: the amount and the date of the payment.
abbrev pub checked : Option ℕ → Bool → Option ℕ → InvoiceStatus → Result Failure (ℕ × ℕ)
checked none is_complete amount status = err confirmation_date_not_set
checked (some date) false amount status = err (not_complete status)
checked (some date) true none status = err amount_not_set
checked (some date) true (some amount) status = ok (amount, date)

unfoldable pub check_confirmable : InvoiceUpdate → Result Failure (ℕ × ℕ)
check_confirmable invoice =
    checked invoice.confirmed_at (is_completed invoice.status) invoice.amount_paid invoice.status

-- `amountPaidMsat`.
unfoldable pub to_msats : Option InvoiceUnit → ℕ → ℕ
to_msats (some sats) amount = amount * 1000
to_msats (some btc) amount = amount * (1000 * 100000000)
to_msats (some msats) amount = amount
to_msats none amount = amount

unfoldable pub is_applicable_fee : Str → FeeSchedule → Bool
is_applicable_fee pubkey fee =
    fee.enabled && not (some_in fee.whitelisted_pubkeys (starts_with pubkey))

unfoldable pub add_fees : Str → ℕ → List FeeSchedule → ℕ
add_fees pubkey sum [] = sum
add_fees pubkey sum (fee ∷ fees) =
    add_fees pubkey (sum + (if is_applicable_fee pubkey fee then fee.amount else 0)) fees

-- `admissionFeeAmount`; settings without fees have none.
unfoldable pub admission_fee : Str → Settings → ℕ
admission_fee pubkey settings = elim settings.admission_fees [
  | none ↦ 0
  | some fees ↦ add_fees pubkey 0 fees
]

unfoldable pub is_paid : Settings → InvoiceUpdate → ℕ → Bool
is_paid settings invoice amount =
    let fee = admission_fee invoice.pubkey settings in
    ltb 0 fee && leb fee (to_msats invoice.unit amount)

unfoldable pub admit : Settings → InvoiceUpdate → ℕ → ℕ → Db → Db
admit settings invoice amount now db =
    if is_paid settings invoice amount
    then record db {
      users =
          upsert_user (from_hex invoice.pubkey)
            (record { is_admitted = some true; tos_accepted_at = some now }) now db.users;
    }
    else db

-- `confirmInvoice`.
unfoldable pub confirm : Faults → Settings → ℕ → InvoiceUpdate → Db → Result Failure (Unit {0}) × Db
confirm faults settings now invoice =
    in_transaction faults (check_confirmable invoice) (λ (amount, date) db. do
      confirmed ← confirm_invoice invoice.id amount date now db
      ok (tt, admit settings invoice amount now confirmed))

-- `InvoiceUnit` as text, `undefined` too.
unfoldable pub unit_text : Option InvoiceUnit → Str
unit_text none = codes "undefined"
unit_text (some msats) = codes "msats"
unit_text (some sats) = codes "sats"
unit_text (some btc) = codes "btc"

-- The amount and the unit that a notice shows: thousandths of a satoshi as satoshis.
unfoldable pub shown_amount : Option InvoiceUnit → ℕ → Str
shown_amount (some msats) amount = decimal (amount / 1000) ++ codes " sats"
shown_amount unit amount = decimal amount ++ (codes " " ++ unit_text unit)

-- `sendInvoiceUpdateNotification`; what fails after the notice is made is only logged. The two dates
-- are in milliseconds, the second of them the same day of the next month.
unfoldable pub send_invoice_update_notification :
    ℕ → ℕ → InvoiceUpdate → Db → Result Failure (Unit {0}) × Db
send_invoice_update_notification now expiration invoice db = elim invoice.amount_paid [
  | none ↦ (err unable_to_notify, db)
  | some amount ↦ (
    ok tt,
    record db {
      notices =
          db.notices
          ++ record {
            kind = 402;
            created_at = now / 1000;
            content = codes "Invoice paid: " ++ shown_amount invoice.unit amount;
            tags =
                (codes "p" ∷ invoice.pubkey ∷ [])
                ∷ (codes "bolt11" ∷ invoice.bolt11 ∷ [])
                ∷ (codes "expiration" ∷ decimal (expiration / 1000) ∷ [])
                ∷ [];
          }
            ∷ [];
    },
  )
]
