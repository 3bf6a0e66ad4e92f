-- ===== src/Relay/Payments/Tables.antt =====
-- The statements on the tables of users and of invoices:
-- nostream-share/src/repositories/user-repository.ts,
-- nostream-share/src/repositories/invoice-repository.ts, and the stored function confirm_invoice of
-- nostream-share/migrations/20230220_002700_fix_unit_confirm_invoice_func.js. Both tables have a
-- primary key, so a statement that names one meets the first row with it; rows without an order come
-- in the order of the table.
use nostr_mesh.Prelude.{
  ℕ, ◌+◌, ◌*◌, Bool, true, false, Option, none, some, List, [], ◌∷◌, ◌++◌, map, if◌then◌else◌, take,
  drop,
}
use nostr_mesh.Prelude.Text.{Str, ◌===◌}
use nostr_mesh.Prelude.Result.{Result, ok, err, ◌>>=◌}
use nostr_mesh.Prelude.Bytes.{Bytes}
use nostr_mesh.Relay.Payments.Data.{
  InvoiceUnit, msats, sats, btc, InvoiceStatus, pending, DbInvoice, DbUser, Db, Invoice, Failure,
  out_of_range, fits_bigint, from_db_invoice,
}

abbrev pub or_default : {A : Type 0} → A → Option A → A
or_default d none = d
or_default d (some a) = a

-- `value ?? stored`, of a column that the statement may leave alone.
abbrev pub or_stored : {A : Type 0} → Option A → Option A → Option A
or_stored none stored = stored
or_stored (some a) stored = some a

-- The row of a user, `findByPubkey`.
unfoldable pub find_user : Bytes → List DbUser → Option DbUser
find_user pubkey [] = none
find_user pubkey (u ∷ us) = if u.pubkey === pubkey then some u else find_user pubkey us

-- The fields of `User` that `upsert` reads, each of which may be undefined.
pub record UserPatch : Type 0 where
  pub is_admitted : Option Bool
  pub tos_accepted_at : Option ℕ

abbrev pub inserted : Bytes → UserPatch → ℕ → DbUser
inserted pubkey patch now = record {
  pubkey = pubkey;
  is_admitted = or_default false patch.is_admitted;
  balance = 0;
  tos_accepted_at = patch.tos_accepted_at;
  created_at = now;
  updated_at = now;
}

abbrev pub merged : DbUser → UserPatch → ℕ → DbUser
merged u patch now = record u {
  is_admitted = or_default u.is_admitted patch.is_admitted;
  tos_accepted_at = or_stored patch.tos_accepted_at u.tos_accepted_at;
  updated_at = now;
}

-- `UserRepository.upsert`: an undefined field is inserted as the column's default, and leaves a
-- stored row as it is.
unfoldable pub upsert_user : Bytes → UserPatch → ℕ → List DbUser → List DbUser
upsert_user pubkey patch now [] = inserted pubkey patch now ∷ []
upsert_user pubkey patch now (u ∷ us) =
    if u.pubkey === pubkey then merged u patch now ∷ us else u ∷ upsert_user pubkey patch now us

abbrev pub balance_of : Option DbUser → ℕ
balance_of none = 0
balance_of (some u) = u.balance

-- `getBalanceByPubkey`.
unfoldable pub get_balance : Bytes → List DbUser → ℕ
get_balance pubkey users = balance_of (find_user pubkey users)

-- `UPDATE users SET balance = balance + amount WHERE "pubkey" = payee`.
unfoldable pub credit_user : Bytes → ℕ → List DbUser → Result Failure (List DbUser)
credit_user payee amount [] = ok []
credit_user payee amount (u ∷ us) =
    let rest = credit_user payee amount us in
    if u.pubkey === payee
    then if fits_bigint (u.balance + amount)
      then ok (record u { balance = u.balance + amount } ∷ us)
      else err out_of_range
    else do users ← rest; ok (u ∷ users)

unfoldable pub find_invoice : Str → List DbInvoice → Option DbInvoice
find_invoice id [] = none
find_invoice id (i ∷ is) = if i.id === id then some i else find_invoice id is

-- `UPDATE invoices SET … WHERE id = …`.
unfoldable pub update_invoice : Str → (DbInvoice → DbInvoice) → List DbInvoice → List DbInvoice
update_invoice id change [] = []
update_invoice id change (i ∷ is) =
    if i.id === id then change i ∷ is else i ∷ update_invoice id change is

abbrev pub read_row : Option DbInvoice → Option Invoice
read_row none = none
read_row (some row) = some (from_db_invoice row)

-- `findById`.
unfoldable pub find_by_id : Str → List DbInvoice → Option Invoice
find_by_id id rows = read_row (find_invoice id rows)

abbrev pub is_pending : DbInvoice → Bool
is_pending row = elim row.status [ pending ↦ true | _ ↦ false ]

-- `where('status', InvoiceStatus.PENDING)`.
unfoldable pub pending_rows : List DbInvoice → List DbInvoice
pending_rows [] = []
pending_rows (i ∷ is) = if is_pending i then i ∷ pending_rows is else pending_rows is

-- `findPendingInvoices`.
unfoldable pub find_pending_invoices : ℕ → ℕ → List DbInvoice → List Invoice
find_pending_invoices offset limit rows =
    map from_db_invoice (take limit (drop offset (pending_rows rows)))

abbrev pub with_status : Option InvoiceStatus → ℕ → DbInvoice → DbInvoice
with_status status now row = record row { status = or_default row.status status; updated_at = now }

-- `updateStatus`: an undefined status leaves the stored one. It returns the updated row, if there is one.
unfoldable pub update_status :
    Str → Option InvoiceStatus → ℕ → List DbInvoice → Option Invoice × List DbInvoice
update_status id status now rows =
    let updated = update_invoice id (with_status status now) rows in
    (find_by_id id updated, updated)

-- `InvoiceRepository.upsert`: a row that is there only takes the status and the date.
unfoldable pub upsert_invoice : DbInvoice → List DbInvoice → Result Failure (List DbInvoice)
upsert_invoice row rows =
    if fits_bigint row.amount_requested
    then ok (elim (find_invoice row.id rows) [
      | none ↦ rows ++ row ∷ []
      | some _ ↦ update_invoice row.id (with_status (some row.status) row.updated_at) rows
    ])
    else err out_of_range

-- What a payment in a unit adds to a balance, in thousandths of a satoshi.
unfoldable pub credit_of : InvoiceUnit → ℕ → ℕ
credit_of sats amount = amount * 1000
credit_of msats amount = amount
credit_of btc amount = amount * 100000000 * 1000

abbrev pub with_payment : ℕ → ℕ → ℕ → DbInvoice → DbInvoice
with_payment amount date now row = record row {
  confirmed_at = some date;
  amount_paid = some amount;
  updated_at = now;
}

-- The branch of confirm_invoice for an invoice that is not confirmed.
unfoldable pub first_confirmation : Str → ℕ → ℕ → ℕ → DbInvoice → Db → Result Failure Db
first_confirmation id amount date now row db = do
  users ← credit_user row.pubkey (credit_of row.unit amount) db.users
  ok (record db {
    users = users;
    invoices = update_invoice id (with_payment amount date now) db.invoices;
  })

abbrev pub confirm_row : Str → ℕ → ℕ → ℕ → DbInvoice → Db → Result Failure Db
confirm_row id amount date now row db = elim row.confirmed_at [
  | none ↦ first_confirmation id amount date now row db
  | some _ ↦ ok db
]

abbrev pub confirm_found : Str → ℕ → ℕ → ℕ → Option DbInvoice → Db → Result Failure Db
confirm_found id amount date now none db = ok db
confirm_found id amount date now (some row) db = confirm_row id amount date now row db

-- The stored function confirm_invoice, by which `InvoiceRepository.confirmInvoice` goes.
unfoldable pub confirm_invoice : Str → ℕ → ℕ → ℕ → Db → Result Failure Db
confirm_invoice id amount date now db =
    if fits_bigint amount
    then confirm_found id amount date now (find_invoice id db.invoices) db
    else err out_of_range
