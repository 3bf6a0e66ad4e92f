-- ===== src/Relay/Payments/Data.antt =====
-- Invoices and users as the relay's database holds them (nostream-share/src/@types/invoice.ts,
-- nostream-share/src/@types/user.ts), and what the payments code throws. Amounts are not negative; a
-- date is a number of milliseconds.
use nostr_mesh.Prelude.{ℕ, Bool, true, false, Option, List, leb}
use nostr_mesh.Prelude.Text.{Str}
use nostr_mesh.Prelude.Bytes.{Bytes, to_hex}
use nostr_mesh.Nostr.{EventTemplate}

pub data InvoiceUnit : Type 0 where
  msats sats btc : InvoiceUnit

pub data InvoiceStatus : Type 0 where
  pending completed expired : InvoiceStatus

-- A row of `invoices`.
pub record DbInvoice : Type 0 where
  pub id : Str
  pub pubkey : Bytes
  pub bolt11 : Str
  pub amount_requested : ℕ
  pub amount_paid : Option ℕ
  pub unit : InvoiceUnit
  pub status : InvoiceStatus
  pub description : Str
  pub confirmed_at : Option ℕ
  pub expires_at : Option ℕ
  pub updated_at : ℕ
  pub created_at : ℕ
  pub verify_url : Option Str

-- A row of `users`.
pub record DbUser : Type 0 where
  pub pubkey : Bytes
  pub is_admitted : Bool
  pub balance : ℕ
  pub tos_accepted_at : Option ℕ
  pub created_at : ℕ
  pub updated_at : ℕ

-- The database, and the notices that were handed over to be signed, stored and broadcast.
pub record Db : Type 0 where
  pub users : List DbUser
  pub invoices : List DbInvoice
  pub notices : List EventTemplate

-- What is known of an invoice when it is confirmed; a field that is not given is `none`.
pub record InvoiceUpdate : Type 0 where
  pub id : Str
  pub pubkey : Str
  pub bolt11 : Str
  pub unit : Option InvoiceUnit
  pub status : InvoiceStatus
  pub amount_paid : Option ℕ
  pub confirmed_at : Option ℕ

pub data Failure : Type 0 where
  confirmation_date_not_set amount_not_set : Failure
  not_complete : InvoiceStatus → Failure
  transaction_not_started unable_to_notify : Failure
  -- A number that does not fit a column of the database.
  out_of_range : Failure
  -- A property of `undefined` was read.
  type_error : Failure
  -- What the database or the payments processor threw.
  thrown : Str → Failure

abbrev pub is_completed : InvoiceStatus → Bool
is_completed completed = true
is_completed _ = false

-- `BIGINT` of PostgreSQL, less its negative half.
abbrev pub max_bigint : ℕ
max_bigint = 9223372036854775807

abbrev pub fits_bigint : ℕ → Bool
fits_bigint n = leb n max_bigint

-- `Invoice`, with the public key in hex.
pub record Invoice : Type 0 where
  pub id : Str
  pub pubkey : Str
  pub bolt11 : Str
  pub amount_requested : ℕ
  pub amount_paid : Option ℕ
  pub unit : InvoiceUnit
  pub status : InvoiceStatus
  pub description : Str
  pub confirmed_at : Option ℕ
  pub expires_at : Option ℕ
  pub updated_at : ℕ
  pub created_at : ℕ
  pub verify_url : Option Str

-- `fromDBInvoice`.
unfoldable pub from_db_invoice : DbInvoice → Invoice
from_db_invoice row = record {
  id = row.id;
  pubkey = to_hex row.pubkey;
  bolt11 = row.bolt11;
  amount_requested = row.amount_requested;
  amount_paid = row.amount_paid;
  unit = row.unit;
  status = row.status;
  description = row.description;
  confirmed_at = row.confirmed_at;
  expires_at = row.expires_at;
  updated_at = row.updated_at;
  created_at = row.created_at;
  verify_url = row.verify_url;
}
