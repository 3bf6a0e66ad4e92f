-- ===== src/Relay/Payments/Laws/Requests.antt =====
-- What a request for an invoice changes, `handleRequest` of
-- nostream-share/src/controllers/invoices/post-invoice-controller.ts.
use nostr_mesh.Prelude.{
  ℕ, ◌/◌, ◌≡◌, refl, sym, ap, subst, inl, inr, Bool, true, false, ◌++◌, ◌==◌, if◌then◌else◌,
  Bool-cases, length,
}
use nostr_mesh.Prelude.Text.{Str, codes}
use nostr_mesh.Prelude.Result.{Result, ok, err}
use nostr_mesh.Prelude.Bytes.{from_hex}
use nostr_mesh.Relay.Settings.{Settings}
use nostr_mesh.Relay.RateLimit.{SortedSets}
use nostr_mesh.Relay.Payments.Data.{Db, Invoice, Failure}
use nostr_mesh.Relay.Payments.Tables.{find_user}
use nostr_mesh.Relay.Payments.Service.{
  Faults, CreateInvoiceRequest, CreateInvoiceResponse, create_invoice,
}
use nostr_mesh.Relay.Payments.Invoicing.{
  PageLimits, is_rate_limited, is_admitted_user, amount_of, admission_fees, Reply, page,
  too_many_requests, no_fee_required, already_admitted, unable_to_create, Bech32, check_body,
  Request, show_invoice, request_invoice, answer_body, post_invoice,
}
use nostr_mesh.Relay.Payments.Laws.Service.{create_invoice_failed}

module _ (redis : SortedSets) (bech32 : Bech32) (faults : Faults) (settings : Settings)
    (invoice_limits : PageLimits) (relay_name : Str)
    (processor : CreateInvoiceRequest → Result Failure CreateInvoiceResponse) where
  open redis use {Cache}

  -- A reply and what it leaves: the database as it was, or an invoice that was created and is shown,
  -- for a key that is owed a fee and not admitted.
  pub data Outcome (pubkey_read : Result Reply Str) (date : ℕ) (db : Db) : Reply × Db → Type 0 where
    refused : (reply : Reply) → Outcome pubkey_read date db (reply, db)
    invoiced :
        (pubkey : Str) (invoice : Invoice) (db' : Db)
        → pubkey_read ≡ ok pubkey
        → (length (admission_fees pubkey settings) == 0) ≡ false
        → is_admitted_user settings.event_limits.min_balance (find_user (from_hex pubkey) db.users)
          ≡ false
        → create_invoice faults processor date pubkey
            (amount_of pubkey 0 (admission_fees pubkey settings))
            (relay_name ++ (codes " Admission Fee for " ++ bech32.to_bech32 pubkey))
            db
          ≡ (ok invoice, db')
        → Outcome pubkey_read date db
            (page invoice pubkey (amount_of pubkey 0 (admission_fees pubkey settings) / 1000), db')

  abbrev chosen : Bool → Cache → Db → Reply × Db → Reply × Db × Cache
  chosen limited after db (reply, db') =
      if limited then (too_many_requests, db, after) else (reply, db', after)

  limited_or :
      (limited : Bool) (after : Cache) (read : Result Reply Str) (date : ℕ) (db : Db)
      → (answer : Reply × Db) → Outcome read date db answer
      → Outcome read date db
          ((chosen limited after db answer).0, (chosen limited after db answer).1)
  limited_or true after read date db answer outcome = refused too_many_requests
  limited_or false after read date db answer outcome = outcome

  abbrev created_for : ℕ → Str → Db → Result Failure Invoice × Db
  created_for date pubkey =
      create_invoice faults processor date pubkey
        (amount_of pubkey 0 (admission_fees pubkey settings))
        (relay_name ++ (codes " Admission Fee for " ++ bech32.to_bech32 pubkey))

  shown :
      (date : ℕ) (pubkey : Str) (db : Db) (result : Result Failure Invoice)
      → (length (admission_fees pubkey settings) == 0) ≡ false
      → is_admitted_user settings.event_limits.min_balance (find_user (from_hex pubkey) db.users)
        ≡ false
      → (created_for date pubkey db).0 ≡ result
      → Outcome (ok pubkey) date db (
          show_invoice redis bech32 faults settings invoice_limits relay_name processor pubkey
            (amount_of pubkey 0 (admission_fees pubkey settings))
            (result, (created_for date pubkey db).1))
  shown date pubkey db (ok invoice) owed foreign h =
      invoiced pubkey invoice (created_for date pubkey db).1 refl owed foreign
        (ap (λ r. (r, (created_for date pubkey db).1)) h)
  shown date pubkey db (err e) owed foreign h =
      subst (λ (after : Db). Outcome (ok pubkey) date db (unable_to_create, after))
        (sym (create_invoice_failed faults settings date processor pubkey _ _ db e h))
        (refused unable_to_create)

  request_invoice-Outcome :
      (date : ℕ) (pubkey : Str) (db : Db)
      → Outcome (ok pubkey) date db (
          request_invoice redis bech32 faults settings invoice_limits relay_name processor date
            pubkey db)
  unfolding request_invoice
  request_invoice-Outcome date pubkey db =
      elim (Bool-cases (length (admission_fees pubkey settings) == 0)) [
        | inl free ↦ rw free (refused no_fee_required)
        | inr owed ↦
            elim (Bool-cases (
              is_admitted_user settings.event_limits.min_balance
                (find_user (from_hex pubkey) db.users))) [
                  | inl known ↦ rw (owed, known) (refused already_admitted)
                  | inr foreign ↦ rw (owed, foreign) (shown date pubkey db _ owed foreign refl)
                ]
      ]

  answer_body-Outcome :
      (date : ℕ) (read : Result Reply Str) (db : Db)
      → Outcome read date db (
          answer_body redis bech32 faults settings invoice_limits relay_name processor date read db)
  answer_body-Outcome date (err reply) db = refused reply
  answer_body-Outcome date (ok pubkey) db = request_invoice-Outcome date pubkey db

  -- A request for an invoice either leaves the database as it was, or is answered by the page of an
  -- invoice that was created: for a key that the body gives, to which a fee applies and whose user is
  -- not admitted, over the sum of the fees that apply, shown in satoshis.
  pub post_invoice-Outcome :
      (times : ℕ → ℕ) (date : ℕ) (request : Request) (db : Db) (cache : Cache)
      → Outcome (check_body bech32 request.body) date db (
        (post_invoice redis bech32 faults settings invoice_limits relay_name processor times date
            request db cache).0,
        (post_invoice redis bech32 faults settings invoice_limits relay_name processor times date
            request db cache).1,
      )
  unfolding post_invoice
  post_invoice-Outcome times date request db cache =
      let (limited, after) =
        is_rate_limited redis (codes "invoice") invoice_limits times request.address cache in
      limited_or limited after (check_body bech32 request.body) date db
        (answer_body redis bech32 faults settings invoice_limits relay_name processor date
          (check_body bech32 request.body) db)
        (answer_body-Outcome date (check_body bech32 request.body) db)
