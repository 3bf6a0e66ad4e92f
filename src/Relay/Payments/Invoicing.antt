-- ===== src/Relay/Payments/Invoicing.antt =====
-- The request for an invoice and the question whether a user is admitted:
-- nostream-share/src/controllers/invoices/post-invoice-controller.ts and
-- nostream-share/src/controllers/admission/get-admission-check-controller.ts. The pages, the remote
-- address, bech32, Redis and the clock are arguments.
use nostr_mesh.Prelude.{
  ℕ, ◌+◌, ◌/◌, Bool, true, false, not, ◌&&◌, ◌||◌, Option, none, some, List, [], ◌∷◌, ◌++◌, leb,
  ◌==◌, if◌then◌else◌, length, any,
}
use nostr_mesh.Prelude.Text.{Str, codes, ◌===◌, starts_with, is_hash_lower}
use nostr_mesh.Prelude.Result.{Result, ok, err, ◌>>◌, throw_if}
use nostr_mesh.Prelude.Bytes.{from_hex}
use nostr_mesh.Relay.Settings.{FeeSchedule, Settings}
use nostr_mesh.Relay.Admission.{some_in}
use nostr_mesh.Relay.RateLimit.{SortedSets, RateLimit, hit_each}
use nostr_mesh.Relay.Payments.Data.{DbUser, Db, Invoice, Failure}
use nostr_mesh.Relay.Payments.Tables.{find_user}
use nostr_mesh.Relay.Payments.Service.{
  Faults, CreateInvoiceRequest, CreateInvoiceResponse, create_invoice, is_applicable_fee,
}

-- `limits.invoice` and `limits.admissionCheck`.
pub record PageLimits : Type 0 where
  pub rate_limits : List RateLimit
  pub ip_whitelist : Option (List Str)

module _ (redis : SortedSets) where
  open redis use {Cache}

  -- `Array.isArray(ipWhitelist) && !ipWhitelist.includes(remoteAddress)`.
  abbrev is_foreign : Option (List Str) → Str → Bool
  is_foreign none address = false
  is_foreign (some list) address = not (any (λ other. other === address) list)

  -- `isRateLimited` of both controllers, by the word for the page in the key.
  unfoldable pub is_rate_limited : Str → PageLimits → (ℕ → ℕ) → Str → Cache → Bool × Cache
  is_rate_limited page limits times address cache =
      let counted = hit_each redis times 0 address page limits.rate_limits false cache in
      if is_foreign limits.ip_whitelist address then counted else (false, cache)

-- `user && user.isAdmitted && (!minBalance || user.balance >= minBalance)`.
abbrev has_balance : Option ℕ → ℕ → Bool
has_balance none balance = true
has_balance (some minimum) balance = minimum == 0 || leb minimum balance

unfoldable pub is_admitted_user : Option ℕ → Option DbUser → Bool
is_admitted_user minimum none = false
is_admitted_user minimum (some user) = user.is_admitted && has_balance minimum user.balance

-- The fees that apply, `filter(isApplicableFee)`.
unfoldable pub applicable_fees : Str → List FeeSchedule → List FeeSchedule
applicable_fees pubkey [] = []
applicable_fees pubkey (fee ∷ fees) =
    let rest = applicable_fees pubkey fees in
    if is_applicable_fee pubkey fee then fee ∷ rest else rest

-- The sum over them, which looks at the white list again, for the whole key.
unfoldable pub amount_of : Str → ℕ → List FeeSchedule → ℕ
amount_of pubkey sum [] = sum
amount_of pubkey sum (fee ∷ fees) =
    amount_of pubkey
      (if fee.enabled && not (some_in fee.whitelisted_pubkeys (λ key. key === pubkey))
        then fee.amount + sum
        else sum)
      fees

unfoldable pub admission_fees : Str → Settings → List FeeSchedule
admission_fees pubkey settings = elim settings.admission_fees [
  | none ↦ []
  | some fees ↦ applicable_fees pubkey fees
]

-- What the handler reads of the body of a request; a public key that is no text is `none`.
pub record Body : Type 0 where
  pub tos_accepted : Str
  pub fee_schedule : Str
  pub pubkey : Option Str

pub data Reply : Type 0 where
  -- Status 200: the invoice, the key, and the amount in satoshis.
  page : Invoice → Str → ℕ → Reply
  -- Status 429.
  too_many_requests : Reply
  -- Status 400.
  invalid_request tos_not_accepted invalid_fee pubkey_missing invalid_npub unknown_format : Reply
  no_fee_required already_admitted : Reply
  -- Status 500.
  unable_to_create : Reply

-- bech32 for `npub`: `fromBech32` may throw.
pub record Bech32 : Type 0 where
  pub from_bech32 : Str → Option Str
  pub to_bech32 : Str → Str

module _ (bech32 : Bech32) where
  -- The key in hex, or why there is none.
  unfoldable pub read_pubkey : Option Str → Result Reply Str
  read_pubkey none = err pubkey_missing
  read_pubkey (some raw) =
      if is_hash_lower raw
      then ok raw
      else if starts_with raw (codes "npub1")
      then elim (bech32.from_bech32 raw) [ none ↦ err invalid_npub | some pubkey ↦ ok pubkey ]
      else err unknown_format

  -- The checks of the body.
  unfoldable pub check_body : Option Body → Result Reply Str
  check_body none = err invalid_request
  check_body (some body) = do
    throw_if (not (body.tos_accepted === codes "yes")) tos_not_accepted
    throw_if (not (body.fee_schedule === codes "admission")) invalid_fee
    read_pubkey body.pubkey

-- What a request reads besides its body.
pub record Request : Type 0 where
  pub address : Str
  pub body : Option Body

module _ (redis : SortedSets) (bech32 : Bech32) (faults : Faults) (settings : Settings)
    (invoice_limits : PageLimits) (relay_name : Str)
    (processor : CreateInvoiceRequest → Result Failure CreateInvoiceResponse) where
  open redis use {Cache}

  abbrev pub show_invoice : Str → ℕ → Result Failure Invoice × Db → Reply × Db
  show_invoice pubkey amount (ok invoice, db) = (page invoice pubkey (amount / 1000), db)
  show_invoice pubkey amount (err e, db) = (unable_to_create, db)

  -- The handler behind the checks of the body.
  unfoldable pub request_invoice : ℕ → Str → Db → Reply × Db
  request_invoice date pubkey db =
      let fees = admission_fees pubkey settings in
      let amount = amount_of pubkey 0 fees in
      let description = relay_name ++ (codes " Admission Fee for " ++ bech32.to_bech32 pubkey) in
      let user = find_user (from_hex pubkey) db.users in
      if length fees == 0
      then (no_fee_required, db)
      else if is_admitted_user settings.event_limits.min_balance user
      then (already_admitted, db)
      else show_invoice pubkey amount
          (create_invoice faults processor date pubkey amount description db)

  abbrev pub answer_body : ℕ → Result Reply Str → Db → Reply × Db
  answer_body date (err reply) db = (reply, db)
  answer_body date (ok pubkey) db = request_invoice date pubkey db

  -- `handleRequest` of the request for an invoice.
  unfoldable pub post_invoice : (ℕ → ℕ) → ℕ → Request → Db → Cache → Reply × Db × Cache
  post_invoice times date request db cache =
      let (limited, after) =
        is_rate_limited redis (codes "invoice") invoice_limits times request.address cache in
      let (reply, db') = answer_body date (check_body bech32 request.body) db in
      if limited then (too_many_requests, db, after) else (reply, db', after)

-- The answer of an admission check.
pub data CheckReply : Type 0 where
  user_admitted : Bool → CheckReply
  check_limited : CheckReply

module _ (redis : SortedSets) (settings : Settings) (check_limits : PageLimits) where
  open redis use {Cache}

  -- `handleRequest` of the admission check.
  unfoldable pub get_admission_check :
      (ℕ → ℕ) → Str → Str → List DbUser → Cache → CheckReply × Cache
  get_admission_check times address pubkey users cache =
      let (limited, after) =
        is_rate_limited redis (codes "admission-check") check_limits times address cache in
      let user = find_user (from_hex pubkey) users in
      (
        if limited
            then check_limited
            else user_admitted (is_admitted_user settings.event_limits.min_balance user),
        after,
      )
