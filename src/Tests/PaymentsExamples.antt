-- ===== src/Tests/PaymentsExamples.antt =====
-- The theorems on the payments of the relay at concrete inputs.
use nostr_mesh.Prelude.{ltb, leb, ℕ, ◌+◌, ◌≡◌, refl, true, false, ◌&&◌, ◌||◌, none, some, [], ◌∷◌}
use nostr_mesh.Prelude.Text.{codes, ◌===◌}
use nostr_mesh.Prelude.Result.{Result, ok, err}
use nostr_mesh.Prelude.Bytes.{Bytes, from_hex}
use nostr_mesh.Relay.Settings.{Settings}
use nostr_mesh.Tests.RelayExamples.{settings}
use nostr_mesh.Relay.Payments.Data.{from_db_invoice}
use nostr_mesh.Relay.Payments.Data.{
  msats, sats, pending, completed, DbInvoice, DbUser, Db, InvoiceUpdate, Failure, thrown,
  is_completed,
}
use nostr_mesh.Relay.Payments.Tables.{
  find_user, find_by_id, update_status, get_balance, credit_user, find_invoice, update_invoice,
  credit_of, first_confirmation, confirm_invoice, or_default, upsert_user,
}
use nostr_mesh.Relay.Payments.Service.{
  Faults, CreateInvoiceRequest, CreateInvoiceResponse, create_invoice, is_paid, admission_fee,
  to_msats, confirm, update_invoice_status, in_transaction, check_confirmable, admit, admission_fee,
  add_fees, is_applicable_fee, to_msats,
}
use nostr_mesh.Relay.Payments.Callbacks.{
  LnbitsInvoice, already_paid, confirm_and_notify, lnbits_callback, OpenNodeInvoice,
  opennode_status, opennode_callback,
}
use nostr_mesh.Relay.Payments.Invoicing.{
  PageLimits, Bech32, check_body, Request, Reply, post_invoice,
}
use nostr_mesh.Relay.Payments.Laws.Lnbits.{lnbits_repeated}
use nostr_mesh.Relay.Payments.Zebedee.{ZebedeeInvoice, ZebedeeSettings, zebedee_callback}
use nostr_mesh.Relay.Payments.Callbacks.{confirmed}
use nostr_mesh.Relay.Payments.Service.{send_invoice_update_notification}
use nostr_mesh.Prelude.Text.{includes}
use nostr_mesh.Relay.Payments.Laws.Zebedee.{zebedee_confirmed}
use nostr_mesh.Relay.Payments.Laws.Requests.{Outcome, post_invoice-Outcome}
use nostr_mesh.Tests.Instances.{in_memory}
use nostr_mesh.Relay.Payments.Laws.Users.{is_admitted}
use nostr_mesh.Relay.Payments.Laws.Confirmation.{due, confirm_twice, get_balance-confirm}
use nostr_mesh.Relay.Payments.Laws.Service.{confirm-admission}
use nostr_mesh.Relay.Payments.Laws.Callbacks.{opennode_answer, opennode_unconfirmed}
use nostr_mesh.Relay.Payments.Nodeless.{NodelessInvoice, is_signed, nodeless_callback}
use nostr_mesh.Relay.Payments.Laws.Nodeless.{nodeless_callback_unpaid}
use nostr_mesh.Relay.Payments.Lnbits.{lnbits_request}
use nostr_mesh.Relay.Payments.Laws.Tokens.{Granted, lnbits_request-Granted}
use nostr_mesh.Relay.Payments.Callbacks.{LnbitsInvoice}
use nostr_mesh.Relay.Payments.Data.{Failure, thrown}
use nostr_mesh.Prelude.Text.{Str}
use nostr_mesh.Prelude.{ltb, leb, ◌⊎◌}

abbrev pub payee : Bytes
payee = 171 ∷ []

abbrev pub user : DbUser
user = record {
  pubkey = payee;
  is_admitted = false;
  balance = 5;
  tos_accepted_at = none;
  created_at = 1;
  updated_at = 1;
}

abbrev pub open_invoice : DbInvoice
open_invoice = record {
  id = codes "i";
  pubkey = payee;
  bolt11 = codes "lnbc";
  amount_requested = 3;
  amount_paid = none;
  unit = sats;
  status = pending;
  description = [];
  confirmed_at = none;
  expires_at = none;
  updated_at = 1;
  created_at = 1;
  verify_url = none;
}

abbrev pub before : Db
before = record { users = user ∷ []; invoices = open_invoice ∷ []; notices = [] }

abbrev after : Db
after = record {
  users = record user { balance = 3005 } ∷ [];
  invoices =
      record open_invoice { amount_paid = some 3; confirmed_at = some 9; updated_at = 10 } ∷ [];
  notices = [];
}

first_time : confirm_invoice (codes "i") 3 9 10 before ≡ ok after
unfolding confirm_invoice find_invoice first_confirmation credit_user credit_of update_invoice ◌===◌
first_time = refl

confirm_twice_example : confirm_invoice (codes "i") 7 11 12 after ≡ ok after
confirm_twice_example = confirm_twice (codes "i") 3 9 10 7 11 12 before after first_time refl

known : find_user payee before.users ≡ some user
unfolding find_user ◌===◌
known = refl

get_balance-confirm_example :
    get_balance payee after.users ≡ get_balance payee before.users + due (codes "i") 3 payee before
get_balance-confirm_example =
    get_balance-confirm (codes "i") 3 9 10 payee user before after known first_time

abbrev pub faultless : Faults
faultless = record { begin = none; commit = none }

abbrev update : InvoiceUpdate
update = record {
  id = codes "i";
  pubkey = codes "ab";
  bolt11 = codes "lnbc";
  unit = some sats;
  status = completed;
  amount_paid = some 3;
  confirmed_at = some 9;
}

abbrev pub charging : Settings
charging = record settings {
  admission_fees = some (
      record {
        enabled = true;
        amount = 2000;
        whitelisted_pubkeys = none;
        whitelisted_event_kinds = none;
      }
      ∷ []);
}

-- The state after the confirmation, with the user admitted.
abbrev admitted : Db
admitted = record after {
  users =
      record user { balance = 3005; is_admitted = true; tos_accepted_at = some 10; updated_at = 10 }
      ∷ [];
}

went_through : confirm faultless charging 10 update before ≡ (ok tt, admitted)
unfolding confirm in_transaction check_confirmable confirm_invoice find_invoice first_confirmation
    credit_user credit_of update_invoice admit is_paid admission_fee add_fees is_applicable_fee
    to_msats upsert_user ◌===◌ from_hex
went_through = refl

confirm-admission_example :
    (amount : ℕ) × (update.amount_paid ≡ some amount)
    × (is_completed update.status ≡ true)
    × (is_admitted payee admitted.users ≡ (
        is_admitted payee before.users
        || ((from_hex update.pubkey === payee)
            && (ltb 0 (admission_fee update.pubkey charging)
                && leb (admission_fee update.pubkey charging) (to_msats update.unit amount)))))
confirm-admission_example =
    confirm-admission faultless charging 10 payee update before admitted went_through

abbrev failing : Faults
failing = record { begin = none; commit = some (thrown (codes "serialization")) }

commit_failed : (confirm failing charging 10 update before).0 ≡ err (thrown (codes "serialization"))
unfolding confirm in_transaction check_confirmable confirm_invoice find_invoice first_confirmation
    credit_user credit_of update_invoice ◌===◌
commit_failed = refl

abbrev refusing : CreateInvoiceRequest → Result Failure CreateInvoiceResponse
refusing request = err (thrown (codes "refused"))

not_created :
    (create_invoice faultless refusing 10 (codes "cd") 3 [] before).0
    ≡ err (thrown (codes "refused"))
unfolding create_invoice in_transaction
not_created = refl

abbrev paid_word : OpenNodeInvoice
paid_word = record {
  id = codes "i";
  pubkey = codes "ab";
  amount_requested = 3;
  status = codes "paid";
}

stored : find_invoice (codes "i") before.invoices ≡ some open_invoice
unfolding find_invoice ◌===◌
stored = refl

opennode_unconfirmed_example :
    ((opennode_callback faultless charging 10 20 paid_word before).0
      ≡ opennode_answer (is_completed (or_default pending (opennode_status (codes "paid")))))
    × ((opennode_callback faultless charging 10 20 paid_word before).1.users ≡ before.users)
opennode_unconfirmed_example =
    opennode_unconfirmed faultless charging 10 20 paid_word before open_invoice stored refl

abbrev in_msats : InvoiceUpdate
in_msats = record update { unit = some msats }

abbrev no_limits : PageLimits
no_limits = record { rate_limits = []; ip_whitelist = none }

abbrev no_bech32 : Bech32
no_bech32 = record { from_bech32 = λ s. none; to_bech32 = λ s. s }

abbrev asking : Request
asking = record {
  address = codes "::1";
  body = some (record {
    tos_accepted = codes "yes";
    fee_schedule = codes "admission";
    pubkey = some (codes "npub1");
  });
}

abbrev nothing : in_memory.Cache
nothing key = []

abbrev asked : Reply × Db × in_memory.Cache
asked =
    post_invoice in_memory no_bech32 faultless charging no_limits (codes "relay") refusing (λ n. n)
      10 asking before nothing

post_invoice-Outcome_example :
    Outcome in_memory no_bech32 faultless charging no_limits
      (codes "relay")
      refusing
      (check_body no_bech32 asking.body)
      10
      before
      (asked.0, asked.1)
post_invoice-Outcome_example =
    post_invoice-Outcome in_memory no_bech32 faultless charging no_limits (codes "relay") refusing
      (λ n. n) 10 asking before nothing

abbrev paid_invoice : LnbitsInvoice
paid_invoice = record {
  id = codes "i";
  pubkey = codes "ab";
  bolt11 = codes "lnbc";
  amount_requested = 3;
  unit = sats;
  status = completed;
  confirmed_at = some 9;
}

lnbits_threw :
    (lnbits_callback failing charging 10 20 (codes "i") (ok paid_invoice) before).0
    ≡ err (thrown (codes "serialization"))
unfolding lnbits_callback confirm_and_notify confirm in_transaction check_confirmable
    confirm_invoice find_invoice find_by_id update_invoice_status update_status first_confirmation
    credit_user credit_of update_invoice ◌===◌ from_db_invoice
lnbits_threw = refl

lnbits_repeated_example :
    ((lnbits_callback faultless charging 30 40
        (codes "i")
        (ok paid_invoice)
        (lnbits_callback failing charging 10 20 (codes "i") (ok paid_invoice) before).1).0
      ≡ ok already_paid)
    × ((lnbits_callback faultless charging 30 40
          (codes "i")
          (ok paid_invoice)
          (lnbits_callback failing charging 10 20 (codes "i") (ok paid_invoice) before).1).1.users
        ≡ before.users)
lnbits_repeated_example =
    lnbits_repeated failing faultless charging 10 20 30 40 paid_invoice before open_invoice
      (thrown (codes "serialization")) stored refl lnbits_threw

abbrev from_zebedee : ZebedeeInvoice
from_zebedee = record {
  id = codes "i";
  pubkey = codes "ab";
  amount_requested = 3;
  status = completed;
  confirmed_at = some 9;
}

abbrev zebedee : ZebedeeSettings
zebedee = record { ip_whitelist = codes "::1" ∷ []; processor = codes "zebedee" }

zebedee_answered :
    (zebedee_callback faultless charging zebedee 10 20 (codes "::1") from_zebedee before).0
    ≡ ok confirmed
unfolding zebedee_callback confirm_and_notify confirm in_transaction check_confirmable
    confirm_invoice find_invoice find_by_id update_invoice_status update_status first_confirmation
    credit_user credit_of update_invoice ◌===◌ from_db_invoice send_invoice_update_notification
    includes
zebedee_answered = refl

zebedee_confirmed_example :
    is_admitted payee
      (zebedee_callback faultless charging zebedee 10 20 (codes "::1") from_zebedee before).1.users
    ≡ (is_admitted payee before.users
        || ((from_hex from_zebedee.pubkey === payee)
            && (ltb 0 (admission_fee from_zebedee.pubkey charging)
                && leb (admission_fee from_zebedee.pubkey charging) 3)))
zebedee_confirmed_example =
    zebedee_confirmed faultless charging 10 20 payee zebedee (codes "::1") from_zebedee before
      zebedee_answered

abbrev overpaid : NodelessInvoice
overpaid = record {
  id = codes "i";
  pubkey = codes "ab";
  amount_requested = 3;
  unit = some sats;
  status = codes "overpaid";
}

both :
    (is_signed (codes "s") (some (codes "s"))
      && codes "nodeless" === codes "nodeless"
      && overpaid.status === codes "paid")
    ≡ false
unfolding ◌===◌
both = refl

nodeless_callback_unpaid_example :
    (nodeless_callback faultless charging
      (codes "nodeless")
      10
      20
      (codes "s")
      (some (codes "s"))
      overpaid
      before).1.users
    ≡ before.users
nodeless_callback_unpaid_example =
    nodeless_callback_unpaid faultless charging (codes "nodeless") 10 20 (codes "s")
      (some (codes "s")) overpaid before both

abbrev no_mac : Str → Str
no_mac digits = []

abbrev no_answer : Str → Result Failure LnbitsInvoice
no_answer hash = err (thrown (codes "no connection"))

lnbits_request-Granted_example :
    ((lnbits_request faultless charging
        (codes "lnbits")
        no_mac
        no_answer
        10
        20
        (some (codes "99:ab"))
        (some (codes "hash"))
        before).1
      ≡ before)
    ⊎ Granted faultless charging
        (codes "lnbits")
        no_mac
        no_answer
        10
        20
        (some (codes "99:ab"))
        (some (codes "hash"))
lnbits_request-Granted_example =
    lnbits_request-Granted faultless charging (codes "lnbits") no_mac no_answer 10 20
      (some (codes "99:ab")) (some (codes "hash")) before
