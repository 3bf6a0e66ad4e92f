-- ===== src/Relay/Payments/Laws/Confirmation.antt =====
-- The stored function confirm_invoice, by which the invoice repository confirms a payment.
use nostr_mesh.Prelude.{
  ℕ, ◌+◌, ◌≡◌, refl, sym, ap, subst, ◌∙◌, inl, inr, true, Option, none, some, List, arith,
  if◌then◌else◌, Bool-cases,
}
use nostr_mesh.Prelude.Text.{Str, ◌===◌, ===_iff}
use nostr_mesh.Prelude.Result.{ok, >>=-eq-ok, ok-injective}
use nostr_mesh.Prelude.Bytes.{Bytes}
use nostr_mesh.Relay.Payments.Data.{DbInvoice, DbUser, Db, fits_bigint}
use nostr_mesh.Relay.Payments.Tables.{
  find_user, get_balance, credit_user, find_invoice, update_invoice, credit_of, with_payment,
  first_confirmation, confirm_row, confirm_found, confirm_invoice,
}
use nostr_mesh.Relay.Payments.Laws.Invoices.{find_invoice-update}
use nostr_mesh.Relay.Payments.Laws.Users.{
  apart_of, is_admitted, HasBalances, is_admitted_raised, is_admitted_same, get_balance_same,
  get_balance_raised, find_user-credit, find_user-credit_other, credit_user-HasBalances,
}

plus_zero : (n : ℕ) → n ≡ n + 0
plus_zero n = omega arith

-- No payment is due for the invoice: it is not stored, or it is confirmed.
pub data IsSettled (id : Str) (db : Db) : Type 0 where
  missing : find_invoice id db.invoices ≡ none → IsSettled id db
  done :
      (row : DbInvoice) (date : ℕ)
      → find_invoice id db.invoices ≡ some row
      → row.confirmed_at ≡ some date
      → IsSettled id db

-- A confirmation that went through: nothing was due, or the payee was credited and the row marked.
data Confirmed (id : Str) (amount date now : ℕ) (db db' : Db) : Type 0 where
  nothing : IsSettled id db → db' ≡ db → Confirmed id amount date now db db'
  credited :
      (row : DbInvoice) (users : List DbUser)
      → find_invoice id db.invoices ≡ some row
      → row.confirmed_at ≡ none
      → credit_user row.pubkey (credit_of row.unit amount) db.users ≡ ok users
      → db' ≡ record db {
        users = users;
        invoices = update_invoice id (with_payment amount date now) db.invoices;
      }
      → Confirmed id amount date now db db'

module _ (id : Str) (amount date now : ℕ) where
  first_confirmation-Confirmed :
      (row : DbInvoice) (db db' : Db)
      → find_invoice id db.invoices ≡ some row
      → row.confirmed_at ≡ none
      → first_confirmation id amount date now row db ≡ ok db'
      → Confirmed id amount date now db db'
  unfolding first_confirmation
  first_confirmation-Confirmed row db db' found fresh h =
      let (users, paid, made) =
        >>=-eq-ok (credit_user row.pubkey (credit_of row.unit amount) db.users) _ h in
      credited row users found fresh paid (sym (ok-injective made))

  confirm_row-Confirmed :
      (row : DbInvoice) (confirmed : Option ℕ) (db db' : Db)
      → find_invoice id db.invoices ≡ some row
      → row.confirmed_at ≡ confirmed
      → confirm_row id amount date now row db ≡ ok db'
      → Confirmed id amount date now db db'
  unfolding first_confirmation
  confirm_row-Confirmed row none db db' found fresh h =
      first_confirmation-Confirmed row db db' found fresh (rw fresh at h)
  confirm_row-Confirmed row (some before) db db' found fresh h =
      nothing (done row before found fresh) (sym (ok-injective (rw fresh at h)))

  confirm_found-Confirmed :
      (row : Option DbInvoice) (db db' : Db)
      → find_invoice id db.invoices ≡ row
      → confirm_found id amount date now row db ≡ ok db'
      → Confirmed id amount date now db db'
  confirm_found-Confirmed none db db' found h = nothing (missing found) (sym (ok-injective h))
  confirm_found-Confirmed (some row) db db' found h =
      confirm_row-Confirmed row row.confirmed_at db db' found refl h

  confirm_invoice-Confirmed :
      (db db' : Db)
      → confirm_invoice id amount date now db ≡ ok db'
      → Confirmed id amount date now db db'
  unfolding confirm_invoice
  confirm_invoice-Confirmed db db' h = elim (Bool-cases (fits_bigint amount)) [
    | inl fits ↦ confirm_found-Confirmed (find_invoice id db.invoices) db db' refl (rw fits at h)
    | inr over ↦ cc (rw over at h)
  ]

  confirm_settled :
      (db : Db)
      → IsSettled id db
      → fits_bigint amount ≡ true
      → confirm_invoice id amount date now db ≡ ok db
  unfolding confirm_invoice
  confirm_settled db (missing absent) fits = rw (fits, absent) refl
  confirm_settled db (done row before found confirmed) fits = rw (fits, found) (rw confirmed refl)

  confirm_invoice-IsSettled :
      (db db' : Db) → confirm_invoice id amount date now db ≡ ok db' → IsSettled id db'
  confirm_invoice-IsSettled db db' h = elim (confirm_invoice-Confirmed db db' h) [
    | nothing settled same ↦ subst (IsSettled id) (sym same) settled
    | credited row users found fresh paid made ↦ subst (IsSettled id) (sym made) (
        done (with_payment amount date now row) date
          (find_invoice-update id (with_payment amount date now) (λ r. refl) db.invoices row found)
          refl)
  ]

-- Once a confirmation of an invoice has gone through, any further one changes nothing, whatever amount,
-- date and time it has, as long as the amount fits its column: a payment is credited at most once.
pub confirm_twice :
    (id : Str) (amount date now amount' date' now' : ℕ) (db db' : Db)
    → confirm_invoice id amount date now db ≡ ok db'
    → fits_bigint amount' ≡ true
    → confirm_invoice id amount' date' now' db' ≡ ok db'
confirm_twice id amount date now amount' date' now' db db' h fits =
    confirm_settled id amount' date' now' db'
      (confirm_invoice-IsSettled id amount date now db db' h) fits

abbrev due_of_row : Option ℕ → DbInvoice → ℕ → Bytes → ℕ
due_of_row (some _) row amount key = 0
due_of_row none row amount key = if row.pubkey === key then credit_of row.unit amount else 0

-- What a confirmation adds to the balance of a user: the amount in thousandths of a satoshi by the
-- unit of the stored invoice, for the user of an invoice that is stored and not confirmed.
unfoldable pub due : Str → ℕ → Bytes → Db → ℕ
due id amount key db = elim (find_invoice id db.invoices) [
  | none ↦ 0
  | some row ↦ due_of_row row.confirmed_at row amount key
]

module _ (id : Str) (amount date now : ℕ) where
  settled_due : (key : Bytes) (db : Db) → IsSettled id db → due id amount key db ≡ 0
  unfolding due
  settled_due key db (missing absent) = rw (due, absent) refl
  settled_due key db (done row before found confirmed) =
      rw (due, found) (ap (λ o. due_of_row o row amount key) confirmed)

  fresh_due :
      (key : Bytes) (db : Db) (row : DbInvoice)
      → find_invoice id db.invoices ≡ some row
      → row.confirmed_at ≡ none
      → due id amount key db ≡ (if row.pubkey === key then credit_of row.unit amount else 0)
  unfolding due
  fresh_due key db row found fresh = rw (due, found) (ap (λ o. due_of_row o row amount key) fresh)

  credited_balance :
      (key : Bytes) (u : DbUser) (row : DbInvoice) (users users' : List DbUser)
      → find_user key users ≡ some u
      → credit_user row.pubkey (credit_of row.unit amount) users ≡ ok users'
      → get_balance key users'
        ≡ get_balance key users + (if row.pubkey === key then credit_of row.unit amount else 0)
  credited_balance key u row users users' known paid = elim (Bool-cases (row.pubkey === key)) [
    | inl same ↦ rw same (
        subst (λ k. get_balance k users' ≡ get_balance k users + credit_of row.unit amount)
          ((===_iff row.pubkey key).0 same)
          (get_balance_raised row.pubkey users users' u (credit_of row.unit amount)
            (ap (λ k. find_user k users) ((===_iff row.pubkey key).0 same) ∙ known)
            (find_user-credit row.pubkey (credit_of row.unit amount) users users' paid)))
    | inr other ↦ rw other (
        get_balance_same key users users' (
          find_user-credit_other row.pubkey (credit_of row.unit amount) key users users'
            (apart_of row.pubkey key other) paid)
        ∙ plus_zero (get_balance key users))
  ]

  -- A confirmation that goes through adds to the balance of a known user what is due to them, and
  -- nothing else.
  pub get_balance-confirm :
      (key : Bytes) (u : DbUser) (db db' : Db)
      → find_user key db.users ≡ some u
      → confirm_invoice id amount date now db ≡ ok db'
      → get_balance key db'.users ≡ get_balance key db.users + due id amount key db
  get_balance-confirm key u db db' known h =
      elim (confirm_invoice-Confirmed id amount date now db db' h) [
        | nothing settled same ↦
            ap (λ (d : Db). get_balance key d.users) same
            ∙ plus_zero (get_balance key db.users)
            ∙ ap (λ n. get_balance key db.users + n) (sym (settled_due key db settled))
        | credited row users found fresh paid made ↦
            ap (λ (d : Db). get_balance key d.users) made
            ∙ credited_balance key u row db.users users known paid
            ∙ ap (λ n. get_balance key db.users + n) (sym (fresh_due key db row found fresh))
      ]

  credited_admission :
      (key : Bytes) (row : DbInvoice) (users users' : List DbUser)
      → credit_user row.pubkey (credit_of row.unit amount) users ≡ ok users'
      → is_admitted key users' ≡ is_admitted key users
  credited_admission key row users users' paid = elim (Bool-cases (row.pubkey === key)) [
    | inl same ↦
        subst (λ k. is_admitted k users' ≡ is_admitted k users) ((===_iff row.pubkey key).0 same)
          (is_admitted_raised row.pubkey users users' (credit_of row.unit amount)
            (find_user-credit row.pubkey (credit_of row.unit amount) users users' paid))
    | inr other ↦ is_admitted_same key users users' (
        find_user-credit_other row.pubkey (credit_of row.unit amount) key users users'
          (apart_of row.pubkey key other) paid)
  ]

  pub is_admitted-confirm :
      (key : Bytes) (db db' : Db)
      → confirm_invoice id amount date now db ≡ ok db'
      → is_admitted key db'.users ≡ is_admitted key db.users
  is_admitted-confirm key db db' h = elim (confirm_invoice-Confirmed id amount date now db db' h) [
    | nothing settled same ↦ ap (λ (d : Db). is_admitted key d.users) same
    | credited row users found fresh paid made ↦
        ap (λ (d : Db). is_admitted key d.users) made
        ∙ credited_admission key row db.users users paid
  ]

  pub confirm_invoice-HasBalances :
      (db db' : Db)
      → HasBalances db.users
      → confirm_invoice id amount date now db ≡ ok db'
      → HasBalances db'.users
  confirm_invoice-HasBalances db db' small h =
      elim (confirm_invoice-Confirmed id amount date now db db' h) [
        | nothing settled same ↦ subst (λ (d : Db). HasBalances d.users) (sym same) small
        | credited row users found fresh paid made ↦
            subst (λ (d : Db). HasBalances d.users) (sym made)
              (credit_user-HasBalances row.pubkey (credit_of row.unit amount) db.users users small
                paid)
      ]
