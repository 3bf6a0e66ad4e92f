-- ===== src/Relay/Payments/Laws/Users.antt =====
-- The statements on the table of users of nostream-share/src/repositories/user-repository.ts.
use nostr_mesh.Prelude.{
  ℕ, ◌+◌, ◌≡◌, refl, sym, ap, subst, ◌∙◌, ◌≢◌, inl, inr, Bool, true, false, Option, none, some,
  List, [], ◌∷◌, Bool-cases, All,
}
use nostr_mesh.Prelude.Text.{◌===◌, ===_iff, ===_refl}
use nostr_mesh.Prelude.Result.{ok, >>=-eq-ok, ok-injective}
use nostr_mesh.Prelude.Bytes.{Bytes}
use nostr_mesh.Relay.Payments.Data.{DbUser, fits_bigint}
use nostr_mesh.Relay.Payments.Tables.{
  find_user, UserPatch, upsert_user, balance_of, get_balance, credit_user, or_default, inserted,
  merged,
}

abbrev admitted_of : Option DbUser → Bool
admitted_of none = false
admitted_of (some u) = u.is_admitted

-- Whether the table holds a user who is admitted.
unfoldable pub is_admitted : Bytes → List DbUser → Bool
is_admitted pubkey users = admitted_of (find_user pubkey users)

abbrev pub admitting : Option ℕ → UserPatch
admitting tos = record { is_admitted = some true; tos_accepted_at = tos }

pub apart_of : (a b : Bytes) → (a === b) ≡ false → a ≢ b
apart_of a b other same = cc (sym other ∙ (===_iff a b).1 same)

different : (a b c : Bytes) → b ≢ c → (a === b) ≡ true → (a === c) ≡ false
different a b c apart same = elim (Bool-cases (a === c)) [
  | inl other ↦ absurd (apart (sym ((===_iff a b).0 same) ∙ (===_iff a c).0 other))
  | inr other ↦ other
]

find_user_nil : (key : Bytes) → find_user key [] ≡ none
unfolding find_user
find_user_nil key = refl

module _ (key : Bytes) (u : DbUser) (us : List DbUser) where
  find_user_here : (u.pubkey === key) ≡ true → find_user key (u ∷ us) ≡ some u
  unfolding find_user
  find_user_here here = rw here refl

  find_user_there : (u.pubkey === key) ≡ false → find_user key (u ∷ us) ≡ find_user key us
  unfolding find_user
  find_user_there there = rw there refl

module _ (pubkey : Bytes) (patch : UserPatch) (now : ℕ) where
  pub find_user-upsert :
      (users : List DbUser)
      → (u : DbUser) × (find_user pubkey (upsert_user pubkey patch now users) ≡ some u)
        × (u.is_admitted ≡ or_default (is_admitted pubkey users) patch.is_admitted)
        × (u.balance ≡ get_balance pubkey users)
  unfolding is_admitted upsert_user get_balance
  find_user-upsert [] = (
    inserted pubkey patch now,
    find_user_here pubkey _ [] (===_refl pubkey),
    rw (is_admitted, find_user_nil pubkey) refl,
    rw (get_balance, find_user_nil pubkey) refl,
  )
  find_user-upsert (u ∷ us) = elim (Bool-cases (u.pubkey === pubkey)) [
    | inl same ↦ (
      merged u patch now,
      rw same (find_user_here pubkey _ us same),
      rw (is_admitted, find_user_here pubkey u us same) refl,
      rw (get_balance, find_user_here pubkey u us same) refl,
    )
    | inr other ↦
        rw
          (
            is_admitted,
            get_balance,
            other,
            find_user_there pubkey u us other,
            find_user_there pubkey u _ other,
          )
          (find_user-upsert us)
  ]

  pub find_user-upsert_other :
      (key : Bytes) (users : List DbUser)
      → pubkey ≢ key
      → find_user key (upsert_user pubkey patch now users) ≡ find_user key users
  unfolding upsert_user
  find_user-upsert_other key [] apart =
      find_user_there key _ [] (different pubkey pubkey key apart (===_refl pubkey))
  find_user-upsert_other key (u ∷ us) apart = elim (Bool-cases (u.pubkey === pubkey)) [
    | inl same ↦ rw same (
        find_user_there key _ us (different u.pubkey pubkey key apart same)
        ∙ sym (find_user_there key u us (different u.pubkey pubkey key apart same)))
    | inr other ↦ rw other (elim (Bool-cases (u.pubkey === key)) [
      | inl here ↦ find_user_here key u _ here ∙ sym (find_user_here key u us here)
      | inr there ↦
          find_user_there key u _ there
          ∙ find_user-upsert_other key us apart
          ∙ sym (find_user_there key u us there)
    ])
  ]

-- The balances of a table fit their column.
abbrev pub HasBalances : List DbUser → Type 0
HasBalances = All (λ u. fits_bigint u.balance ≡ true)

pub upsert_user-HasBalances :
    (pubkey : Bytes) (patch : UserPatch) (now : ℕ) (users : List DbUser)
    → HasBalances users
    → HasBalances (upsert_user pubkey patch now users)
unfolding upsert_user
upsert_user-HasBalances pubkey patch now [] small = (refl, tt)
upsert_user-HasBalances pubkey patch now (u ∷ us) (first, small) =
    elim (Bool-cases (u.pubkey === pubkey)) [
      | inl same ↦ rw same (first, small)
      | inr other ↦ rw other (first, upsert_user-HasBalances pubkey patch now us small)
    ]

-- A row of `users` after its balance is raised.
abbrev pub raised : ℕ → DbUser → DbUser
raised amount u = record u { balance = u.balance + amount }

abbrev pub raised_option : ℕ → Option DbUser → Option DbUser
raised_option amount none = none
raised_option amount (some u) = some (raised amount u)

admitted_raised : (n : ℕ) (o : Option DbUser) → admitted_of (raised_option n o) ≡ admitted_of o
admitted_raised n none = refl
admitted_raised n (some u) = refl

module _ (key : Bytes) (users users' : List DbUser) where
  pub is_admitted_raised :
      (n : ℕ)
      → find_user key users' ≡ raised_option n (find_user key users)
      → is_admitted key users' ≡ is_admitted key users
  unfolding is_admitted
  is_admitted_raised n h = ap admitted_of h ∙ admitted_raised n (find_user key users)

  pub is_admitted_same :
      find_user key users' ≡ find_user key users → is_admitted key users' ≡ is_admitted key users
  unfolding is_admitted
  is_admitted_same h = ap admitted_of h

  pub is_admitted_some :
      (u : DbUser) → find_user key users ≡ some u → is_admitted key users ≡ u.is_admitted
  unfolding is_admitted
  is_admitted_some u h = ap admitted_of h

  pub get_balance_same :
      find_user key users' ≡ find_user key users → get_balance key users' ≡ get_balance key users
  unfolding get_balance
  get_balance_same h = ap balance_of h

  pub get_balance_raised :
      (u : DbUser) (n : ℕ)
      → find_user key users ≡ some u
      → find_user key users' ≡ raised_option n (find_user key users)
      → get_balance key users' ≡ get_balance key users + n
  unfolding get_balance
  get_balance_raised u n known h =
      ap balance_of (h ∙ ap (raised_option n) known) ∙ ap (λ b. b + n) (sym (ap balance_of known))

module _ (payee : Bytes) (amount : ℕ) where
  -- One row of the loop of the credit, in both cases.
  data Credited (u : DbUser) (us us' : List DbUser) : Type 0 where
    paid :
        (u.pubkey === payee) ≡ true
        → us' ≡ raised amount u ∷ us
        → fits_bigint (u.balance + amount) ≡ true
        → Credited u us us'
    passed :
        (rest : List DbUser)
        → (u.pubkey === payee) ≡ false
        → us' ≡ u ∷ rest
        → credit_user payee amount us ≡ ok rest
        → Credited u us us'

  credit_user-Credited :
      (u : DbUser) (us us' : List DbUser)
      → credit_user payee amount (u ∷ us) ≡ ok us'
      → Credited u us us'
  unfolding credit_user
  credit_user-Credited u us us' h = elim (Bool-cases (u.pubkey === payee)) [
    | inl same ↦ elim (Bool-cases (fits_bigint (u.balance + amount))) [
      | inl fits ↦ paid same (sym (ok-injective (rw (same, fits) at h))) fits
      | inr over ↦ cc (rw (same, over) at h)
    ]
    | inr other ↦
        let (rest, credited, made) = >>=-eq-ok (credit_user payee amount us) _ (rw other at h) in
        passed rest other (sym (ok-injective made)) credited
  ]

  credit_nil : (us' : List DbUser) → credit_user payee amount [] ≡ ok us' → us' ≡ []
  unfolding credit_user
  credit_nil us' h = sym (ok-injective h)

  pub find_user-credit :
      (users users' : List DbUser)
      → credit_user payee amount users ≡ ok users'
      → find_user payee users' ≡ raised_option amount (find_user payee users)
  find_user-credit [] users' h = rw (credit_nil users' h, find_user_nil payee) refl
  find_user-credit (u ∷ us) users' h = elim (credit_user-Credited u us users' h) [
    | paid same made fits ↦
        rw (made, find_user_here payee u us same) (find_user_here payee (raised amount u) us same)
    | passed rest other made credited ↦
        rw (made, find_user_there payee u us other, find_user_there payee u rest other)
          (find_user-credit us rest credited)
  ]

  pub find_user-credit_other :
      (key : Bytes) (users users' : List DbUser)
      → payee ≢ key
      → credit_user payee amount users ≡ ok users'
      → find_user key users' ≡ find_user key users
  find_user-credit_other key [] users' apart h = ap (find_user key) (credit_nil users' h)
  find_user-credit_other key (u ∷ us) users' apart h = elim (credit_user-Credited u us users' h) [
    | paid same made fits ↦
        let away = different u.pubkey payee key apart same in
        rw (made, find_user_there key u us away) (find_user_there key (raised amount u) us away)
    | passed rest other made credited ↦ rw made (elim (Bool-cases (u.pubkey === key)) [
      | inl here ↦ find_user_here key u rest here ∙ sym (find_user_here key u us here)
      | inr there ↦
          find_user_there key u rest there
          ∙ find_user-credit_other key us rest apart credited
          ∙ sym (find_user_there key u us there)
    ])
  ]

  pub credit_user-HasBalances :
      (users users' : List DbUser)
      → HasBalances users
      → credit_user payee amount users ≡ ok users'
      → HasBalances users'
  credit_user-HasBalances [] users' small h = subst HasBalances (sym (credit_nil users' h)) tt
  credit_user-HasBalances (u ∷ us) users' (first, small) h =
      elim (credit_user-Credited u us users' h) [
        | paid same made fits ↦ subst HasBalances (sym made) (fits, small)
        | passed rest other made credited ↦
            subst HasBalances (sym made) (first, credit_user-HasBalances us rest small credited)
      ]
