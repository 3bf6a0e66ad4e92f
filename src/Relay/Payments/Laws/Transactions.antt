-- ===== src/Relay/Payments/Laws/Transactions.antt =====
-- The transactions of nostream-share/src/database/transaction.ts: what one that threw leaves, and what
-- one that went through has run.
use nostr_mesh.Prelude.{◌≡◌, refl, ap, Option, none, some}
use nostr_mesh.Prelude.Result.{Result, ok, err, ok-injective}
use nostr_mesh.Relay.Payments.Data.{Db, Failure}
use nostr_mesh.Relay.Payments.Service.{Faults, commit, finish, begin, in_transaction}

module _ {A C : Type 0} (faults : Faults) (body : C → Db → Result Failure (A × Db)) (db : Db) where
  commit_keeps :
      (fault : Option Failure) (a : A) (db' : Db) (e : Failure)
      → (commit fault a db db').0 ≡ err e
      → (commit fault a db db').1 ≡ db
  commit_keeps none a db' e h = cc h
  commit_keeps (some fault) a db' e h = refl

  finish_keeps :
      (result : Result Failure (A × Db)) (e : Failure)
      → (finish faults.commit db result).0 ≡ err e
      → (finish faults.commit db result).1 ≡ db
  finish_keeps (ok (a, db')) e h = commit_keeps faults.commit a db' e h
  finish_keeps (err failure) e h = refl

  begin_keeps :
      (c : C) (fault : Option Failure) (e : Failure)
      → (begin faults (body c) db fault).0 ≡ err e
      → (begin faults (body c) db fault).1 ≡ db
  begin_keeps c none e h = finish_keeps (body c db) e h
  begin_keeps c (some fault) e h = refl

  pub in_transaction_keeps :
      (checks : Result Failure C) (e : Failure)
      → (in_transaction faults checks body db).0 ≡ err e
      → (in_transaction faults checks body db).1 ≡ db
  unfolding in_transaction
  in_transaction_keeps (err failure) e h = refl
  in_transaction_keeps (ok c) e h = begin_keeps c faults.begin e h

  commit-eq-ok :
      (fault : Option Failure) (a b : A) (db' db'' : Db)
      → commit fault a db db' ≡ (ok b, db'')
      → (a ≡ b) × (db' ≡ db'')
  commit-eq-ok none a b db' db'' h = (ok-injective (ap (λ pair. pair.0) h), ap (λ pair. pair.1) h)
  commit-eq-ok (some fault) a b db' db'' h = cc (ap (λ pair. pair.0) h)

  finish-eq-ok :
      (result : Result Failure (A × Db)) (b : A) (db'' : Db)
      → finish faults.commit db result ≡ (ok b, db'')
      → (a : A) × (db' : Db) × (result ≡ ok (a, db')) × (a ≡ b) × (db' ≡ db'')
  finish-eq-ok (ok (a, db')) b db'' h =
      let (same, after) = commit-eq-ok faults.commit a b db' db'' h in (a, db', refl, same, after)
  finish-eq-ok (err failure) b db'' h = cc (ap (λ pair. pair.0) h)

  begin-eq-ok :
      (c : C) (fault : Option Failure) (b : A) (db'' : Db)
      → begin faults (body c) db fault ≡ (ok b, db'')
      → (a : A) × (db' : Db) × (body c db ≡ ok (a, db')) × (a ≡ b) × (db' ≡ db'')
  begin-eq-ok c none b db'' h = finish-eq-ok (body c db) b db'' h
  begin-eq-ok c (some fault) b db'' h = cc (ap (λ pair. pair.0) h)

  pub in_transaction-eq-ok :
      (checks : Result Failure C) (b : A) (db'' : Db)
      → in_transaction faults checks body db ≡ (ok b, db'')
      → (c : C) × (a : A) × (db' : Db) × (checks ≡ ok c)
        × (body c db ≡ ok (a, db'))
        × (a ≡ b)
        × (db' ≡ db'')
  unfolding in_transaction
  in_transaction-eq-ok (err failure) b db'' h = cc (ap (λ pair. pair.0) h)
  in_transaction-eq-ok (ok c) b db'' h =
      let (a, db', ran, same, after) = begin-eq-ok c faults.begin b db'' h in
      (c, a, db', refl, ran, same, after)
