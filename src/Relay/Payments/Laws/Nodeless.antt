-- ===== src/Relay/Payments/Laws/Nodeless.antt =====
-- Whom the callback of Nodeless credits,
-- nostream-share/src/controllers/callbacks/nodeless-callback-controller.ts.
use nostr_mesh.Prelude.{
  ℕ, ◌≡◌, refl, ap, ◌∙◌, inl, inr, false, not, ◌&&◌, Option, none, some, arith, Bool-cases,
}
use nostr_mesh.Prelude.Text.{Str, codes, ◌===◌}
use nostr_mesh.Prelude.Result.{Result}
use nostr_mesh.Relay.Settings.{Settings}
use nostr_mesh.Relay.Payments.Data.{Db, Invoice, Failure, is_completed}
use nostr_mesh.Relay.Payments.Service.{Faults, update_invoice_status}
use nostr_mesh.Relay.Payments.Callbacks.{Reply, is_set}
use nostr_mesh.Relay.Payments.Nodeless.{
  NodelessInvoice, nodeless_status, nodeless_update, nodeless_shown, is_signed, nodeless_updated,
  nodeless_callback,
}
use nostr_mesh.Relay.Payments.Laws.Callbacks.{confirm_and_notify_refused}

module _ (faults : Faults) (settings : Settings) (processor : Str) (now expiration : ℕ) where
  undated :
      (invoice : NodelessInvoice)
      → (invoice.status === codes "paid") ≡ false
      → (nodeless_update now invoice).confirmed_at ≡ none
  undated invoice unpaid = rw unpaid refl

  updated_users :
      (invoice : NodelessInvoice) (updated : Option Invoice) (db : Db)
      → (invoice.status === codes "paid") ≡ false
      → (nodeless_updated faults settings processor now expiration invoice updated db).1 ≡ db
  updated_users invoice none db unpaid = refl
  updated_users invoice (some updated) db unpaid =
      elim (Bool-cases (not (is_completed updated.status) && not (is_set updated.confirmed_at))) [
        | inl early ↦ rw early refl
        | inr late ↦ rw late (
            ap (λ (r : Result Failure Reply × Db). r.1)
              (confirm_and_notify_refused faults settings now expiration
                (nodeless_update now invoice) (nodeless_shown invoice updated) db
                (undated invoice unpaid)))
      ]

  stored_users :
      (invoice : NodelessInvoice) (db : Db)
      → (update_invoice_status invoice.id (nodeless_status invoice.status) now db).1.users
        ≡ db.users
  unfolding update_invoice_status
  stored_users invoice db = refl

  -- The callback of Nodeless changes the users, who are credited and admitted there, only on a request
  -- with the expected signature, with Nodeless as the relay's processor, for an invoice whose status
  -- is the word `paid`; one with the word `overpaid` changes no user.
  pub nodeless_callback_unpaid :
      (expected : Str) (actual : Option Str) (invoice : NodelessInvoice) (db : Db)
      → (is_signed expected actual
          && processor === codes "nodeless"
          && invoice.status === codes "paid")
        ≡ false
      → (nodeless_callback faults settings processor now expiration expected actual invoice
          db).1.users
        ≡ db.users
  unfolding nodeless_callback
  nodeless_callback_unpaid expected actual invoice db h =
      elim (Bool-cases (is_signed expected actual)) [
        | inr forged ↦ rw forged refl
        | inl genuine ↦ elim (Bool-cases (processor === codes "nodeless")) [
          | inr other ↦ rw (genuine, other) refl
          | inl ours ↦
              let unpaid : (invoice.status === codes "paid") ≡ false = ground arith in
              rw (genuine, ours)
                (ap (λ (d : Db). d.users) (updated_users invoice _ _ unpaid)
                  ∙ stored_users invoice db)
        ]
      ]
