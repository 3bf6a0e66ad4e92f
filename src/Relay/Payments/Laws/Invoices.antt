-- ===== src/Relay/Payments/Laws/Invoices.antt =====
-- The statements on the table of invoices of nostream-share/src/repositories/invoice-repository.ts.
use nostr_mesh.Prelude.{
  ◌≡◌, refl, sym, ap, ◌∙◌, ◌≢◌, inl, inr, true, false, some, List, [], ◌∷◌, Bool-cases,
}
use nostr_mesh.Prelude.Text.{Str, ◌===◌}
use nostr_mesh.Relay.Payments.Data.{DbInvoice}
use nostr_mesh.Relay.Payments.Tables.{find_invoice, update_invoice}

module _ (id : Str) (i : DbInvoice) (is : List DbInvoice) where
  find_invoice_here : (i.id === id) ≡ true → find_invoice id (i ∷ is) ≡ some i
  unfolding find_invoice
  find_invoice_here here = rw here refl

  find_invoice_there : (i.id === id) ≡ false → find_invoice id (i ∷ is) ≡ find_invoice id is
  unfolding find_invoice
  find_invoice_there there = rw there refl

find_invoice_nil : (id : Str) (row : DbInvoice) → find_invoice id [] ≢ some row
unfolding find_invoice
find_invoice_nil id row h = cc h

module _ (id : Str) (change : DbInvoice → DbInvoice)
    (keeps : (r : DbInvoice) → (change r).id ≡ r.id) where
  changed_same : {a b : DbInvoice} → some a ≡ some b → some (change a) ≡ some (change b)
  changed_same h = cc h

  pub find_invoice-update :
      (rows : List DbInvoice) (row : DbInvoice)
      → find_invoice id rows ≡ some row
      → find_invoice id (update_invoice id change rows) ≡ some (change row)
  unfolding update_invoice
  find_invoice-update [] row h = absurd (find_invoice_nil id row h)
  find_invoice-update (i ∷ is) row h = elim (Bool-cases (i.id === id)) [
    | inl here ↦ rw here (
        find_invoice_here id (change i) is (ap (λ other. other === id) (keeps i) ∙ here)
        ∙ changed_same (sym (find_invoice_here id i is here) ∙ h))
    | inr there ↦ rw there (
        find_invoice_there id i (update_invoice id change is) there
        ∙ find_invoice-update is row (sym (find_invoice_there id i is there) ∙ h))
  ]
