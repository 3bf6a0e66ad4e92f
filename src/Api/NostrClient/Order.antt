-- ===== src/Api/NostrClient/Order.antt =====
-- The order that `dedupeEvents` of api/src/nostr/client.ts keeps.
use nostr_mesh.Prelude.{
  ℕ, ◌≤◌, ◌≡◌, refl, sym, ap, subst, ◌∙◌, inl, inr, List, [], ◌∷◌, ◌++◌, arith, ltb, lt_of_le,
  Bool-cases, All,
}
use mathlib.Core.List.{append-nil, append_assoc}
use nostr_mesh.Nostr.{Event}
use nostr_mesh.Api.NostrClient.{insert_newest, sort_newest, collect, dedupe_key, holds_key}

-- No event of the list is newer than n.
abbrev pub NotAfter : ℕ → List Event → Type 0
NotAfter n es = All (λ e. e.created_at ≤ n) es

abbrev pub Descending : List Event → Type 0
Descending [] = Unit
Descending (x ∷ xs) = NotAfter x.created_at xs × Descending xs

pub NotAfter-mono : (n m : ℕ) (es : List Event) → n ≤ m → NotAfter n es → NotAfter m es
NotAfter-mono n m [] h k = tt
NotAfter-mono n m (e ∷ es) h (k, ks) = (omega arith, NotAfter-mono n m es h ks)

NotAfter-insert :
    (n : ℕ) (x : Event) (es : List Event)
    → x.created_at ≤ n
    → NotAfter n es
    → NotAfter n (insert_newest x es)
unfolding insert_newest
NotAfter-insert n x [] h k = (h, tt)
NotAfter-insert n x (y ∷ ys) h (k, ks) = ground (arith, NotAfter-insert n x ys h ks)

insert-Descending : (x : Event) (es : List Event) → Descending es → Descending (insert_newest x es)
unfolding insert_newest
insert-Descending x [] d = (tt, tt)
insert-Descending x (y ∷ ys) (k, d) = elim (Bool-cases (ltb x.created_at y.created_at)) [
  | inl older ↦
      rw older (NotAfter-insert y.created_at x ys (ground arith) k, insert-Descending x ys d)
  | inr newer ↦
      rw newer ((ground arith, NotAfter-mono y.created_at x.created_at ys (ground arith) k), (k, d))
]

pub sort-Descending : (es : List Event) → Descending (sort_newest es)
unfolding sort_newest
sort-Descending [] = tt
sort-Descending (x ∷ xs) = insert-Descending x (sort_newest xs) (sort-Descending xs)

insert_of_NotAfter :
    (x : Event) (es : List Event) → NotAfter x.created_at es → insert_newest x es ≡ x ∷ es
unfolding insert_newest
insert_of_NotAfter x [] k = refl
insert_of_NotAfter x (y ∷ ys) (k, ks) = rw (lt_of_le _ _ k)

-- Sorting what is sorted changes nothing: the second sort of `dedupeEvents` is idle.
pub sort_of_Descending : (es : List Event) → Descending es → sort_newest es ≡ es
unfolding sort_newest
sort_of_Descending [] d = refl
sort_of_Descending (x ∷ xs) (k, d) =
    ap (insert_newest x) (sort_of_Descending xs d) ∙ insert_of_NotAfter x xs k

All-remove :
    (n : ℕ) (xs : List Event) (e : Event) (ys : List Event)
    → NotAfter n (xs ++ e ∷ ys)
    → NotAfter n (xs ++ ys)
All-remove n [] e ys (_, h) = h
All-remove n (x ∷ xs) e ys (k, h) = (k, All-remove n xs e ys h)

Descending-remove :
    (xs : List Event) (e : Event) (ys : List Event)
    → Descending (xs ++ e ∷ ys)
    → Descending (xs ++ ys)
Descending-remove [] e ys (_, d) = d
Descending-remove (x ∷ xs) e ys (k, d) =
    (All-remove x.created_at xs e ys k, Descending-remove xs e ys d)

-- The loop keeps the order.
pub collect-Descending :
    (kept es : List Event) → Descending (kept ++ es) → Descending (collect kept es)
unfolding collect
collect-Descending kept [] d = subst Descending (append-nil kept) d
collect-Descending kept (e ∷ es) d = elim (Bool-cases (holds_key (dedupe_key e) kept)) [
  | inl old ↦ rw old (collect-Descending kept es (Descending-remove kept e es d))
  | inr new ↦ rw new (
      collect-Descending (kept ++ e ∷ []) es
        (subst Descending (sym (append_assoc kept (e ∷ []) es)) d))
]
