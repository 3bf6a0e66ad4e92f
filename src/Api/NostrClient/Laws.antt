-- ===== src/Api/NostrClient/Laws.antt =====
-- What `dedupeEvents` of api/src/nostr/client.ts returns, against a direct description.
use nostr_mesh.Prelude.{
  ℕ, ◌≤◌, ◌≡◌, refl, sym, ap, subst, ◌∙◌, inl, inr, true, false, Option, none, some, List, [], ◌∷◌,
  ◌++◌, arith, ltb, if◌then◌else◌, lt_of_le, Bool-cases,
}
use nostr_mesh.Prelude.Text.{Str, ◌===◌, ===_iff}
use mathlib.Core.List.{append-nil, append_assoc}
use nostr_mesh.Nostr.{Event}
use nostr_mesh.Api.NostrClient.{
  insert_newest, sort_newest, collect, dedupe_key, holds_key, dedupe_events,
}
use nostr_mesh.Api.NostrClient.Order.{
  NotAfter, NotAfter-mono, Descending, sort-Descending, sort_of_Descending, collect-Descending,
}

-- The first event of a list with the key.
unfoldable pub find_key : Str → List Event → Option Event
find_key key [] = none
find_key key (e ∷ es) = if dedupe_key e === key then some e else find_key key es

-- Of two events the newer one; the first of the list where they are of one age.
abbrev pub prefer : Event → Option Event → Option Event
prefer e none = some e
prefer e (some r) = if ltb e.created_at r.created_at then some r else some e

-- The newest event with the key; of the newest ones the first in the list.
unfoldable pub newest : Str → List Event → Option Event
newest key [] = none
newest key (e ∷ es) =
    let rest = newest key es in if dedupe_key e === key then prefer e rest else rest

find_key-NotAfter :
    (key : Str) (n : ℕ) (es : List Event) (r : Event)
    → NotAfter n es
    → find_key key es ≡ some r
    → r.created_at ≤ n
unfolding find_key
find_key-NotAfter key n [] r h e = cc
find_key-NotAfter key n (x ∷ xs) r (k, ks) e = elim (Bool-cases (dedupe_key x === key)) [
  | inl same ↦
      let first : x ≡ r = ground (arith, same) in subst (λ (y : Event). y.created_at ≤ n) first k
  | inr other ↦ find_key-NotAfter key n xs r ks (rw other at e)
]

prefer_of_NotAfter :
    (x : Event) (o : Option Event)
    → ((r : Event) → o ≡ some r → r.created_at ≤ x.created_at)
    → prefer x o ≡ some x
prefer_of_NotAfter x none h = refl
prefer_of_NotAfter x (some r) h = rw (lt_of_le _ _ (h r refl))

insert_older :
    (x y : Event) (ys : List Event)
    → ltb x.created_at y.created_at ≡ true
    → insert_newest x (y ∷ ys) ≡ y ∷ insert_newest x ys
unfolding insert_newest
insert_older x y ys h = rw h

insert_newer :
    (x y : Event) (ys : List Event)
    → ltb x.created_at y.created_at ≡ false
    → insert_newest x (y ∷ ys) ≡ x ∷ y ∷ ys
unfolding insert_newest
insert_newer x y ys h = rw h

find_key-insert :
    (key : Str) (x : Event) (es : List Event)
    → Descending es
    → find_key key (insert_newest x es)
      ≡ (if dedupe_key x === key then prefer x (find_key key es) else find_key key es)
unfolding find_key
find_key-insert key x [] d = unfold insert_newest in refl
find_key-insert key x (y ∷ ys) (k, d) = elim (Bool-cases (ltb x.created_at y.created_at)) [
  | inl older ↦ rw (insert_older x y ys older) (ground (arith, find_key-insert key x ys d))
  | inr newer ↦
      let below : NotAfter x.created_at (y ∷ ys) =
        (ground arith, NotAfter-mono y.created_at x.created_at ys (ground arith) k) in
      rw (
        insert_newer x y ys newer,
        prefer_of_NotAfter x (find_key key (y ∷ ys))
            (λ r e. find_key-NotAfter key x.created_at (y ∷ ys) r below e),
      )
]

pub find_key-sort : (key : Str) (es : List Event) → find_key key (sort_newest es) ≡ newest key es
unfolding sort_newest find_key newest
find_key-sort key [] = refl
find_key-sort key (x ∷ xs) =
    find_key-insert key x (sort_newest xs) (sort-Descending xs) ∙ rw (find_key-sort key xs)

find_key-append_other :
    (key : Str) (e : Event) (kept es : List Event)
    → (dedupe_key e === key) ≡ false
    → find_key key (kept ++ e ∷ es) ≡ find_key key (kept ++ es)
unfolding find_key
find_key-append_other key e [] es h = rw h
find_key-append_other key e (x ∷ kept) es h = rw (find_key-append_other key e kept es h)

find_key-append_held :
    (e : Event) (kept es : List Event)
    → holds_key (dedupe_key e) kept ≡ true
    → find_key (dedupe_key e) (kept ++ e ∷ es) ≡ find_key (dedupe_key e) (kept ++ es)
unfolding find_key holds_key
find_key-append_held e [] es h = cc
find_key-append_held e (x ∷ kept) es h = ground (arith, find_key-append_held e kept es)

find_key-append_old :
    (key : Str) (e : Event) (kept es : List Event)
    → holds_key (dedupe_key e) kept ≡ true
    → find_key key (kept ++ e ∷ es) ≡ find_key key (kept ++ es)
find_key-append_old key e kept es h = elim (Bool-cases (dedupe_key e === key)) [
  | inl same ↦ rw (← (===_iff (dedupe_key e) key).0 same) (find_key-append_held e kept es h)
  | inr other ↦ find_key-append_other key e kept es other
]

find_key-collect :
    (key : Str) (kept es : List Event) → find_key key (collect kept es) ≡ find_key key (kept ++ es)
unfolding collect
find_key-collect key kept [] = ap (find_key key) (sym (append-nil kept))
find_key-collect key kept (e ∷ es) = elim (Bool-cases (holds_key (dedupe_key e) kept)) [
  | inl old ↦ rw old (find_key-collect key kept es ∙ sym (find_key-append_old key e kept es old))
  | inr new ↦
      rw new (
        find_key-collect key (kept ++ e ∷ []) es
        ∙ ap (find_key key) (append_assoc kept (e ∷ []) es))
]

-- For every key the result has the newest event with that key, and none where there is none.
pub find_key-dedupe :
    (key : Str) (events : List Event) → find_key key (dedupe_events events) ≡ newest key events
unfolding dedupe_events
find_key-dedupe key events =
    ap (find_key key) (sort_of_Descending _ (collect-Descending [] _ (sort-Descending events)))
    ∙ find_key-collect key [] (sort_newest events)
    ∙ find_key-sort key events
