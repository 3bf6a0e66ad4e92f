-- ===== src/Api/NostrClient/Keys.antt =====
-- The keys of what `dedupeEvents` of api/src/nostr/client.ts returns.
use nostr_mesh.Prelude.{
  ◌≡◌, refl, sym, ap, ◌∙◌, inl, inr, true, false, Option, none, some, List, [], ◌∷◌, ◌++◌, arith,
  Bool-cases, All,
}
use nostr_mesh.Prelude.Text.{Str, ◌===◌, ===_iff}
use nostr_mesh.Nostr.{Event}
use nostr_mesh.Api.NostrClient.{
  insert_newest, sort_newest, collect, dedupe_key, holds_key, dedupe_events,
}
use nostr_mesh.Api.NostrClient.Order.{
  Descending, sort-Descending, sort_of_Descending, collect-Descending,
}
use nostr_mesh.Api.NostrClient.Laws.{find_key, newest, find_key-dedupe}

-- No key stands twice.
abbrev pub HasDistinctKeys : List Event → Type 0
HasDistinctKeys [] = Unit
HasDistinctKeys (e ∷ es) = (holds_key (dedupe_key e) es ≡ false) × HasDistinctKeys es

holds_key-concat :
    (key : Str) (es : List Event) (e : Event)
    → holds_key key es ≡ false
    → (dedupe_key e === key) ≡ false
    → holds_key key (es ++ e ∷ []) ≡ false
unfolding holds_key
holds_key-concat key [] e h k = rw k
holds_key-concat key (x ∷ xs) e h k = ground (arith, holds_key-concat key xs e)

===_comm_false : (a b : Str) → (a === b) ≡ false → (b === a) ≡ false
===_comm_false a b h = ground (arith, ===_iff a b, ===_iff b a)

concat-HasDistinctKeys :
    (es : List Event) (e : Event)
    → HasDistinctKeys es
    → holds_key (dedupe_key e) es ≡ false
    → HasDistinctKeys (es ++ e ∷ [])
unfolding holds_key
concat-HasDistinctKeys [] e d h = (refl, tt)
concat-HasDistinctKeys (x ∷ xs) e (new, d) h = (
  holds_key-concat (dedupe_key x) xs e new
      (===_comm_false (dedupe_key x) (dedupe_key e) (ground arith)),
  concat-HasDistinctKeys xs e d (ground arith),
)

collect-HasDistinctKeys :
    (kept es : List Event) → HasDistinctKeys kept → HasDistinctKeys (collect kept es)
unfolding collect
collect-HasDistinctKeys kept [] d = d
collect-HasDistinctKeys kept (e ∷ es) d = elim (Bool-cases (holds_key (dedupe_key e) kept)) [
  | inl old ↦ rw old (collect-HasDistinctKeys kept es d)
  | inr new ↦
      rw new (collect-HasDistinctKeys (kept ++ e ∷ []) es (concat-HasDistinctKeys kept e d new))
]

dedupe-eq-collect : (es : List Event) → dedupe_events es ≡ collect [] (sort_newest es)
unfolding dedupe_events
dedupe-eq-collect es = sort_of_Descending _ (collect-Descending [] _ (sort-Descending es))

-- The events returned have distinct keys and stand from the newest to the oldest.
pub dedupe_ordered :
    (es : List Event) → HasDistinctKeys (dedupe_events es) × Descending (dedupe_events es)
dedupe_ordered es =
    rw (dedupe-eq-collect es)
      (collect-HasDistinctKeys [] _ tt, collect-Descending [] _ (sort-Descending es))

-- Every event of the list has the key.
abbrev pub AllKeyed : Str → List Event → Type 0
AllKeyed key es = All (λ e. (dedupe_key e === key) ≡ true) es

insert-AllKeyed :
    (key : Str) (x : Event) (es : List Event)
    → (dedupe_key x === key) ≡ true
    → AllKeyed key es
    → AllKeyed key (insert_newest x es)
unfolding insert_newest
insert-AllKeyed key x [] h k = (h, tt)
insert-AllKeyed key x (y ∷ ys) h (k, ks) = ground (arith, insert-AllKeyed key x ys h ks)

sort-AllKeyed : (key : Str) (es : List Event) → AllKeyed key es → AllKeyed key (sort_newest es)
unfolding sort_newest
sort-AllKeyed key [] h = tt
sort-AllKeyed key (x ∷ xs) (h, hs) =
    insert-AllKeyed key x (sort_newest xs) h (sort-AllKeyed key xs hs)

collect_one :
    (key : Str) (e : Event) (es : List Event)
    → (dedupe_key e === key) ≡ true
    → AllKeyed key es
    → collect (e ∷ []) es ≡ e ∷ []
unfolding collect holds_key
collect_one key e [] h k = refl
collect_one key e (x ∷ xs) h (k, ks) =
    let same : (dedupe_key e === dedupe_key x) ≡ true = ground (
      arith,
      ===_iff (dedupe_key e) key,
      ===_iff (dedupe_key x) key,
      ===_iff (dedupe_key e) (dedupe_key x),
    ) in
    rw same (collect_one key e xs h ks)

abbrev pub to_list : Option Event → List Event
to_list none = []
to_list (some e) = e ∷ []

collect_keyed :
    (key : Str) (es : List Event)
    → AllKeyed key es
    → collect [] es ≡ to_list (find_key key (collect [] es))
unfolding collect find_key holds_key
collect_keyed key [] h = refl
collect_keyed key (e ∷ es) (h, hs) = rw (collect_one key e es h hs, h)

-- Where all events share the key, what is left is the newest of them alone, and nothing where
-- there are none.
pub dedupe_of_AllKeyed :
    (key : Str) (es : List Event) → AllKeyed key es → dedupe_events es ≡ to_list (newest key es)
dedupe_of_AllKeyed key es h =
    dedupe-eq-collect es
    ∙ collect_keyed key (sort_newest es) (sort-AllKeyed key es h)
    ∙ ap (λ l. to_list (find_key key l)) (sym (dedupe-eq-collect es))
    ∙ ap to_list (find_key-dedupe key es)
