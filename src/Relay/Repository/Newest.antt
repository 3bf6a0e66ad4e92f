-- ===== src/Relay/Repository/Newest.antt =====
-- The upsert of nostream-share/src/repositories/event-repository.ts keeps the newest event of each
-- key, and both unique indexes.
use nostr_mesh.Prelude.{
  ℕ, ◌≤◌, ◌<◌, ◌≡◌, refl, sym, ap, subst, ◌∙◌, ◌⊎◌, inl, inr, Bool, true, false, not, ◌&&◌, Option,
  none, some, [], ◌∷◌, arith, ltb, if◌then◌else◌, ltb→lt, le_of_not_ltb, Bool-cases, any, All,
}
use nostr_mesh.Relay.Repository.{
  Row, Table, conflicts, has_id, merge_older, has_older, Upserted, row_count, duplicate_event_id,
  upsert,
}
use nostr_mesh.Relay.Repository.Laws.{conflicts_sym, conflicts_trans, IsUnique}

-- The row that stands under the key of another.
unfoldable pub stored : Row → Table → Option Row
stored new [] = none
stored new (row ∷ rows) = if conflicts new row then some row else stored new rows

stored-cons : (new : Row) (t : Table) → conflicts new new ≡ true → stored new (new ∷ t) ≡ some new
unfolding stored
stored-cons new t self = rw self

stored-none_iff : (new : Row) (t : Table) → any (conflicts new) t ≡ false → stored new t ≡ none
unfolding stored
stored-none_iff new [] h = refl
stored-none_iff new (row ∷ rows) h = ground (arith, stored-none_iff new rows)

stored-some :
    (new : Row) (t : Table) → any (conflicts new) t ≡ true → (old : Row) × (stored new t ≡ some old)
unfolding stored
stored-some new [] h = cc
stored-some new (row ∷ rows) h = elim (Bool-cases (conflicts new row)) [
  | inl here ↦ (row, rw here)
  | inr not_here ↦ rw not_here (stored-some new rows (rw not_here at h))
]

-- Behind a row under the key there is no other.
pub no_other :
    (new row : Row) (rows : Table)
    → conflicts new row ≡ true
    → All (λ r. conflicts row r ≡ false) rows
    → (has_older new rows ≡ false) × (merge_older new rows ≡ rows)
unfolding has_older merge_older
no_other new row [] h k = (refl, refl)
no_other new row (r ∷ rows) h (apart, k) = elim (Bool-cases (conflicts new r)) [
  | inl same ↦ cc (apart, conflicts_trans row new r (conflicts_sym new row h) same)
  | inr other ↦
      let (quiet, same) = no_other new row rows h k in rw other (quiet, ap (λ l. r ∷ l) same)
]

some-injective : {a b : Row} → some a ≡ some b → a ≡ b
some-injective h = cc

older_head :
    (new row : Row) (rows : Table)
    → conflicts new row ≡ true
    → All (λ r. conflicts row r ≡ false) rows
    → has_older new (row ∷ rows) ≡ ltb row.event.created_at new.event.created_at
unfolding has_older
older_head new row rows h apart = let (quiet, same) = no_other new row rows h apart in ground arith

older_tail :
    (new row : Row) (rows : Table)
    → conflicts new row ≡ false
    → has_older new (row ∷ rows) ≡ has_older new rows
unfolding has_older
older_tail new row rows h = rw h

-- With unique keys the row under the key decides whether it is replaced.
has_older_lem :
    (new old : Row) (t : Table)
    → IsUnique t
    → stored new t ≡ some old
    → has_older new t ≡ ltb old.event.created_at new.event.created_at
unfolding stored
has_older_lem new old [] u e = cc
has_older_lem new old (row ∷ rows) (apart, ids, u) e = elim (Bool-cases (conflicts new row)) [
  | inl here ↦
      let same : row ≡ old = some-injective (rw here at e) in
      subst (λ (r : Row). has_older new (row ∷ rows) ≡ ltb r.event.created_at new.event.created_at)
        same (older_head new row rows here apart)
  | inr not_here ↦
      older_tail new row rows not_here ∙ has_older_lem new old rows u (rw not_here at e)
]

stored-merge_older :
    (new : Row) (t : Table)
    → conflicts new new ≡ true
    → has_older new t ≡ true
    → IsUnique t
    → stored new (merge_older new t) ≡ some new
unfolding stored merge_older
stored-merge_older new [] self h u = unfold has_older in cc
stored-merge_older new (row ∷ rows) self h (apart, ids, u) = elim (Bool-cases (conflicts new row)) [
  | inl here ↦ let young = sym (older_head new row rows here apart) ∙ h in rw (here, young, self)
  | inr not_here ↦
      rw (not_here, not_here)
        (stored-merge_older new rows self (sym (older_tail new row rows not_here) ∙ h) u)
]

-- What an upsert that returns a count has done: it stored the new row, in place of an older one or
-- where there was none, and counted 1; or it found a row that is not older, left the table as it was
-- and counted 0.
abbrev pub Kept : Row → Table → ℕ → Table → Type 0
Kept new t n after =
    (n ≡ 1)
      × (stored new after ≡ some new)
      × ((old : Row) → stored new t ≡ some old → old.event.created_at < new.event.created_at)
    ⊎ (n ≡ 0)
      × (after ≡ t)
      × ((old : Row) × (stored new t ≡ some old) × (new.event.created_at ≤ old.event.created_at))

abbrev clashes : Row → Table → Bool
clashes new t = any (λ row. has_id new.event.id row && not (conflicts new row)) t

module _ (new : Row) (t : Table) where
  upsert_merged :
      any (conflicts new) t ≡ true
      → has_older new t ≡ true
      → clashes new t ≡ false
      → upsert new t ≡ (row_count 1, merge_older new t)
  unfolding upsert
  upsert_merged a b c = rw (a, b, c)

  upsert_clash :
      any (conflicts new) t ≡ true
      → has_older new t ≡ true
      → clashes new t ≡ true
      → upsert new t ≡ (duplicate_event_id, t)
  unfolding upsert
  upsert_clash a b c = rw (a, b, c)

  pub upsert_kept :
      any (conflicts new) t ≡ true → has_older new t ≡ false → upsert new t ≡ (row_count 0, t)
  unfolding upsert
  upsert_kept a b = rw (a, b)

  upsert_inserted :
      any (conflicts new) t ≡ false
      → any (has_id new.event.id) t ≡ false
      → upsert new t ≡ (row_count 1, new ∷ t)
  unfolding upsert
  upsert_inserted a b = rw (a, b)

  upsert_known :
      any (conflicts new) t ≡ false
      → any (has_id new.event.id) t ≡ true
      → upsert new t ≡ (duplicate_event_id, t)
  unfolding upsert
  upsert_known a b = rw (a, b)

count_inversion :
    {m n : ℕ} {s t : Table}
    → ◌≡◌ {A = Upserted × Table} (row_count m, s) (row_count n, t)
    → (n ≡ m) × (t ≡ s)
count_inversion h =
    let counts = ap (λ (x : Upserted × Table). x.0) h in
    let tables = ap (λ (x : Upserted × Table). x.1) h in (cc, sym tables)

no_count :
    {A : Type 0} {n : ℕ} {s t : Table}
    → ◌≡◌ {A = Upserted × Table} (duplicate_event_id, s) (row_count n, t)
    → A
no_count h = cc (ap (λ (x : Upserted × Table). x.0) h)

-- Where both unique indexes hold and the new row has a key, an upsert that returns a count keeps the
-- newest row of the key; of two rows of one time the one that was there.
pub upsert_newest :
    (new : Row) (t after : Table) (n : ℕ)
    → IsUnique t
    → conflicts new new ≡ true
    → upsert new t ≡ (row_count n, after)
    → Kept new t n after
upsert_newest new t after n u self e = elim (Bool-cases (any (conflicts new) t)) [
  | inl taken ↦
      let (old, found) = stored-some new t taken in
      let age = has_older_lem new old t u found in
      elim (Bool-cases (ltb old.event.created_at new.event.created_at)) [
        | inl older ↦ elim (Bool-cases (clashes new t)) [
          | inl clash ↦ no_count (sym (upsert_clash new t taken (age ∙ older) clash) ∙ e)
          | inr clear ↦
              let (one, state) =
                count_inversion (sym (upsert_merged new t taken (age ∙ older) clear) ∙ e) in
              inl (
                one,
                ap (stored new) state ∙ stored-merge_older new t self (age ∙ older) u,
                λ other at_key.
                    subst (λ (r : Row). r.event.created_at < new.event.created_at)
                      (some-injective (sym found ∙ at_key)) (ltb→lt _ _ older),
              )
        ]
        | inr newer ↦
            let (zero', state) =
              count_inversion (sym (upsert_kept new t taken (age ∙ newer)) ∙ e) in
            inr (zero', state, (old, found, le_of_not_ltb _ _ newer))
      ]
  | inr free ↦ elim (Bool-cases (any (has_id new.event.id) t)) [
    | inl known ↦ no_count (sym (upsert_known new t free known) ∙ e)
    | inr fresh ↦
        let (one, state) = count_inversion (sym (upsert_inserted new t free fresh) ∙ e) in
        inl (
          one,
          ap (stored new) state ∙ stored-cons new t self,
          λ other at_key. cc (sym (stored-none_iff new t free) ∙ at_key),
        )
  ]
]
