-- ===== src/Relay/Repository/Unique.antt =====
-- `create` and `upsert` of nostream-share/src/repositories/event-repository.ts and both unique
-- indexes.
use nostr_mesh.Prelude.{
  ◌≡◌, refl, ◌⊎◌, inl, inr, Bool, true, false, not, ◌&&◌, [], ◌∷◌, arith, ltb, Bool-cases, any, All,
}
use nostr_mesh.Prelude.Text.{===_iff}
use nostr_mesh.Relay.Repository.{
  Row, Table, has_id, conflicts, create, merge_older, has_older, upsert,
}
use nostr_mesh.Relay.Repository.Laws.{conflicts_sym, conflicts_trans, IsUnique}
use nostr_mesh.Relay.Repository.Newest.{no_other}

none_passes : (test : Row → Bool) (t : Table) → any test t ≡ false → All (λ r. test r ≡ false) t
none_passes test [] h = tt
none_passes test (row ∷ rows) h = (ground arith, none_passes test rows (ground arith))

-- Where both unique indexes hold, they hold behind an insertion, which either counts 1 and puts
-- the row into the table, or counts 0 and changes nothing.
pub create-IsUnique :
    (new : Row) (t : Table)
    → IsUnique t
    → IsUnique (create new t).1
      × (((create new t).0 ≡ 1) × ((create new t).1 ≡ new ∷ t)
          ⊎ ((create new t).0 ≡ 0) × ((create new t).1 ≡ t))
unfolding create
create-IsUnique new t u = elim (Bool-cases (any (has_id new.event.id) t)) [
  | inl known ↦ simp known (u, inr (refl, refl))
  | inr fresh ↦ elim (Bool-cases (any (conflicts new) t)) [
    | inl taken ↦ simp (fresh, taken) (u, inr (refl, refl))
    | inr free ↦
        simp (fresh, free) ((none_passes _ t free, none_passes _ t fresh, u), inl (refl, refl))
  ]
]

All-merge :
    (test : Row → Bool) (new : Row) (t : Table)
    → All (λ r. test r ≡ false) t
    → test new ≡ false
    → All (λ r. test r ≡ false) (merge_older new t)
unfolding merge_older
All-merge test new [] h k = tt
All-merge test new (row ∷ rows) (first, h) k = (ground arith, All-merge test new rows h k)

-- What the row in the way was apart from, the new one is.
apart_too :
    (new row : Row) (rows : Table)
    → conflicts new row ≡ true
    → All (λ r. conflicts row r ≡ false) rows
    → All (λ r. (has_id new.event.id r && not (conflicts new r)) ≡ false) rows
    → All (λ r. conflicts new r ≡ false) rows × All (λ r. has_id new.event.id r ≡ false) rows
apart_too new row [] h k c = (tt, tt)
apart_too new row (r ∷ rows) h (apart, k) (clear, c) =
    let (keys, ids) = apart_too new row rows h k c in
    elim (Bool-cases (conflicts new r)) [
      | inl same ↦ cc (apart, conflicts_trans row new r (conflicts_sym new row h) same)
      | inr other ↦ ((other, keys), (ground arith, ids))
    ]

not_sym : (a b : Row) → conflicts a b ≡ false → conflicts b a ≡ false
not_sym a b h = elim (Bool-cases (conflicts b a)) [
  | inl same ↦ cc (h, conflicts_sym b a same)
  | inr other ↦ other
]

id_sym : (a b : Row) → has_id a.event.id b ≡ false → has_id b.event.id a ≡ false
id_sym a b h = ground (arith, ===_iff a.event.id b.event.id, ===_iff b.event.id a.event.id)

merge-IsUnique :
    (new : Row) (t : Table)
    → IsUnique t
    → All (λ r. (has_id new.event.id r && not (conflicts new r)) ≡ false) t
    → IsUnique (merge_older new t)
unfolding merge_older
merge-IsUnique new [] u c = tt
merge-IsUnique new (row ∷ rows) (apart, ids, u) (clear, c) = elim (Bool-cases (conflicts new row)) [
  | inl here ↦
      let (quiet, same) = no_other new row rows here apart in
      elim (Bool-cases (ltb row.event.created_at new.event.created_at)) [
        | inl older ↦
            let (keys, names) = apart_too new row rows here apart c in
            rw (here, older, same) (keys, names, u)
        | inr kept ↦ rw (here, kept, same) (apart, ids, u)
      ]
  | inr not_here ↦ rw not_here (
    All-merge (conflicts row) new rows apart (not_sym new row not_here),
    All-merge (has_id row.event.id) new rows ids (id_sym new row (ground arith)),
    merge-IsUnique new rows u c,
  )
]

-- Where both unique indexes hold, they hold behind an upsert, whether it stores, replaces, keeps
-- or fails.
pub upsert-IsUnique : (new : Row) (t : Table) → IsUnique t → IsUnique (upsert new t).1
unfolding upsert
upsert-IsUnique new t u = elim (Bool-cases (any (conflicts new) t)) [
  | inl taken ↦ elim (Bool-cases (has_older new t)) [
    | inl older ↦
        elim (Bool-cases (any (λ row. has_id new.event.id row && not (conflicts new row)) t)) [
          | inl clash ↦ simp (taken, older, clash) u
          | inr clear ↦ simp (taken, older, clear) (merge-IsUnique new t u (none_passes _ t clear))
        ]
    | inr newer ↦ simp (taken, newer) u
  ]
  | inr free ↦ elim (Bool-cases (any (has_id new.event.id) t)) [
    | inl known ↦ simp (free, known) u
    | inr fresh ↦ simp (free, fresh) (none_passes _ t free, none_passes _ t fresh, u)
  ]
]
