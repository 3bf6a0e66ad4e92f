-- ===== src/Relay/Repository/Laws.antt =====
-- The unique index over the table of events as an equivalence of rows, and the invariant of the table.
use nostr_mesh.Prelude.{
  ◌≡◌, refl, sym, ap, ◌∙◌, ◌≢◌, ◌↔◌, true, false, List, [], ◌∷◌, arith, ==_iff, All,
}
use nostr_mesh.Prelude.Text.{Str, ===_iff}
use nostr_mesh.Relay.Kinds.{in_unique_index}
use nostr_mesh.Relay.Repository.{
  Deduplication, values, author_and_kind, null, Row, Table, same_texts, same_deduplication,
  conflicts, has_id,
}

-- Two rows stand under one key of the index.
pub record SameKey (a b : Row) : Type 0 where
  pub indexed : in_unique_index b.event.kind ≡ true
  pub pubkey : b.event.pubkey ≡ a.event.pubkey
  pub kind : b.event.kind ≡ a.event.kind
  pub deduplication : b.deduplication ≡ a.deduplication
  pub present : a.deduplication ≢ null

same_texts_iff : (as' bs : List Str) → (same_texts as' bs ≡ true) ↔ (as' ≡ bs)
same_texts_iff [] [] = (λ h. refl, λ h. refl)
same_texts_iff [] (b ∷ bs) = (λ h. cc, λ h. cc)
same_texts_iff (a ∷ as') [] = (λ h. cc, λ h. cc)
same_texts_iff (a ∷ as') (b ∷ bs) = (
  (λ h. ground (arith, ===_iff a b, same_texts_iff as' bs)),
  (λ h. ground (arith, ===_iff a b, same_texts_iff as' bs)),
)

same_deduplication_iff :
    (a b : Deduplication) → (same_deduplication a b ≡ true) ↔ ((a ≡ b) × (b ≢ null))
unfolding same_deduplication
same_deduplication_iff (values a) (values b) = (
  (λ h. (ap values ((same_texts_iff a b).0 h), (λ e. cc))),
  (λ h. ground (arith, h.0, same_texts_iff a b)),
)
same_deduplication_iff (author_and_kind p k) (author_and_kind q l) =
    ((λ h. (ground (arith, ===_iff p q), (λ e. cc))), (λ h. ground (arith, h.0, ===_iff p q)))
same_deduplication_iff null b = (λ h. cc, λ h. absurd (h.1 (sym h.0)))
same_deduplication_iff (values a) null = (λ h. cc, λ h. absurd (h.1 refl))
same_deduplication_iff (values a) (author_and_kind q l) = (λ h. cc, λ h. cc h.0)
same_deduplication_iff (author_and_kind p k) null = (λ h. cc, λ h. absurd (h.1 refl))
same_deduplication_iff (author_and_kind p k) (values b) = (λ h. cc, λ h. cc h.0)

pub conflicts_iff : (a b : Row) → (conflicts a b ≡ true) ↔ SameKey a b
unfolding conflicts
conflicts_iff a b =
    let dedup = same_deduplication_iff b.deduplication a.deduplication in
    let key = ===_iff b.event.pubkey a.event.pubkey in
    (
      (λ h.
          let d = dedup.0 (ground arith) in
          record {
            indexed = ground arith;
            pubkey = key.0 (ground arith);
            kind = ground arith;
            deduplication = d.0;
            present = d.1;
          }),
      (λ s. rw (
        s.indexed,
        (rw s.kind at s.indexed),
        key.1 s.pubkey,
        (==_iff b.event.kind a.event.kind).1 s.kind,
        dedup.1 (s.deduplication, s.present),
      )),
    )

pub conflicts_sym : (a b : Row) → conflicts a b ≡ true → conflicts b a ≡ true
conflicts_sym a b h =
    let s = (conflicts_iff a b).0 h in
    (conflicts_iff b a).1 (record {
      indexed = rw (← s.kind) s.indexed;
      pubkey = sym s.pubkey;
      kind = sym s.kind;
      deduplication = sym s.deduplication;
      present = λ e. s.present (sym s.deduplication ∙ e);
    })

pub conflicts_trans :
    (a b c : Row) → conflicts a b ≡ true → conflicts b c ≡ true → conflicts a c ≡ true
conflicts_trans a b c h k =
    let s = (conflicts_iff a b).0 h in
    let t = (conflicts_iff b c).0 k in
    (conflicts_iff a c).1 (record {
      indexed = t.indexed;
      pubkey = t.pubkey ∙ s.pubkey;
      kind = t.kind ∙ s.kind;
      deduplication = t.deduplication ∙ s.deduplication;
      present = s.present;
    })

-- The two unique indexes hold.
abbrev pub IsUnique : Table → Type 0
IsUnique [] = Unit
IsUnique (row ∷ rows) =
    All (λ r. conflicts row r ≡ false) rows
    × All (λ r. has_id row.event.id r ≡ false) rows
    × IsUnique rows
