-- ===== src/Relay/Runes/Restrictions.antt =====
-- Reading a restriction that was written, nostream-share/src/utils/runes/restriction.ts.
use nostr_mesh.Prelude.{
  ℕ, zero, suc, ◌≤◌, ◌≡◌, refl, ap, ◌∙◌, ◌≢◌, inl, inr, List, [], ◌∷◌, ◌++◌, map, arith, length,
  length-append, All,
}
use nostr_mesh.Prelude.Text.{Str}
use nostr_mesh.Prelude.Result.{ok, ◌>>=◌}
use mathlib.Core.List.{append_assoc}
use nostr_mesh.Relay.Runes.Alternative.{Alternative, escape, encode, decode}
use nostr_mesh.Relay.Runes.Rune.{
  Restriction, new_restriction, join_by, encode_restriction, decode_alternatives,
  decode_restriction, cons_alternative,
}
use nostr_mesh.Relay.Runes.Reading.{IsValid, IsEnd, after, IsFront, encode-IsFront, decode-encode}

decode_alternatives_step :
    (fuel : ℕ) (text : Str) (a : Alternative) (rest : Str)
    → IsFront text
    → decode text ≡ ok (a, rest)
    → decode_alternatives (suc fuel) text ≡ (decode_alternatives fuel rest >>= cons_alternative a)
unfolding decode_alternatives
decode_alternatives_step fuel [] a rest front decoded = elim front [ ]
decode_alternatives_step fuel (c ∷ cs) a rest front decoded =
    rw (decode_alternatives, front, decoded) refl

-- What follows a restriction: nothing, or `&` and the next one.
abbrev pub IsClosed : Str → Type 0
IsClosed [] = Unit
IsClosed (c ∷ t) = c ≡ b'&'

abbrev pub next : Str → Str
next [] = []
next (c ∷ t) = t

IsClosed-IsEnd : (tail : Str) → IsClosed tail → IsEnd tail
IsClosed-IsEnd [] closed = tt
IsClosed-IsEnd (c ∷ t) closed = inr closed

IsClosed-after : (tail : Str) → IsClosed tail → after tail ≡ tail
IsClosed-after [] closed = refl
IsClosed-after (c ∷ t) closed = rw closed refl

decode_alternatives_end :
    (fuel : ℕ) (tail : Str)
    → IsClosed tail
    → length tail ≤ fuel
    → decode_alternatives fuel tail ≡ ok ([], next tail)
unfolding decode_alternatives
decode_alternatives_end fuel [] closed enough = refl
decode_alternatives_end zero (c ∷ t) closed enough = absurd (omega arith)
decode_alternatives_end (suc fuel) (c ∷ t) closed enough = rw closed refl

-- One more alternative in front of a list that reads back.
decode_alternatives_cons :
    (fuel : ℕ) (a : Alternative) (tail : Str) (as' : List Alternative) (left : Str)
    → IsValid a
    → IsEnd tail
    → decode_alternatives fuel (after tail) ≡ ok (as', left)
    → decode_alternatives (suc fuel) (encode a ++ tail) ≡ ok (a ∷ as', left)
decode_alternatives_cons fuel a tail as' left valid end rest =
    decode_alternatives_step fuel (encode a ++ tail) a (after tail) (encode-IsFront a tail valid)
      (decode-encode a tail valid end)
    ∙ rw rest refl

pub length-encode : (a : Alternative) → 1 ≤ length (encode a)
unfolding encode
length-encode a = omega (arith, length-append a.field (a.cond ∷ escape a.value))

abbrev pub written : List Alternative → Str
written as' = join_by b'|' (map encode as')

decode_alternatives-written :
    (fuel : ℕ) (a : Alternative) (as' : List Alternative) (tail : Str)
    → IsValid a
    → All IsValid as'
    → IsClosed tail
    → length (written (a ∷ as') ++ tail) ≤ fuel
    → decode_alternatives fuel (written (a ∷ as') ++ tail) ≡ ok (a ∷ as', next tail)
unfolding join_by
decode_alternatives-written zero a [] tail valid all_ closed enough =
    absurd (omega (arith, length-append (encode a) tail, length-encode a))
decode_alternatives-written zero a (b ∷ as') tail valid all_ closed enough = absurd (
    omega (
      arith,
      length-append (encode a ++ (b'|' ∷ written (b ∷ as'))) tail,
      length-append (encode a) (b'|' ∷ written (b ∷ as')),
      length-encode a,
    ))
decode_alternatives-written (suc fuel) a [] tail valid all_ closed enough =
    decode_alternatives_cons fuel a tail [] (next tail) valid (IsClosed-IsEnd tail closed) (
      ap (decode_alternatives fuel) (IsClosed-after tail closed)
      ∙ decode_alternatives_end fuel tail closed
          (omega (arith, length-append (encode a) tail, length-encode a)))
decode_alternatives-written (suc fuel) a (b ∷ as') tail valid (valid_b, all_) closed enough =
    ap (decode_alternatives (suc fuel)) (append_assoc (encode a) (b'|' ∷ written (b ∷ as')) tail)
    ∙ decode_alternatives_cons fuel a (b'|' ∷ (written (b ∷ as') ++ tail)) (b ∷ as') (next tail)
        valid (inl refl)
        (decode_alternatives-written fuel b as' tail valid_b all_ closed (
          omega (
            arith,
            length-append (encode a ++ (b'|' ∷ written (b ∷ as'))) tail,
            length-append (encode a) (b'|' ∷ written (b ∷ as')),
            length-append (written (b ∷ as')) tail,
            length-encode a,
          )))

-- A restriction has alternatives.
abbrev pub IsRestriction : Restriction → Type 0
IsRestriction r = (r.alternatives ≢ []) × All IsValid r.alternatives

decode_list :
    (as' : List Alternative) (tail : Str)
    → as' ≢ []
    → All IsValid as'
    → IsClosed tail
    → decode_restriction (written as' ++ tail) ≡ ok (record { alternatives = as' }, next tail)
unfolding decode_restriction new_restriction
decode_list [] tail some_ valid closed = absurd (some_ refl)
decode_list (a ∷ as') tail some_ (here, there) closed =
    rw
      (decode_alternatives-written (length (written (a ∷ as') ++ tail)) a as' tail here there closed
        (omega arith))
      refl

-- A restriction reads back, with the text after it.
pub decode-encode_restriction :
    (r : Restriction) (tail : Str)
    → IsRestriction r
    → IsClosed tail
    → decode_restriction (encode_restriction r ++ tail) ≡ ok (r, next tail)
unfolding encode_restriction
decode-encode_restriction r tail (some_, valid) closed =
    decode_list r.alternatives tail some_ valid closed
