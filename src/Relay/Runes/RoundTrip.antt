-- ===== src/Relay/Runes/RoundTrip.antt =====
-- Reading a rune that was written, nostream-share/src/utils/runes/rune-like.ts.
use nostr_mesh.Prelude.{
  ℕ, zero, suc, ◌≤◌, ◌≡◌, refl, sym, ap, ◌∙◌, ◌≢◌, false, List, [], ◌∷◌, ◌++◌, map, arith, length,
  length-append, any, All,
}
use nostr_mesh.Prelude.Text.{Str, is_space}
use nostr_mesh.Prelude.Result.{ok}
use mathlib.Core.List.{append-nil}
use nostr_mesh.Relay.Runes.Alternative.{Alternative, encode, remove_space}
use nostr_mesh.Relay.Runes.Rune.{
  Restriction, RuneLike, join_by, encode_restriction, encode_rune, decode_restriction,
  decode_restrictions, rune_from,
}
use nostr_mesh.Relay.Runes.Restrictions.{
  IsRestriction, written, length-encode, decode-encode_restriction,
}

remove_space_none : (text : Str) → any is_space text ≡ false → remove_space text ≡ text
unfolding remove_space
remove_space_none [] h = refl
remove_space_none (c ∷ cs) h =
    let here : is_space c ≡ false = ground arith in
    rw here (ap (λ (t : Str). c ∷ t) (remove_space_none cs (ground arith)))

length-written : (as' : List Alternative) → as' ≢ [] → 1 ≤ length (written as')
unfolding join_by
length-written [] some_ = absurd (some_ refl)
length-written (a ∷ []) some_ = length-encode a
length-written (a ∷ b ∷ as') some_ =
    omega (arith, length-append (encode a) (b'|' ∷ written (b ∷ as')), length-encode a)

length-encode_restriction : (r : Restriction) → IsRestriction r → 1 ≤ length (encode_restriction r)
unfolding encode_restriction
length-encode_restriction r (some_, valid) = length-written r.alternatives some_

decode_restrictions_step :
    (fuel : ℕ) (text : Str) (r : Restriction) (rest : Str) (rs : List Restriction)
    → 1 ≤ length text
    → decode_restriction text ≡ ok (r, rest)
    → decode_restrictions fuel rest ≡ ok rs
    → decode_restrictions (suc fuel) text ≡ ok (r ∷ rs)
unfolding decode_restrictions
decode_restrictions_step fuel [] r rest rs long here there = absurd (omega arith)
decode_restrictions_step fuel (c ∷ cs) r rest rs long here there = rw (here, there) refl

abbrev joined : List Restriction → Str
joined rs = join_by b'&' (map encode_restriction rs)

decode_restrictions-joined :
    (fuel : ℕ) (rs : List Restriction)
    → All IsRestriction rs
    → length (joined rs) ≤ fuel
    → decode_restrictions fuel (joined rs) ≡ ok rs
unfolding join_by
decode_restrictions-joined fuel [] valid enough = unfold decode_restrictions in refl
decode_restrictions-joined zero (r ∷ []) (here, there) enough =
    absurd (omega (arith, length-encode_restriction r here))
decode_restrictions-joined zero (r ∷ q ∷ rs) (here, there) enough =
    absurd (omega (arith, length-append (encode_restriction r) (b'&' ∷ joined (q ∷ rs))))
decode_restrictions-joined (suc fuel) (r ∷ []) (here, there) enough =
    decode_restrictions_step fuel (encode_restriction r) r [] [] (length-encode_restriction r here)
      (ap decode_restriction (sym (append-nil (encode_restriction r)))
        ∙ decode-encode_restriction r [] here tt)
      (unfold decode_restrictions in refl)
decode_restrictions-joined (suc fuel) (r ∷ q ∷ rs) (here, there) enough =
    let sizes = length-append (encode_restriction r) (b'&' ∷ joined (q ∷ rs)) in
    let long = length-encode_restriction r here in
    decode_restrictions_step fuel (encode_restriction r ++ (b'&' ∷ joined (q ∷ rs))) r
      (joined (q ∷ rs)) (q ∷ rs) (omega arith)
      (decode-encode_restriction r (b'&' ∷ joined (q ∷ rs)) here refl)
      (decode_restrictions-joined fuel (q ∷ rs) there (omega arith))

-- Where every restriction of a rune has an alternative, every alternative has a field and an operator
-- that the constructor takes, and the rune's text has no white space, `RuneLike.from` reads the rune
-- back from the text that `encode` writes.
pub rune_from-encode_rune :
    (rune : RuneLike)
    → All IsRestriction rune.restrictions
    → any is_space (encode_rune rune) ≡ false
    → rune_from (encode_rune rune) ≡ ok rune
unfolding rune_from encode_rune
rune_from-encode_rune rune valid spaceless =
    rw
      (
        remove_space_none (joined rune.restrictions) spaceless,
        decode_restrictions-joined (length (joined rune.restrictions)) rune.restrictions valid
            (omega arith),
      )
      refl
