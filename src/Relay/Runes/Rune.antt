-- ===== src/Relay/Runes/Rune.antt =====
-- nostream-share/src/utils/runes/restriction.ts and rune-like.ts: alternatives in restrictions and
-- restrictions in a rune, as text and back. A loop runs on fuel, the length of its text; that this is
-- enough is shown in Runes/RoundTrip.antt.
use nostr_mesh.Prelude.{ℕ, zero, suc, true, false, List, [], ◌∷◌, ◌++◌, map, ◌==◌, length}
use nostr_mesh.Prelude.Text.{Str}
use nostr_mesh.Prelude.Result.{Result, ok, err, ◌>>=◌}
use nostr_mesh.Relay.Runes.Alternative.{
  RuneError, no_alternatives, unfinished, Alternative, encode, decode, remove_space,
}

pub record Restriction : Type 0 where
  pub alternatives : List Alternative

pub record RuneLike : Type 0 where
  pub restrictions : List Restriction

-- The constructor of a restriction.
unfoldable pub new_restriction : List Alternative → Result RuneError Restriction
new_restriction [] = err no_alternatives
new_restriction (a ∷ as') = ok (record { alternatives = a ∷ as' })

-- `texts.join(separator)` for one code unit.
unfoldable pub join_by : ℕ → List Str → Str
join_by separator [] = []
join_by separator (s ∷ []) = s
join_by separator (s ∷ t ∷ rest) = s ++ (separator ∷ join_by separator (t ∷ rest))

unfoldable pub encode_restriction : Restriction → Str
encode_restriction r = join_by b'|' (map encode r.alternatives)

unfoldable pub encode_rune : RuneLike → Str
encode_rune rune = join_by b'&' (map encode_restriction rune.restrictions)

abbrev pub cons_alternative :
    Alternative → List Alternative × Str → Result RuneError (List Alternative × Str)
cons_alternative a (as', rest) = ok (a ∷ as', rest)

-- The loop of `Restriction.decode`.
unfoldable pub decode_alternatives : ℕ → Str → Result RuneError (List Alternative × Str)
decode_alternatives fuel [] = ok ([], [])
decode_alternatives zero (c ∷ cs) = err unfinished
decode_alternatives (suc fuel) (c ∷ cs) = elim (c == b'&') [
  | true ↦ ok ([], cs)
  | false ↦
      decode (c ∷ cs) >>= λ found. decode_alternatives fuel found.1 >>= cons_alternative found.0
]

abbrev pub close_restriction : List Alternative × Str → Result RuneError (Restriction × Str)
close_restriction (as', rest) = new_restriction as' >>= λ r. ok (r, rest)

unfoldable pub decode_restriction : Str → Result RuneError (Restriction × Str)
decode_restriction text = decode_alternatives (length text) text >>= close_restriction

-- The loop of `RuneLike.from`.
unfoldable pub decode_restrictions : ℕ → Str → Result RuneError (List Restriction)
decode_restrictions fuel [] = ok []
decode_restrictions zero (c ∷ cs) = err unfinished
decode_restrictions (suc fuel) (c ∷ cs) = decode_restriction (c ∷ cs) >>= λ found.
    decode_restrictions fuel found.1 >>= λ rs. ok (found.0 ∷ rs)

-- `RuneLike.from`.
unfoldable pub rune_from : Str → Result RuneError RuneLike
rune_from text =
    let compact = remove_space text in
    decode_restrictions (length compact) compact >>= λ rs. ok (record { restrictions = rs })
