-- ===== src/Relay/Runes/Termination.antt =====
-- The loops of nostream-share/src/utils/runes come to their end.
use nostr_mesh.Prelude.{
  ℕ, zero, suc, ◌≤◌, ◌<◌, refl, subst, ◌≢◌, inl, inr, Bool, true, false, Option, none, some, List,
  [], ◌∷◌, arith, ◌==◌, Bool-cases, length, any,
}
use nostr_mesh.Prelude.Text.{Str}
use nostr_mesh.Prelude.Result.{Result, ok, err, ◌>>=◌}
use nostr_mesh.Relay.Runes.Alternative.{
  RuneError, unfinished, is_punctuation, is_cond, Alternative, new_alternative, split_operator,
  read_value, decode_split, decode, remove_space, and_rest, onto,
}
use nostr_mesh.Relay.Runes.Rune.{
  Restriction, new_restriction, decode_alternatives, decode_restriction, decode_restrictions,
  rune_from, cons_alternative, close_restriction,
}

-- What was read leaves fewer than so many code units; an error is one of the source.
abbrev Leaves {ℓ} : {A : Type ℓ} → ℕ → Result RuneError (A × Str) → Type 0
Leaves n (ok (a, rest)) = length rest < n
Leaves n (err e) = e ≢ unfinished

Leaves-mono {ℓ} :
    {A : Type ℓ} (n m : ℕ) (r : Result RuneError (A × Str)) → n ≤ m → Leaves n r → Leaves m r
Leaves-mono n m (ok (a, rest)) small h = omega arith
Leaves-mono n m (err e) small h = h

read_value-length : (escaped : Bool) (text : Str) → length (read_value escaped text).1 ≤ length text
unfolding read_value
read_value-length true [] = omega arith
read_value-length false [] = omega arith
read_value-length true (c ∷ cs) = omega (arith, read_value-length false cs)
read_value-length false (c ∷ cs) = ground (arith, read_value-length (c == b'\\') cs)

new_alternative-Leaves :
    (field : Str) (cond : ℕ) (value rest : Str) (n : ℕ)
    → length rest < n
    → Leaves n (new_alternative field cond value >>= and_rest rest)
unfolding new_alternative
new_alternative-Leaves field cond value rest n h = elim (Bool-cases (any is_punctuation field)) [
  | inl bad ↦ rw bad (λ e. cc e)
  | inr good ↦ elim (Bool-cases (is_cond cond)) [
    | inl known ↦ rw (good, known) h
    | inr unknown ↦ rw (good, unknown) (λ e. cc e)
  ]
]

Within : ℕ → Option (Str × ℕ × Str) → Type 0
Within n none = Unit
Within n (some (field, cond, rest)) = length rest < n

onto-Within : (c n : ℕ) (o : Option (Str × ℕ × Str)) → Within n o → Within (suc n) (onto c o)
unfolding Within
onto-Within c n none h = tt
onto-Within c n (some (field, cond, rest)) h = omega arith

split_operator-Within : (text : Str) → Within (length text) (split_operator text)
unfolding Within split_operator
split_operator-Within [] = tt
split_operator-Within (c ∷ cs) = elim (Bool-cases (is_punctuation c)) [
  | inl here ↦ rw (split_operator, here) (omega arith)
  | inr there ↦
      rw (split_operator, there)
        (onto-Within c (length cs) (split_operator cs) (split_operator-Within cs))
]

decode_split-Leaves :
    (text : Str) (n : ℕ) (o : Option (Str × ℕ × Str)) → Within n o → Leaves n (decode_split text o)
unfolding Within
decode_split-Leaves text n none h = λ e. cc e
decode_split-Leaves text n (some (field, cond, rest)) h =
    new_alternative-Leaves field cond (read_value false rest).0 (read_value false rest).1 n
      (omega (arith, read_value-length false rest))

-- `Alternative.decode` leaves less than it was given.
decode-Leaves : (text : Str) → Leaves (length text) (decode text)
unfolding decode
decode-Leaves text =
    decode_split-Leaves text (length text) (split_operator text) (split_operator-Within text)

and_cons-Leaves :
    (n : ℕ) (a : Alternative) (r : Result RuneError (List Alternative × Str))
    → Leaves n r
    → Leaves n (r >>= cons_alternative a)
and_cons-Leaves n a (ok (as', rest)) h = h
and_cons-Leaves n a (err e) h = h

and_more-Leaves :
    (n fuel : ℕ) (r : Result RuneError (Alternative × Str))
    → n ≤ fuel
    → Leaves (suc n) r
    → ((rest : Str)
        → length rest ≤ fuel
        → Leaves (suc (length rest)) (decode_alternatives fuel rest))
    → Leaves (suc n) (r >>= λ found. decode_alternatives fuel found.1 >>= cons_alternative found.0)
and_more-Leaves n fuel (ok (a, rest)) enough h more =
    Leaves-mono (suc (length rest)) (suc n) (decode_alternatives fuel rest >>= cons_alternative a)
      (omega arith)
      (and_cons-Leaves (suc (length rest)) a (decode_alternatives fuel rest)
        (more rest (omega arith)))
and_more-Leaves n fuel (err e) enough h more = h

decode_alternatives_front :
    (fuel c : ℕ) (cs : Str)
    → length cs ≤ fuel
    → ((rest : Str)
        → length rest ≤ fuel
        → Leaves (suc (length rest)) (decode_alternatives fuel rest))
    → Leaves (suc (length cs)) (decode_alternatives (suc fuel) (c ∷ cs))
unfolding decode_alternatives
decode_alternatives_front fuel c cs enough more = elim (Bool-cases (c == b'&')) [
  | inl and ↦ rw (decode_alternatives, and) (omega arith)
  | inr other ↦
      rw (decode_alternatives, other)
        (and_more-Leaves (length cs) fuel (decode (c ∷ cs)) enough (decode-Leaves (c ∷ cs)) more)
]

decode_alternatives-Leaves :
    (fuel : ℕ) (text : Str)
    → length text ≤ fuel
    → Leaves (suc (length text)) (decode_alternatives fuel text)
unfolding decode_alternatives
decode_alternatives-Leaves fuel [] enough = omega arith
decode_alternatives-Leaves zero (c ∷ cs) enough = absurd (omega arith)
decode_alternatives-Leaves (suc fuel) (c ∷ cs) enough =
    Leaves-mono (suc (length cs)) (suc (suc (length cs))) (decode_alternatives (suc fuel) (c ∷ cs))
      (omega arith)
      (decode_alternatives_front fuel c cs (omega arith) (decode_alternatives-Leaves fuel))

close-Leaves :
    (n : ℕ) (r : Result RuneError (List Alternative × Str))
    → Leaves n r
    → Leaves n (r >>= close_restriction)
unfolding new_restriction
close-Leaves n (ok ([], rest)) h = λ e. cc e
close-Leaves n (ok (a ∷ as', rest)) h = h
close-Leaves n (err e) h = h

-- `Restriction.decode` leaves less than it was given.
decode_restriction-Leaves :
    (c : ℕ) (cs : Str) → Leaves (suc (length cs)) (decode_restriction (c ∷ cs))
unfolding decode_restriction
decode_restriction-Leaves c cs =
    close-Leaves (suc (length cs)) (decode_alternatives (suc (length cs)) (c ∷ cs)) (
      decode_alternatives_front (length cs) c cs (omega arith)
        (decode_alternatives-Leaves (length cs)))

-- A value, or an error of the source.
abbrev Finished {ℓ} : {A : Type ℓ} → Result RuneError A → Type 0
Finished (ok a) = Unit
Finished (err e) = e ≢ unfinished

bind-Finished {ℓ κ} :
    {A : Type ℓ} {B : Type κ} (r : Result RuneError A) (next : A → B)
    → Finished r
    → Finished (r >>= λ a. ok (next a))
bind-Finished (ok a) next h = tt
bind-Finished (err e) next h = h

and_rest-Finished :
    (n fuel : ℕ) (r : Result RuneError (Restriction × Str))
    → n ≤ fuel
    → Leaves (suc n) r
    → ((rest : Str) → length rest ≤ fuel → Finished (decode_restrictions fuel rest))
    → Finished (r >>= λ found. decode_restrictions fuel found.1 >>= λ rs. ok (found.0 ∷ rs))
and_rest-Finished n fuel (ok (q, rest)) enough h more =
    bind-Finished (decode_restrictions fuel rest) (λ rs. q ∷ rs) (more rest (omega arith))
and_rest-Finished n fuel (err e) enough h more = h

decode_restrictions-Finished :
    (fuel : ℕ) (text : Str) → length text ≤ fuel → Finished (decode_restrictions fuel text)
unfolding decode_restrictions
decode_restrictions-Finished fuel [] enough = tt
decode_restrictions-Finished zero (c ∷ cs) enough = absurd (omega arith)
decode_restrictions-Finished (suc fuel) (c ∷ cs) enough =
    and_rest-Finished (length cs) fuel (decode_restriction (c ∷ cs)) (omega arith)
      (decode_restriction-Leaves c cs) (decode_restrictions-Finished fuel)

rune_from-Finished : (text : Str) → Finished (rune_from text)
unfolding rune_from
rune_from-Finished text =
    bind-Finished (decode_restrictions (length (remove_space text)) (remove_space text)) _
      (decode_restrictions-Finished (length (remove_space text)) (remove_space text) (omega arith))

-- The loops of `Alternative.decode`, `Restriction.decode` and `RuneLike.from` end on every text: the
-- length of the text is enough fuel for them.
pub rune_from_finished : (text : Str) → rune_from text ≢ err unfinished
rune_from_finished text = λ e. subst Finished e (rune_from-Finished text) refl
