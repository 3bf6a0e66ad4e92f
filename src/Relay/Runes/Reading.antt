-- ===== src/Relay/Runes/Reading.antt =====
-- Reading an alternative that was written, nostream-share/src/utils/runes/alternative.ts.
use nostr_mesh.Prelude.{
  ℕ, ◌≡◌, refl, sym, ap, subst, ◌∙◌, ◌⊎◌, inl, inr, true, false, some, [], ◌∷◌, ◌++◌, arith, ◌==◌,
  if◌then◌else◌, Bool-cases, any,
}
use nostr_mesh.Prelude.Text.{Str}
use nostr_mesh.Prelude.Result.{ok}
use mathlib.Core.List.{append_assoc}
use nostr_mesh.Relay.Runes.Alternative.{
  is_punctuation, is_cond, Alternative, new_alternative, is_special, escape, encode, split_operator,
  read_value, decode,
}

-- What the constructor takes.
pub record IsValid (a : Alternative) : Type 0 where
  pub field : any is_punctuation a.field ≡ false
  pub cond : is_cond a.cond ≡ true

abbrev pub IsEnd : Str → Type 0
IsEnd [] = Unit
IsEnd (c ∷ t) = (c ≡ b'|') ⊎ (c ≡ b'&')

abbrev pub after : Str → Str
after [] = []
after (c ∷ t) = if c == b'|' then t else c ∷ t

read_value-end : (tail : Str) → IsEnd tail → read_value false tail ≡ ([], after tail)
unfolding read_value
read_value-end [] end = refl
read_value-end (c ∷ t) (inl bar) = rw bar refl
read_value-end (c ∷ t) (inr and) = rw and refl

plain_value :
    (c : ℕ) (cs : Str)
    → is_special c ≡ false
    → read_value false (c ∷ cs) ≡ (c ∷ (read_value false cs).0, (read_value false cs).1)
unfolding read_value is_special
plain_value c cs h =
    let back : (c == b'\\') ≡ false = ground arith in
    let bar : (c == b'|') ≡ false = ground arith in
    let and : (c == b'&') ≡ false = ground arith in rw (back, bar, and) refl

special_value :
    (c : ℕ) (cs : Str)
    → read_value false (b'\\' ∷ c ∷ cs) ≡ (c ∷ (read_value false cs).0, (read_value false cs).1)
unfolding read_value
special_value c cs = refl

read_value-escape :
    (value tail : Str) → IsEnd tail → read_value false (escape value ++ tail) ≡ (value, after tail)
unfolding escape
read_value-escape [] tail end = read_value-end tail end
read_value-escape (c ∷ cs) tail end =
    let rest = read_value-escape cs tail end in
    elim (Bool-cases (is_special c)) [
      | inl special ↦ rw special (special_value c (escape cs ++ tail) ∙ rw rest refl)
      | inr plain ↦ rw plain (plain_value c (escape cs ++ tail) plain ∙ rw rest refl)
    ]

is_punctuation-is_cond : (c : ℕ) → is_cond c ≡ true → is_punctuation c ≡ true
unfolding is_cond is_punctuation
is_punctuation-is_cond c h = ground arith

split_operator-append :
    (field : Str) (cond : ℕ) (rest : Str)
    → any is_punctuation field ≡ false
    → is_punctuation cond ≡ true
    → split_operator (field ++ (cond ∷ rest)) ≡ some (field, cond, rest)
unfolding split_operator
split_operator-append [] cond rest clean operator = rw operator refl
split_operator-append (c ∷ field) cond rest clean operator =
    let here : is_punctuation c ≡ false = ground arith in
    let there : any is_punctuation field ≡ false = ground arith in
    rw (here, split_operator-append field cond rest there operator) refl

new_alternative_valid :
    (a : Alternative) → IsValid a → new_alternative a.field a.cond a.value ≡ ok a
unfolding new_alternative
new_alternative_valid a valid = rw (valid.field, valid.cond) refl

-- An alternative reads back, with the text after it.
pub decode-encode :
    (a : Alternative) (tail : Str)
    → IsValid a
    → IsEnd tail
    → decode (encode a ++ tail) ≡ ok (a, after tail)
unfolding decode encode
decode-encode a tail valid end =
    ap decode (append_assoc a.field (a.cond ∷ escape a.value) tail)
    ∙ rw
        (
          split_operator-append a.field a.cond (escape a.value ++ tail) valid.field
              (is_punctuation-is_cond a.cond valid.cond),
          read_value-escape a.value tail end,
          new_alternative_valid a valid,
        )
        refl

-- A text that neither is empty nor begins with `&`.
abbrev pub IsFront : Str → Type 0
IsFront [] = ⊥
IsFront (c ∷ cs) = (c == b'&') ≡ false

append-IsFront :
    (field : Str) (cond : ℕ) (rest : Str)
    → any is_punctuation field ≡ false
    → is_cond cond ≡ true
    → IsFront (field ++ (cond ∷ rest))
unfolding is_punctuation is_cond
append-IsFront [] cond rest clean operator = ground arith
append-IsFront (c ∷ field) cond rest clean operator = ground arith

pub encode-IsFront : (a : Alternative) (tail : Str) → IsValid a → IsFront (encode a ++ tail)
unfolding encode
encode-IsFront a tail valid =
    subst IsFront (sym (append_assoc a.field (a.cond ∷ escape a.value) tail))
      (append-IsFront a.field a.cond (escape a.value ++ tail) valid.field valid.cond)
