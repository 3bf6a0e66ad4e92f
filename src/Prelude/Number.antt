-- ===== src/Prelude/Number.antt =====
-- `Number.parseInt(text, 10)` and `String(n)` of a natural number. Numbers are exact here; in
-- JavaScript they are so up to 2 ^ 53.
use nostr_mesh.Prelude.Tests.{ltb, leb, ◌==◌, if◌then◌else◌, Bool-cases, ltb→lt, le_of_not_ltb}
use nostr_mesh.Prelude.Text.{Str, is_space, trim_start}
use Prim.Native.Nat.{ℕ, zero, suc, ◌+◌, ◌-◌, ◌*◌, ◌/◌, ◌%◌, ◌≤◌, ◌<◌}
use mathlib.Core.Path.{◌≡◌, refl, sym, ap, ◌∙◌}
use mathlib.Core.Logic.{inl, inr}
use mathlib.Core.Bool.{Bool, true, false, ◌&&◌}
use mathlib.Core.Option.{Option, none, some}
use mathlib.Core.List.{[], ◌∷◌, ◌++◌, append_assoc, append-nil}
use native.Mathlib.Omega.{arith}

-- `negsuc n` is -(n + 1).
pub data ℤ : Type 0 where
  pos : ℕ → ℤ
  negsuc : ℕ → ℤ

abbrev is_digit : ℕ → Bool
is_digit c = leb 48 c && leb c 57

abbrev or_zero : Option ℕ → ℕ
or_zero none = 0
or_zero (some n) = n

-- The digits up to the first code unit that is none; `none` where there is no digit.
unfoldable pub parse_digits : Option ℕ → Str → Option ℕ
parse_digits acc [] = acc
parse_digits acc (c ∷ cs) =
    let more = parse_digits (some (or_zero acc * 10 + (c - 48))) cs in
    if is_digit c then more else acc

abbrev positive : Option ℕ → Option ℤ
positive none = none
positive (some n) = some (pos n)

abbrev opposite : Option ℕ → Option ℤ
opposite none = none
opposite (some zero) = some (pos 0)
opposite (some (suc n)) = some (negsuc n)

unfoldable pub parse_signed : Str → Option ℤ
unfolding parse_digits
parse_signed [] = none
parse_signed (c ∷ cs) =
    if c == b'-'
    then opposite (parse_digits none cs)
    else if c == b'+'
    then positive (parse_digits none cs)
    else positive (parse_digits none (c ∷ cs))

-- `none` is NaN.
unfoldable pub parse_int : Str → Option ℤ
unfolding parse_signed trim_start
parse_int s = parse_signed (trim_start s)

unfoldable pub decimal_fuel : ℕ → ℕ → Str
decimal_fuel zero n = []
decimal_fuel (suc f) n =
    let more = decimal_fuel f (n / 10) ++ (n % 10 + 48) ∷ [] in
    if ltb n 10 then (n + 48) ∷ [] else more

-- A number has fewer digits than its successor counts: the fuel suffices.
unfoldable pub decimal : ℕ → Str
unfolding decimal_fuel
decimal n = decimal_fuel (suc n) n

digit_step :
    (acc : Option ℕ) (d : ℕ) (rest : Str)
    → d < 10
    → parse_digits acc ((d + 48) ∷ rest) ≡ parse_digits (some (or_zero acc * 10 + d)) rest
unfolding parse_digits
digit_step acc d rest h =
    let same : d + 48 - 48 ≡ d = omega arith in
    let test : is_digit (d + 48) ≡ true = ground arith in rw (test, same)

parse_digits-decimal :
    (f n : ℕ) (rest : Str)
    → n < f
    → parse_digits none (decimal_fuel f n ++ rest) ≡ parse_digits (some n) rest
unfolding decimal_fuel
parse_digits-decimal zero n rest h = elim h [ ]
parse_digits-decimal (suc f) n rest h = elim (Bool-cases (ltb n 10)) [
  | inl small ↦ rw small (
      digit_step none n rest (ltb→lt n 10 small)
      ∙ ap (λ (t : ℕ). parse_digits (some t) rest) (omega arith))
  | inr large ↦
      let many : 10 ≤ n = le_of_not_ltb n 10 large in
      rw (large, append_assoc (decimal_fuel f (n / 10)) ((n % 10 + 48) ∷ []) rest)
        (parse_digits-decimal f (n / 10) ((n % 10 + 48) ∷ rest) (omega arith)
          ∙ digit_step (some (n / 10)) (n % 10) rest (omega arith)
          ∙ ap (λ (t : ℕ). parse_digits (some t) rest) (omega arith))
]

-- The first code unit of a number is a digit.
abbrev Begins : Str → Type 0
Begins s = (c : ℕ) × (cs : Str) × (s ≡ c ∷ cs) × (48 ≤ c) × (c ≤ 57)

Begins-append : (s t : Str) → Begins s → Begins (s ++ t)
Begins-append s t (c, cs, e, low, high) = (c, cs ++ t, ap (λ u. u ++ t) e, low, high)

decimal_fuel-Begins : (f n : ℕ) → n < f → Begins (decimal_fuel f n)
unfolding decimal_fuel
decimal_fuel-Begins zero n h = elim h [ ]
decimal_fuel-Begins (suc f) n h = elim (Bool-cases (ltb n 10)) [
  | inl small ↦ let d = ltb→lt n 10 small in rw small (n + 48, [], refl, omega arith, omega arith)
  | inr large ↦
      let many : 10 ≤ n = le_of_not_ltb n 10 large in
      rw large
        (Begins-append (decimal_fuel f (n / 10)) _ (decimal_fuel-Begins f (n / 10) (omega arith)))
]

is_space_digit : (c : ℕ) → 48 ≤ c → c ≤ 57 → is_space c ≡ false
unfolding is_space
is_space_digit c h k = ground arith

parse_int_of_Begins : (s : Str) → Begins s → parse_int s ≡ positive (parse_digits none s)
unfolding parse_int
parse_int_of_Begins s (c, cs, e, low, high) =
    let minus : (c == b'-') ≡ false = ground arith in
    let plus : (c == b'+') ≡ false = ground arith in rw (e, is_space_digit c low high, minus, plus)

-- Reading a number that was written gives it back.
pub parse_int-decimal : (n : ℕ) → parse_int (decimal n) ≡ some (pos n)
unfolding decimal
parse_int-decimal n =
    let read : parse_digits none (decimal_fuel (suc n) n) ≡ some n =
      ap (parse_digits none) (sym (append-nil (decimal_fuel (suc n) n)))
      ∙ parse_digits-decimal (suc n) n [] (omega arith)
      ∙ (unfold parse_digits in refl) in
    parse_int_of_Begins _ (decimal_fuel-Begins (suc n) n (omega arith)) ∙ rw read
