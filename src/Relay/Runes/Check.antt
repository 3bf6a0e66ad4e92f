-- ===== src/Relay/Runes/Check.antt =====
-- The checks of nostream-share/src/utils/runes: `test` of an alternative, of a restriction and of a
-- rune. The names that are in the values, and what they hold, are a function.
use nostr_mesh.Prelude.{
  ℕ, zero, suc, ◌+◌, ◌-◌, ◌*◌, Bool, true, false, not, ◌&&◌, ◌||◌, Option, none, some, List, [],
  ◌∷◌, ◌++◌, ltb, leb, ◌==◌, if◌then◌else◌,
}
use nostr_mesh.Prelude.Text.{trim_start, Str, codes, ◌===◌, starts_with, is_hex}
use nostr_mesh.Prelude.Result.{Result, ok, err, ◌>>=◌}
use nostr_mesh.Prelude.Number.{ℤ, pos, negsuc, parse_digits, decimal}
use mathlib.Core.List.{reverse}
use nostr_mesh.Relay.Runes.Alternative.{RuneError, type_error, Alternative}
use nostr_mesh.Relay.Runes.Rune.{Restriction, RuneLike}

-- A value: a function that checks the alternative itself, a text, or a value that has no `includes`
-- with what `String` makes of it.
pub data Value : Type 0 where
  function : (Alternative → Option Str) → Value
  text : Str → Value
  plain : Str → Value

-- `Number.parseInt` without a radix reads hexadecimal digits after `0x`.
abbrev digit_value : ℕ → ℕ
digit_value c = if leb c 57 then c - 48 else if leb c 70 then c - 55 else c - 87

abbrev or_zero : Option ℕ → ℕ
or_zero none = 0
or_zero (some n) = n

unfoldable parse_hex : Option ℕ → Str → Option ℕ
parse_hex acc [] = acc
parse_hex acc (c ∷ cs) =
    let more = parse_hex (some (or_zero acc * 16 + digit_value c)) cs in
    if is_hex c then more else acc

unfoldable pub parse_natural : Str → Option ℕ
unfolding parse_digits parse_hex
parse_natural [] = none
parse_natural (a ∷ []) = parse_digits none (a ∷ [])
parse_natural (a ∷ x ∷ rest) =
    if a == b'0' && (x == b'x' || x == b'X')
    then parse_hex none rest
    else parse_digits none (a ∷ x ∷ rest)

abbrev signed : Bool → Option ℕ → Option ℤ
signed minus none = none
signed false (some n) = some (pos n)
signed true (some zero) = some (pos 0)
signed true (some (suc n)) = some (negsuc n)

abbrev parse_sign : Str → Option ℤ
parse_sign [] = none
parse_sign (c ∷ cs) =
    if c == b'-'
    then signed true (parse_natural cs)
    else if c == b'+'
    then signed false (parse_natural cs)
    else signed false (parse_natural (c ∷ cs))

unfoldable pub parse_int : Str → Option ℤ
unfolding trim_start
parse_int s = parse_sign (trim_start s)

unfoldable pub int_ltb : ℤ → ℤ → Bool
int_ltb (pos a) (pos b) = ltb a b
int_ltb (pos a) (negsuc b) = false
int_ltb (negsuc a) (pos b) = true
int_ltb (negsuc a) (negsuc b) = ltb b a

abbrev int_text : ℤ → Str
int_text (pos n) = decimal n
int_text (negsuc n) = b'-' ∷ decimal (suc n)

-- `<` of texts, by their code units.
unfoldable pub text_ltb : Str → Str → Bool
text_ltb [] [] = false
text_ltb [] (b ∷ bs) = true
text_ltb (a ∷ as') [] = false
text_ltb (a ∷ as') (b ∷ bs) = ltb a b || (a == b && text_ltb as' bs)

unfoldable pub ends_with : Str → Str → Bool
ends_with s suffix = starts_with (reverse s) (reverse suffix)

-- `text.includes(part)`.
unfoldable pub contains : Str → Str → Bool
contains [] part = starts_with [] part
contains (c ∷ cs) part = starts_with (c ∷ cs) part || contains cs part

-- `why`.
abbrev pub why : Bool → Str → Str → Option Str
why true field explanation = none
why false field explanation = some (field ++ (codes ": " ++ explanation))

abbrev test_order : Alternative → Option ℤ → Option ℤ → Option Str
test_order a none limit = why false a.field (codes "not an integer field")
test_order a (some actual) none = why false a.field (codes "not a valid integer")
test_order a (some actual) (some limit) =
    if a.cond == b'<'
    then why (int_ltb actual limit) a.field (codes ">= " ++ int_text limit)
    else why (int_ltb limit actual) a.field (codes "<= " ++ int_text limit)

abbrev test_contains : Alternative → Value → Result RuneError (Option Str)
test_contains a (function f) = err type_error
test_contains a (plain s) = err type_error
test_contains a (text s) =
    ok (why (contains s a.value) a.field (codes "does not contain " ++ a.value))

-- The switch; another operator than these the constructor does not take.
unfoldable pub test_text : Alternative → Value → Str → Result RuneError (Option Str)
test_text a v val =
    if a.cond == b'!'
    then ok (why false a.field (codes "is present"))
    else if a.cond == b'='
    then ok (why (val === a.value) a.field (codes "!= " ++ a.value))
    else if a.cond == b'/'
    then ok (why (not (val === a.value)) a.field (codes "= " ++ a.value))
    else if a.cond == b'^'
    then ok (why (starts_with val a.value) a.field (codes "does not start with " ++ a.value))
    else if a.cond == b'$'
    then ok (why (ends_with val a.value) a.field (codes "does not end with " ++ a.value))
    else if a.cond == b'~'
    then test_contains a v
    else if a.cond == b'<' || a.cond == b'>'
    then ok (test_order a (parse_int val) (parse_int a.value))
    else if a.cond == b'{'
    then ok (why (text_ltb val a.value) a.field (codes "is the same or ordered after " ++ a.value))
    else if a.cond == b'}'
    then ok (why (text_ltb a.value val) a.field (codes "is the same or ordered before " ++ a.value))
    else ok none

abbrev pub test_value : Alternative → Option Value → Result RuneError (Option Str)
test_value a none = ok (why (a.cond == b'!') a.field (codes "is missing"))
test_value a (some (function f)) = ok (f a)
test_value a (some (text s)) = test_text a (text s) s
test_value a (some (plain s)) = test_text a (plain s) s

-- `test` of an alternative; `none` is `undefined`, which says that it holds.
unfoldable pub test : (Str → Option Value) → Alternative → Result RuneError (Option Str)
unfolding test_text
test values a = if a.cond == b'#' then ok none else test_value a (values a.field)

unfoldable pub join_and : List Str → Str
join_and [] = []
join_and (s ∷ []) = s
join_and (s ∷ t ∷ rest) = s ++ (codes " AND " ++ join_and (t ∷ rest))

abbrev pub or_next :
    List Str
    → Option Str
    → (List Str → Result RuneError (Option Str))
    → Result RuneError (Option Str)
or_next reasons none next = ok none
or_next reasons (some reason) next = next (reasons ++ (reason ∷ []))

-- The loop of a restriction's `test`, with the reasons so far.
unfoldable pub test_alternatives :
    (Str → Option Value) → List Str → List Alternative → Result RuneError (Option Str)
test_alternatives values reasons [] = ok (some (join_and reasons))
test_alternatives values reasons (a ∷ as') =
    test values a >>= λ reason. or_next reasons reason (λ more. test_alternatives values more as')

unfoldable pub test_restriction : (Str → Option Value) → Restriction → Result RuneError (Option Str)
test_restriction values r = test_alternatives values [] r.alternatives

abbrev pub refused : Option Str → Result RuneError (Bool × Str) → Result RuneError (Bool × Str)
refused none next = next
refused (some reasons) next = ok (false, reasons)

unfoldable pub test_restrictions :
    (Str → Option Value) → List Restriction → Result RuneError (Bool × Str)
test_restrictions values [] = ok (true, [])
test_restrictions values (r ∷ rs) =
    test_restriction values r >>= λ reasons. refused reasons (test_restrictions values rs)

-- `test` of a rune.
unfoldable pub test_rune : (Str → Option Value) → RuneLike → Result RuneError (Bool × Str)
test_rune values rune = test_restrictions values rune.restrictions
