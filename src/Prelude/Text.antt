-- ===== src/Prelude/Text.antt =====
-- JavaScript strings as lists of UTF-16 code units, with the operations of the language that the
-- source uses. `to_lower_case` changes the letters A to Z alone: no other code unit is lowered to a
-- hexadecimal digit, and the source only lowers what it then holds to be hexadecimal.
use Prim.Native.Char.{code}
use Prim.Native.String
use Prim.Native.Nat.{ℕ, ◌+◌}
use mathlib.Core.Path.{◌≡◌, refl}
use mathlib.Core.Bool.{Bool, true, false, ◌&&◌, ◌||◌}
use mathlib.Core.Logic.{◌↔◌}
use mathlib.Core.List.{List, [], ◌∷◌, map, reverse}
use native.Mathlib.Omega.{arith}
use nostr_mesh.Prelude.Tests.{leb, ◌==◌, if◌then◌else◌, &&_parts, ==_iff}
use nostr_mesh.Prelude.Lists.{length, all}

abbrev pub Str : Type 0
Str = List ℕ

abbrev pub codes : String.String → Str
codes String.[] = []
codes (String.◌∷◌ c s) = code c ∷ codes s

infix 50 ◌===◌
unfoldable pub ◌===◌ : Str → Str → Bool
[] === [] = true
[] === (b ∷ bs) = false
(a ∷ as') === [] = false
(a ∷ as') === (b ∷ bs) = a == b && as' === bs

pub ===_iff : (a b : Str) → ((a === b) ≡ true) ↔ (a ≡ b)
unfolding ◌===◌
===_iff [] [] = ground arith
===_iff [] (b ∷ bs) = ground arith
===_iff (a ∷ as') [] = ground arith
===_iff (a ∷ as') (b ∷ bs) = ground (arith, ===_iff as' bs)

pub ===_refl : (a : Str) → (a === a) ≡ true
===_refl a = (===_iff a a).1 refl

-- `input.startsWith(prefix)`.
unfoldable pub starts_with : Str → Str → Bool
starts_with input [] = true
starts_with [] (p ∷ ps) = false
starts_with (c ∷ cs) (p ∷ ps) = c == p && starts_with cs ps

-- `list.includes(text)`.
unfoldable pub includes : List Str → Str → Bool
includes [] s = false
includes (x ∷ xs) s = s === x || includes xs s

-- White space as `trim`, `parseInt` and `\s` know it.
unfoldable pub is_space : ℕ → Bool
is_space c =
    (leb 9 c && leb c 13)
    || c == 32
    || c == 160
    || c == 0x1680
    || (leb 0x2000 c && leb c 0x200a)
    || c == 0x2028
    || c == 0x2029
    || c == 0x202f
    || c == 0x205f
    || c == 0x3000
    || c == 0xfeff

unfoldable pub trim_start : Str → Str
unfolding is_space
trim_start [] = []
trim_start (c ∷ cs) = if is_space c then trim_start cs else c ∷ cs

unfoldable pub trim : Str → Str
unfolding trim_start
trim s = reverse (trim_start (reverse (trim_start s)))

unfoldable pub lower_unit : ℕ → ℕ
lower_unit c = if leb 65 c && leb c 90 then c + 32 else c

unfoldable pub to_lower_case : Str → Str
unfolding lower_unit
to_lower_case s = map lower_unit s

-- The classes `[a-f0-9]` and, with the flag `i`, `[a-fA-F0-9]`.
unfoldable pub is_hex_lower : ℕ → Bool
is_hex_lower c = (leb 48 c && leb c 57) || (leb 97 c && leb c 102)

unfoldable pub is_hex : ℕ → Bool
unfolding is_hex_lower
is_hex c = is_hex_lower c || (leb 65 c && leb c 70)

-- `/^[a-f0-9]{64}$/` and `/^[a-f0-9]{64}$/i`.
unfoldable pub is_hash_lower : Str → Bool
is_hash_lower s = length s == 64 && all is_hex_lower s

unfoldable pub is_hash : Str → Bool
is_hash s = length s == 64 && all is_hex s

pub is_hash_parts : (s : Str) → is_hash s ≡ true → (length s ≡ 64) × (all is_hex s ≡ true)
unfolding is_hash
is_hash_parts s h =
    let (size, digits) = &&_parts (length s == 64) (all is_hex s) h in
    ((==_iff (length s) 64).0 size, digits)

pub is_hash_lower_parts :
    (s : Str) → is_hash_lower s ≡ true → (length s ≡ 64) × (all is_hex_lower s ≡ true)
unfolding is_hash_lower
is_hash_lower_parts s h =
    let (size, digits) = &&_parts (length s == 64) (all is_hex_lower s) h in
    ((==_iff (length s) 64).0 size, digits)

-- `text.replace(/\/$/, "")`.
unfoldable pub strip_slash : Str → Str
strip_slash [] = []
strip_slash (c ∷ []) = if c == b'/' then [] else c ∷ []
strip_slash (c ∷ d ∷ cs) = c ∷ strip_slash (d ∷ cs)
