-- ===== src/Prelude/Hash.antt =====
-- Normalising the text of a hash: `trim` and `toLowerCase` leave 64 lower-case digits as they are.
use nostr_mesh.Prelude.Tests.{&&_parts}
use nostr_mesh.Prelude.Lists.{length, all}
use nostr_mesh.Prelude.Text.{
  Str, is_space, trim_start, trim, lower_unit, to_lower_case, is_hex, is_hex_lower, is_hash,
  is_hash_lower, is_hash_parts, is_hash_lower_parts,
}
use Prim.Native.Nat.{ℕ}
use mathlib.Core.Path.{◌≡◌, refl, ap, ◌∙◌}
use mathlib.Core.Bool.{true, false, ◌&&◌}
use mathlib.Core.List.{[], ◌∷◌, ◌++◌, reverse, reverse-cons, reverse-reverse}
use native.Mathlib.Omega.{arith}

is_space-is_hex_lower : (c : ℕ) → is_hex_lower c ≡ true → is_space c ≡ false
unfolding is_space is_hex_lower
is_space-is_hex_lower c h = ground arith

lower_unit-is_hex_lower : (c : ℕ) → is_hex_lower c ≡ true → lower_unit c ≡ c
unfolding lower_unit is_hex_lower
lower_unit-is_hex_lower c h = ground arith

is_hex_lower-lower_unit : (c : ℕ) → is_hex c ≡ true → is_hex_lower (lower_unit c) ≡ true
unfolding lower_unit is_hex is_hex_lower
is_hex_lower-lower_unit c h = ground arith

trim_start_hex : (s : Str) → all is_hex_lower s ≡ true → trim_start s ≡ s
unfolding trim_start
trim_start_hex [] h = refl
trim_start_hex (c ∷ s) h =
    let (here, rest) = &&_parts (is_hex_lower c) (all is_hex_lower s) h in
    rw (is_space-is_hex_lower c here)

all-append :
    (xs ys : Str) → all is_hex_lower (xs ++ ys) ≡ (all is_hex_lower xs && all is_hex_lower ys)
all-append [] ys = refl
all-append (x ∷ xs) ys = ground (arith, all-append xs ys)

all-reverse : (xs : Str) → all is_hex_lower (reverse xs) ≡ all is_hex_lower xs
all-reverse [] = refl
all-reverse (x ∷ xs) =
    rw (reverse-cons, all-append (reverse xs) (x ∷ []), all-reverse xs) (ground arith)

trim_hex : (s : Str) → all is_hex_lower s ≡ true → trim s ≡ s
unfolding trim
trim_hex s h =
    ap (λ t. reverse (trim_start (reverse t))) (trim_start_hex s h)
    ∙ ap reverse (trim_start_hex (reverse s) (all-reverse s ∙ h))
    ∙ reverse-reverse s

to_lower_hex : (s : Str) → all is_hex_lower s ≡ true → to_lower_case s ≡ s
unfolding to_lower_case
to_lower_hex [] h = refl
to_lower_hex (c ∷ s) h =
    let (here, rest) = &&_parts (is_hex_lower c) (all is_hex_lower s) h in
    rw (lower_unit-is_hex_lower c here) (ap (λ t. c ∷ t) (to_lower_hex s rest))

-- A lower-case hash is already normal.
pub normal_hash : (s : Str) → is_hash_lower s ≡ true → to_lower_case (trim s) ≡ s
normal_hash s h =
    let (_, digits) = is_hash_lower_parts s h in
    ap to_lower_case (trim_hex s digits) ∙ to_lower_hex s digits

length-to_lower : (s : Str) → length (to_lower_case s) ≡ length s
unfolding to_lower_case
length-to_lower [] = refl
length-to_lower (c ∷ s) = omega (arith, length-to_lower s)

all-to_lower : (s : Str) → all is_hex s ≡ true → all is_hex_lower (to_lower_case s) ≡ true
unfolding to_lower_case
all-to_lower [] h = refl
all-to_lower (c ∷ s) h =
    let (here, rest) = &&_parts (is_hex c) (all is_hex s) h in
    rw (is_hex_lower-lower_unit c here) (all-to_lower s rest)

-- Lowering 64 hexadecimal digits gives 64 lower-case ones.
pub to_lower-is_hash : (s : Str) → is_hash s ≡ true → is_hash_lower (to_lower_case s) ≡ true
unfolding is_hash_lower
to_lower-is_hash s h =
    let (size, digits) = is_hash_parts s h in rw (length-to_lower s, size, all-to_lower s digits)
