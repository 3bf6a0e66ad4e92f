-- ===== src/Prelude/Bytes.antt =====
-- Node's `Buffer.from(text, "hex")` and `buffer.toString("hex")`. Decoding stops at the first pair
-- that is not two hexadecimal digits, and drops an odd last digit.
use Prim.Native.Nat.{ℕ, ◌+◌, ◌-◌, ◌*◌, ◌/◌, ◌%◌, ◌<◌}
use mathlib.Core.Path.{◌≡◌, refl}
use mathlib.Core.Bool.{true, ◌&&◌}
use mathlib.Core.Option.{Option, none, some}
use mathlib.Core.List.{List, [], ◌∷◌}
use native.Mathlib.Omega.{arith}
use nostr_mesh.Prelude.Tests.{ltb, leb, if◌then◌else◌}
use nostr_mesh.Prelude.Lists.{length, all, All}
use nostr_mesh.Prelude.Text.{Str, is_hex_lower, is_hash_lower, is_hex, is_hash}

abbrev pub Bytes : Type 0
Bytes = List ℕ

abbrev pub IsByte : ℕ → Type 0
IsByte b = b < 256

unfoldable pub hex_value : ℕ → Option ℕ
hex_value c =
    if leb 48 c && leb c 57
    then some (c - 48)
    else if leb 97 c && leb c 102
    then some (c - 87)
    else if leb 65 c && leb c 70
    then some (c - 55)
    else none

unfoldable pub hex_digit : ℕ → ℕ
hex_digit n = if ltb n 10 then n + 48 else n + 87

-- One decoded pair in front of the rest; nothing if a digit is not one.
abbrev pub cons_pair : Option ℕ → Option ℕ → Bytes → Bytes
cons_pair (some high) (some low) rest = (high * 16 + low) ∷ rest
cons_pair _ _ rest = []

unfoldable pub from_hex : Str → Bytes
unfolding hex_value
from_hex [] = []
from_hex (a ∷ []) = []
from_hex (a ∷ b ∷ rest) = cons_pair (hex_value a) (hex_value b) (from_hex rest)

unfoldable pub to_hex : Bytes → Str
unfolding hex_digit
to_hex [] = []
to_hex (b ∷ bs) = hex_digit (b / 16) ∷ hex_digit (b % 16) ∷ to_hex bs

pub hex_value-hex_digit : (n : ℕ) → n < 16 → hex_value (hex_digit n) ≡ some n
unfolding hex_value hex_digit
hex_value-hex_digit n h = ground arith

pub hex_value-lt : (c v : ℕ) → hex_value c ≡ some v → v < 16
unfolding hex_value
hex_value-lt c v h = ground arith

-- Decoding undoes encoding.
pub from_hex-to_hex : (bs : Bytes) → All IsByte bs → from_hex (to_hex bs) ≡ bs
unfolding to_hex from_hex
from_hex-to_hex [] h = refl
from_hex-to_hex (b ∷ bs) (small, h) =
    ground (arith, hex_value-hex_digit (b / 16), hex_value-hex_digit (b % 16), from_hex-to_hex bs h)

cons_pair-IsByte :
    (x y : Option ℕ) (rest : Bytes)
    → ((v : ℕ) → x ≡ some v → v < 16)
    → ((v : ℕ) → y ≡ some v → v < 16)
    → All IsByte rest
    → All IsByte (cons_pair x y rest)
cons_pair-IsByte (some high) (some low) rest hx hy h =
    let high_small = hx high refl in let low_small = hy low refl in (omega arith, h)
cons_pair-IsByte none _ rest hx hy h = tt
cons_pair-IsByte (some high) none rest hx hy h = tt

pub from_hex-IsByte : (s : Str) → All IsByte (from_hex s)
unfolding from_hex
from_hex-IsByte [] = tt
from_hex-IsByte (a ∷ []) = tt
from_hex-IsByte (a ∷ b ∷ rest) =
    cons_pair-IsByte _ _ _ (hex_value-lt a) (hex_value-lt b) (from_hex-IsByte rest)

pub length-to_hex : (bs : Bytes) → length (to_hex bs) ≡ 2 * length bs
unfolding to_hex
length-to_hex [] = refl
length-to_hex (b ∷ bs) = omega (arith, length-to_hex bs)

hex_digit-is_hex_lower : (n : ℕ) → n < 16 → is_hex_lower (hex_digit n) ≡ true
unfolding is_hex_lower hex_digit
hex_digit-is_hex_lower n h = ground arith

to_hex-is_hex_lower : (bs : Bytes) → All IsByte bs → all is_hex_lower (to_hex bs) ≡ true
unfolding to_hex
to_hex-is_hex_lower [] h = refl
to_hex-is_hex_lower (b ∷ bs) (small, h) = ground (
  arith,
  hex_digit-is_hex_lower (b / 16),
  hex_digit-is_hex_lower (b % 16),
  to_hex-is_hex_lower bs h,
)

-- 32 bytes are written as 64 lower-case digits.
pub to_hex-is_hash_lower :
    (bs : Bytes) → All IsByte bs → length bs ≡ 32 → is_hash_lower (to_hex bs) ≡ true
unfolding is_hash_lower
to_hex-is_hash_lower bs h k = ground (arith, length-to_hex bs, to_hex-is_hex_lower bs h)

all-is_hex : (s : Str) → all is_hex_lower s ≡ true → all is_hex s ≡ true
unfolding is_hex
all-is_hex [] h = refl
all-is_hex (c ∷ s) h = ground (arith, all-is_hex s)

pub is_hash_of_lower : (s : Str) → is_hash_lower s ≡ true → is_hash s ≡ true
unfolding is_hash is_hash_lower
is_hash_of_lower s h = ground (arith, all-is_hex s)
