-- ===== src/Api/Hex.antt =====
-- `hexToBytes` of api/src/metadata/schema.ts and of api/src/blossom/client.ts, the same text in
-- both. Each pair goes through `Number.parseInt(pair, 16)`, which skips white space, takes a sign
-- and a prefix 0x, and stops at the first code unit that is no digit.
pub mod Laws
use nostr_mesh.Prelude.{
  ℕ, ◌+◌, ◌-◌, ◌*◌, ◌%◌, Bool, not, Option, none, some, List, [], ◌∷◌, length, ◌==◌, if◌then◌else◌,
  ◌||◌,
}
use nostr_mesh.Prelude.Text.{Str, is_space}
use nostr_mesh.Prelude.Bytes.{Bytes, hex_value}
use nostr_mesh.Prelude.Result.{Result, ok, err, throw_if, ◌>>=◌, ◌>>◌}
use nostr_mesh.Api.Failure.{Failure, odd_hex, invalid_hex}

-- Storing -v in a `Uint8Array` keeps 256 - v.
abbrev negated : Option ℕ → Option ℕ
negated none = none
negated (some v) = some ((256 - v) % 256)

-- The digits of a pair whose first code unit is `a`.
abbrev digits : Option ℕ → Option ℕ → Option ℕ
digits none _ = none
digits (some high) none = some high
digits (some high) (some low) = some (high * 16 + low)

-- `Number.parseInt(a + b, 16)` as it is stored in a byte; `none` is NaN.
unfoldable pub parse_pair : ℕ → ℕ → Option ℕ
parse_pair a b =
    if is_space a
    then hex_value b
    else if a == b'+'
    then hex_value b
    else if a == b'-'
    then negated (hex_value b)
    else if a == b'0'
    then (if b == b'x' || b == b'X' then none else digits (some 0) (hex_value b))
    else digits (hex_value a) (hex_value b)

abbrev number_or_throw : Option ℕ → Result Failure ℕ
number_or_throw none = err invalid_hex
number_or_throw (some v) = ok v

-- The loop; the test before it leaves no single last code unit.
unfoldable pub pairs_to_bytes : Str → Result Failure Bytes
pairs_to_bytes [] = ok []
pairs_to_bytes (a ∷ []) = err odd_hex
pairs_to_bytes (a ∷ b ∷ rest) = do
  byte ← number_or_throw (parse_pair a b)
  bytes ← pairs_to_bytes rest
  ok (byte ∷ bytes)

unfoldable pub hex_to_bytes : Str → Result Failure Bytes
hex_to_bytes value = do throw_if (not (length value % 2 == 0)) odd_hex; pairs_to_bytes value
