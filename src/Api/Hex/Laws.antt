-- ===== src/Api/Hex/Laws.antt =====
-- On hexadecimal text `hexToBytes` agrees with Node's decoder; on other text it may not throw.
use nostr_mesh.Prelude.{
  ℕ, ◌+◌, ◌*◌, ◌%◌, ◌≤◌, ◌<◌, ◌≡◌, refl, ◌∙◌, ◌≢◌, ◌⊎◌, inl, inr, true, false, ◌||◌, none, some, [],
  ◌∷◌, arith, ◌==◌, Option-cases, length, all,
}
use nostr_mesh.Prelude.Text.{Str, is_space, is_hex, is_hash, is_hash_parts}
use nostr_mesh.Prelude.Result.{ok}
use nostr_mesh.Prelude.Bytes.{hex_value, from_hex}
use nostr_mesh.Api.Hex.{digits, parse_pair, pairs_to_bytes, hex_to_bytes}

-- What a digit is, and what it counts.
abbrev IsDigit : ℕ → ℕ → Type 0
IsDigit c v =
    (48 ≤ c) × (c ≤ 57) × (c ≡ v + 48)
    ⊎ (97 ≤ c) × (c ≤ 102) × (c ≡ v + 87)
    ⊎ (65 ≤ c) × (c ≤ 70) × (c ≡ v + 55)

hex_value_cases : (c v : ℕ) → hex_value c ≡ some v → IsDigit c v
unfolding hex_value
hex_value_cases c v h = ground arith

is_space_low : (c : ℕ) → 33 ≤ c → c ≤ 127 → is_space c ≡ false
unfolding is_space
is_space_low c h k = ground arith

hex_value-is_hex : (c : ℕ) → is_hex c ≡ true → hex_value c ≢ none
unfolding is_hex hex_value
hex_value-is_hex c h = ground arith

hex_value-letter_x : (hex_value b'x' ≡ none) × (hex_value b'X' ≡ none)
unfolding hex_value
hex_value-letter_x = (refl, refl)

-- Where the first code unit is a digit, the pair is read digit by digit.
parse_pair-digits :
    (a b x : ℕ)
    → hex_value a ≡ some x
    → (b == b'x' || b == b'X') ≡ false
    → parse_pair a b ≡ digits (some x) (hex_value b)
unfolding parse_pair
parse_pair-digits a b x h k =
    let d = hex_value_cases a x h in let s = is_space_low a in ground arith

parse_pair_positive :
    (a b x : ℕ) → hex_value a ≡ some x → 0 < x → parse_pair a b ≡ digits (some x) (hex_value b)
unfolding parse_pair
parse_pair_positive a b x h p =
    let d = hex_value_cases a x h in let s = is_space_low a in ground arith

parse_pair-is_hex :
    (a b x y : ℕ) → hex_value a ≡ some x → hex_value b ≡ some y → parse_pair a b ≡ some (x * 16 + y)
parse_pair-is_hex a b x y h k =
    parse_pair-digits a b x h (ground (arith, hex_value_cases b y k)) ∙ rw k

pairs-from_hex :
    (s : Str) → all is_hex s ≡ true → length s % 2 ≡ 0 → pairs_to_bytes s ≡ ok (from_hex s)
unfolding pairs_to_bytes from_hex
pairs-from_hex [] h k = refl
pairs-from_hex (a ∷ []) h k = absurd (omega arith)
pairs-from_hex (a ∷ b ∷ rest) h k = elim (Option-cases (hex_value a)) [
  | inl no_a ↦ absurd (hex_value-is_hex a (ground arith) no_a)
  | inr (x, at_a) ↦ elim (Option-cases (hex_value b)) [
    | inl no_b ↦ absurd (hex_value-is_hex b (ground arith) no_b)
    | inr (y, at_b) ↦ rw (
      parse_pair-is_hex a b x y at_a at_b,
      at_a,
      at_b,
      pairs-from_hex rest (ground arith) (omega arith),
    )
  ]
]

-- A text of 64 hexadecimal digits is decoded, to the bytes that Node's decoder gives.
pub hex_to_bytes-is_hash : (s : Str) → is_hash s ≡ true → hex_to_bytes s ≡ ok (from_hex s)
unfolding hex_to_bytes
hex_to_bytes-is_hash s h =
    let (size, digits) = is_hash_parts s h in rw (size, pairs-from_hex s digits (rw size))

-- A pair whose first code unit is a digit other than 0 and whose second is no hexadecimal digit
-- is not refused: it counts as that one digit.
pub hex_to_bytes_lenient :
    (a b x : ℕ)
    → hex_value a ≡ some x
    → hex_value b ≡ none
    → 0 < x
    → hex_to_bytes (a ∷ b ∷ []) ≡ ok (x ∷ [])
unfolding hex_to_bytes pairs_to_bytes
hex_to_bytes_lenient a b x h k p = rw (parse_pair_positive a b x h p, k)
