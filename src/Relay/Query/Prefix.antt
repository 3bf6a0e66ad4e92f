-- ===== src/Relay/Query/Prefix.antt =====
-- A condition on a prefix of bytes, as `findByFilters` of
-- nostream-share/src/repositories/event-repository.ts asks it, against the prefix of the text.
use nostr_mesh.Prelude.{
  ℕ, zero, suc, ◌+◌, ◌-◌, ◌*◌, ◌/◌, ◌%◌, ◌≤◌, ◌<◌, ◌≡◌, refl, ap, ◌∙◌, inl, inr, Bool, true, false,
  ◌&&◌, ◌||◌, some, [], ◌∷◌, ◌++◌, arith, ltb, leb, ◌==◌, if◌then◌else◌, ==_iff, &&_parts,
  Bool-cases, length, take, all,
}
use nostr_mesh.Prelude.Text.{Str, codes, ◌===◌, starts_with, is_hex_lower}
use nostr_mesh.Prelude.Bytes.{Bytes, from_hex, hex_value}
use nostr_mesh.Relay.Query.{bytes_leb, holds_prefix}

abbrev digit : ℕ → ℕ
digit c = if leb c 57 then c - 48 else c - 87

hex_value-digit : (c : ℕ) → is_hex_lower c ≡ true → hex_value c ≡ some (digit c)
unfolding hex_value is_hex_lower
hex_value-digit c h = ground arith

digit-lt : (c : ℕ) → is_hex_lower c ≡ true → digit c < 16
unfolding is_hex_lower
digit-lt c h = ground arith

digit_same :
    (c d : ℕ) → is_hex_lower c ≡ true → is_hex_lower d ≡ true → (digit c == digit d) ≡ (c == d)
unfolding is_hex_lower
digit_same c d h k = ground arith

pair_same : (a b p q : ℕ) → b < 16 → q < 16 → (a * 16 + b == p * 16 + q) ≡ (a == p && b == q)
pair_same a b p q h k = ground arith

from_hex_pair :
    (a b : ℕ) (rest : Str)
    → is_hex_lower a ≡ true
    → is_hex_lower b ≡ true
    → from_hex (a ∷ b ∷ rest) ≡ (digit a * 16 + digit b) ∷ from_hex rest
unfolding from_hex
from_hex_pair a b rest h k = rw (hex_value-digit a h, hex_value-digit b k) refl

pair_digits :
    (a b p q : ℕ)
    → is_hex_lower a ≡ true
    → is_hex_lower b ≡ true
    → is_hex_lower p ≡ true
    → is_hex_lower q ≡ true
    → (digit a * 16 + digit b == digit p * 16 + digit q) ≡ (a == p && b == q)
pair_digits a b p q ha hb hp hq =
    pair_same (digit a) (digit b) (digit p) (digit q) (digit-lt b hb) (digit-lt q hq)
    ∙ rw (digit_same a p ha hp, digit_same b q hb hq) refl

abbrev IsHexText : Str → Type 0
IsHexText s = all is_hex_lower s ≡ true

assoc_and : (a b c : Bool) → ((a && b) && c) ≡ (a && (b && c))
assoc_and a b c = ground arith

abbrev IsHexPair : ℕ → ℕ → Str → Type 0
IsHexPair a b s = (is_hex_lower a ≡ true) × (is_hex_lower b ≡ true) × IsHexText s

first_two : (a b : ℕ) (s : Str) → IsHexText (a ∷ b ∷ s) → IsHexPair a b s
first_two a b s h =
    let (here, rest) = &&_parts (is_hex_lower a) (all is_hex_lower (b ∷ s)) h in
    let (there, more) = &&_parts (is_hex_lower b) (all is_hex_lower s) rest in (here, there, more)

equal_step :
    (a b p q : ℕ) (ts ps : Str) (xs : Bytes)
    → IsHexPair a b ts
    → IsHexPair p q ps
    → (xs === from_hex ps) ≡ starts_with ts ps
    → (((digit a * 16 + digit b) ∷ xs) === from_hex (p ∷ q ∷ ps))
      ≡ starts_with (a ∷ b ∷ ts) (p ∷ q ∷ ps)
unfolding ◌===◌ starts_with
equal_step a b p q ts ps xs (ha, hb, _) (hp, hq, _) rest =
    rw (from_hex_pair p q ps hp hq, pair_digits a b p q ha hb hp hq, rest)
      (assoc_and (a == p) (b == q) (starts_with ts ps))

-- A prefix of an even count of digits, as the first bytes.
even_prefix :
    (k : ℕ) (prefix s : Str)
    → length prefix ≡ 2 * k
    → 2 * k ≤ length s
    → IsHexText prefix
    → IsHexText s
    → (take k (from_hex s) === from_hex prefix) ≡ starts_with s prefix
unfolding from_hex ◌===◌ starts_with
even_prefix zero [] s size enough hp hs = refl
even_prefix zero (p ∷ ps) s size enough hp hs = absurd (omega arith)
even_prefix (suc k) [] s size enough hp hs = absurd (omega arith)
even_prefix (suc k) (p ∷ []) s size enough hp hs = absurd (omega arith)
even_prefix (suc k) (p ∷ q ∷ ps) [] size enough hp hs = absurd (omega arith)
even_prefix (suc k) (p ∷ q ∷ ps) (a ∷ []) size enough hp hs = absurd (omega arith)
even_prefix (suc k) (p ∷ q ∷ ps) (a ∷ b ∷ ts) size enough hp hs =
    let (ha, hb, hts) = first_two a b ts hs in
    let (_, _, hps) = first_two p q ps hp in
    ap (λ (x : Bytes). take (suc k) x === from_hex (p ∷ q ∷ ps)) (from_hex_pair a b ts ha hb)
    ∙ equal_step a b p q ts ps (take k (from_hex ts)) (ha, hb, hts) (first_two p q ps hp)
        (even_prefix k ps ts (omega arith) (omega arith) hps hts)

-- The whole text, as its bytes.
whole_prefix :
    (k : ℕ) (prefix s : Str)
    → length prefix ≡ 2 * k
    → length s ≡ 2 * k
    → IsHexText prefix
    → IsHexText s
    → (from_hex s === from_hex prefix) ≡ starts_with s prefix
unfolding from_hex ◌===◌ starts_with
whole_prefix zero [] [] size enough hp hs = refl
whole_prefix zero [] (a ∷ ts) size enough hp hs = absurd (omega arith)
whole_prefix zero (p ∷ ps) s size enough hp hs = absurd (omega arith)
whole_prefix (suc k) [] s size enough hp hs = absurd (omega arith)
whole_prefix (suc k) (p ∷ []) s size enough hp hs = absurd (omega arith)
whole_prefix (suc k) (p ∷ q ∷ ps) [] size enough hp hs = absurd (omega arith)
whole_prefix (suc k) (p ∷ q ∷ ps) (a ∷ []) size enough hp hs = absurd (omega arith)
whole_prefix (suc k) (p ∷ q ∷ ps) (a ∷ b ∷ ts) size enough hp hs =
    let (ha, hb, hts) = first_two a b ts hs in
    let (_, _, hps) = first_two p q ps hp in
    ap (λ (x : Bytes). x === from_hex (p ∷ q ∷ ps)) (from_hex_pair a b ts ha hb)
    ∙ equal_step a b p q ts ps (from_hex ts) (ha, hb, hts) (first_two p q ps hp)
        (whole_prefix k ps ts (omega arith) (omega arith) hps hts)

abbrev between : Bytes → Bytes → Bytes → Bool
between low x high = bytes_leb low x && bytes_leb x high

zero_digit : is_hex_lower b'0' ≡ true
unfolding is_hex_lower
zero_digit = refl

last_digit : is_hex_lower b'f' ≡ true
unfolding is_hex_lower
last_digit = refl

both_ends :
    (p x : ℕ) (low high : Bool)
    → ((ltb p x || (p == x && low)) && (ltb x p || (x == p && high))) ≡ (x == p && (low && high))
both_ends p x low high = ground arith

between-same :
    (x p : ℕ) (low xs high : Bytes)
    → between (p ∷ low) (x ∷ xs) (p ∷ high) ≡ (x == p && between low xs high)
unfolding bytes_leb
between-same x p low xs high = both_ends p x (bytes_leb low xs) (bytes_leb xs high)

between_one :
    (a b p : ℕ)
    → a < 16
    → b < 16
    → p < 16
    → between ((p * 16 + 0) ∷ []) ((a * 16 + b) ∷ []) ((p * 16 + 15) ∷ []) ≡ (a == p)
unfolding bytes_leb
between_one a b p ha hb hp = ground arith

and_true : (a : Bool) → a ≡ (a && true)
and_true a = ground arith

-- A prefix of an odd count of digits, as an interval.
odd_prefix :
    (k : ℕ) (prefix s : Str)
    → length prefix ≡ 2 * k + 1
    → 2 * k + 1 < length s
    → IsHexText prefix
    → IsHexText s
    → between
        (from_hex (prefix ++ codes "0"))
        (take (suc k) (from_hex s))
        (from_hex (prefix ++ codes "f"))
      ≡ starts_with s prefix
unfolding from_hex starts_with
odd_prefix k [] s size enough hp hs = absurd (omega arith)
odd_prefix k (p ∷ ps) [] size enough hp hs = absurd (omega arith)
odd_prefix k (p ∷ ps) (a ∷ []) size enough hp hs = absurd (omega arith)
odd_prefix zero (p ∷ []) (a ∷ b ∷ ts) size enough hp hs =
    let (ha, hb, _) = first_two a b ts hs in
    let (here, _) = &&_parts (is_hex_lower p) true hp in
    rw (hex_value-digit a ha, hex_value-digit b hb, hex_value-digit p here)
      (between_one (digit a) (digit b) (digit p) (digit-lt a ha) (digit-lt b hb) (digit-lt p here)
        ∙ digit_same a p ha here
        ∙ and_true (a == p))
odd_prefix zero (p ∷ q ∷ ps) (a ∷ b ∷ ts) size enough hp hs = absurd (omega arith)
odd_prefix (suc k) (p ∷ []) (a ∷ b ∷ ts) size enough hp hs = absurd (omega arith)
odd_prefix (suc k) (p ∷ q ∷ ps) (a ∷ b ∷ ts) size enough hp hs =
    let (ha, hb, hts) = first_two a b ts hs in
    let (here, there, hps) = first_two p q ps hp in
    rw (hex_value-digit a ha, hex_value-digit b hb, hex_value-digit p here, hex_value-digit q there)
      (between-same (digit a * 16 + digit b) (digit p * 16 + digit q) (from_hex (ps ++ codes "0"))
          (take (suc k) (from_hex ts)) (from_hex (ps ++ codes "f"))
        ∙ rw
            (
              pair_digits a b p q ha hb here there,
              odd_prefix k ps ts (omega arith) (omega arith) hps hts,
            )
            (assoc_and (a == p) (b == q) (starts_with ts ps)))

odd_count : (n : ℕ) → (n % 2 == 0) ≡ false → n ≡ 2 * (n / 2) + 1
odd_count n h = ground arith

-- What the schemas ask of an identifier: 64 lower-case digits, or of a prefix: at most so many.
abbrev pub IsPrefix : Str → Type 0
IsPrefix s = (length s ≤ 64) × (all is_hex_lower s ≡ true)

-- On 64 lower-case digits, the condition on the bytes is that the text begins with the prefix.
pub holds_prefix_lem :
    (s prefix : Str)
    → length s ≡ 64
    → IsHexText s
    → IsPrefix prefix
    → holds_prefix (from_hex s) prefix ≡ starts_with s prefix
unfolding holds_prefix
holds_prefix_lem s prefix size hs (short, hp) = elim (Bool-cases (length prefix == 64)) [
  | inl full ↦ rw full (
      whole_prefix 32 prefix s (omega (arith, (==_iff (length prefix) 64).0 full)) (omega arith) hp
        hs)
  | inr partial ↦ elim (Bool-cases (length prefix % 2 == 0)) [
    | inl even ↦
        let two = (==_iff (length prefix % 2) 0).0 even in
        rw (partial, even)
          (even_prefix (length prefix / 2) prefix s (omega arith) (omega arith) hp hs)
    | inr odd ↦
        let count : length prefix ≡ 2 * (length prefix / 2) + 1 = odd_count (length prefix) odd in
        let next : length prefix / 2 + 1 ≡ suc (length prefix / 2) = omega arith in
        rw (partial, odd, next) (odd_prefix (length prefix / 2) prefix s count (omega arith) hp hs)
  ]
]
