-- ===== src/Relay/ProofOfWork.antt =====
-- nostream-share/src/utils/proof-of-work.ts, and its two callers in nostream-share/src/utils/event.ts.
pub mod Laws
use nostr_mesh.Prelude.{
  ℕ, zero, suc, ◌+◌, ◌-◌, ◌*◌, ◌/◌, ◌%◌, ◌^◌, ◌≤◌, ◌<◌, ◌≡◌, refl, sym, ap, subst, ◌∙◌, ◌≢◌, ◌↔◌,
  ◌⊎◌, inl, inr, Bool, true, false, not, ◌&&◌, ◌||◌, Option, none, some, List, [], ◌∷◌, ◌++◌, map,
  arith, ltb, leb, ◌==◌, if◌then◌else◌, ltb→lt, lt→ltb, leb→le, le_of_not_ltb, eq_of_not_ne,
  ==_refl, lt_of_le, ==_iff, &&_parts, Bool-cases, Option-cases, length, get_elem?, take, drop,
  length-append, length-drop, take-append, drop-append, any, all, find, All,
}
use nostr_mesh.Prelude.Text.{
  Str, codes, ◌===◌, ===_iff, ===_refl, starts_with, includes, is_space, trim, to_lower_case,
  is_hex, is_hash, is_hex_lower, is_hash_lower, is_hash_parts, is_hash_lower_parts,
}
use nostr_mesh.Prelude.Bytes.{
  Bytes, IsByte, hex_value, hex_digit, from_hex, to_hex, from_hex-to_hex, from_hex-IsByte,
  length-to_hex, to_hex-is_hash_lower, is_hash_of_lower,
}

-- The loop `while (b >>= 1) n++`, on fuel: a byte is 0 after eight shifts.
unfoldable pub shifts : ℕ → ℕ → ℕ → ℕ
shifts zero b n = n
shifts (suc f) b n = let more = shifts f (b / 2) (n + 1) in if b / 2 == 0 then n else more

unfoldable pub msb : ℕ → ℕ
unfolding shifts
msb b = if b == 0 then 8 else 7 - shifts 8 b 0

-- The loop, with its total; `break` after the first byte that is not 0.
unfoldable pub count_zero_bits : ℕ → Bytes → ℕ
count_zero_bits total [] = total
count_zero_bits total (b ∷ bs) =
    let more = count_zero_bits (total + msb b) bs in
    if not (msb b == 8) then total + msb b else more

unfoldable pub get_leading_zero_bits : Bytes → ℕ
unfolding count_zero_bits msb
get_leading_zero_bits hash = count_zero_bits 0 hash

unfoldable pub get_event_proof_of_work : Str → ℕ
unfolding get_leading_zero_bits from_hex
get_event_proof_of_work event_id = get_leading_zero_bits (from_hex event_id)

unfoldable pub get_pubkey_proof_of_work : Str → ℕ
unfolding get_leading_zero_bits from_hex
get_pubkey_proof_of_work pubkey = get_leading_zero_bits (from_hex pubkey)
