-- ===== src/Relay/ProofOfWork/Laws.antt =====
-- The difficulty is the number of zero bits at the head of the hash.
use nostr_mesh.Prelude.{
  ℕ, zero, suc, ◌+◌, ◌/◌, ◌%◌, ◌^◌, ◌<◌, ◌≡◌, refl, ap, ◌∙◌, Bool, true, false, ◌&&◌, List, [], ◌∷◌,
  ◌++◌, arith, ◌==◌, if◌then◌else◌, ==_iff, length, All,
}
use nostr_mesh.Prelude.Bytes.{Bytes, IsByte}
use nostr_mesh.Relay.ProofOfWork.{msb, count_zero_bits, get_leading_zero_bits}

-- The bits of a number from bit n - 1 down.
unfoldable pub bits : ℕ → ℕ → List Bool
bits zero b = []
bits (suc n) b = (b / 2 ^ n % 2 == 1) ∷ bits n b

unfoldable pub all_bits : Bytes → List Bool
unfolding bits
all_bits [] = []
all_bits (b ∷ bs) = bits 8 b ++ all_bits bs

unfoldable pub leading_zeros : List Bool → ℕ
leading_zeros [] = 0
leading_zeros (false ∷ bs) = suc (leading_zeros bs)
leading_zeros (true ∷ bs) = 0

-- A test that every number below a bound passes.
passes_below : (ℕ → Bool) → ℕ → Bool
passes_below test (suc top) = passes_below test top && test top
passes_below test zero = true

passes_below_at :
    (test : ℕ → Bool) (bound b : ℕ) → b < bound → passes_below test bound ≡ true → test b ≡ true
unfolding passes_below
passes_below_at test (suc top) b small all_pass = ground (arith, passes_below_at test top b)
passes_below_at test zero b small all_pass = absurd (omega arith)

byte_table : passes_below (λ b. msb b == leading_zeros (bits 8 b)) 256 ≡ true
unfolding passes_below msb leading_zeros bits
byte_table = refl

msb-eq-leading_zeros : (b : ℕ) → b < 256 → msb b ≡ leading_zeros (bits 8 b)
msb-eq-leading_zeros b h =
    (==_iff (msb b) (leading_zeros (bits 8 b))).0
      (passes_below_at (λ c. msb c == leading_zeros (bits 8 c)) 256 b h byte_table)

leading_zeros-append :
    (xs ys : List Bool)
    → leading_zeros (xs ++ ys)
      ≡ (if leading_zeros xs == length xs then length xs + leading_zeros ys else leading_zeros xs)
unfolding leading_zeros
leading_zeros-append [] ys = ground arith
leading_zeros-append (false ∷ xs) ys = ground (arith, leading_zeros-append xs ys)
leading_zeros-append (true ∷ xs) ys = ground arith

length-bits : (n b : ℕ) → length (bits n b) ≡ n
unfolding bits
length-bits zero b = refl
length-bits (suc n) b = ap suc (length-bits n b)

count-eq-leading_zeros :
    (total : ℕ) (hash : Bytes)
    → All IsByte hash
    → count_zero_bits total hash ≡ total + leading_zeros (all_bits hash)
unfolding count_zero_bits all_bits
count-eq-leading_zeros total [] h = unfold leading_zeros in omega arith
count-eq-leading_zeros total (b ∷ bs) (small, h) =
    rw
      (
        leading_zeros-append (bits 8 b) (all_bits bs),
        length-bits 8 b,
        ← msb-eq-leading_zeros b small,
      )
      (ground (arith, count-eq-leading_zeros (total + msb b) bs h))

-- `getLeadingZeroBits` of a hash of bytes counts the zero bits at its head, its bytes written
-- from the highest bit down.
pub get_leading_zero_bits_lem :
    (hash : Bytes) → All IsByte hash → get_leading_zero_bits hash ≡ leading_zeros (all_bits hash)
unfolding get_leading_zero_bits
get_leading_zero_bits_lem hash h = count-eq-leading_zeros 0 hash h ∙ omega arith
