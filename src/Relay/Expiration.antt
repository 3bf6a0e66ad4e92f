-- ===== src/Relay/Expiration.antt =====
-- `getEventExpiration` and `isExpiredEvent` of nostream-share/src/utils/event.ts. `Number(text)` is an
-- argument: the integer that the text reads as, or none for another number and NaN. The clock, in
-- seconds, is an argument.
use nostr_mesh.Prelude.{
  ℕ, zero, suc, Bool, false, ◌&&◌, Option, none, some, [], ◌∷◌, ltb, leb, ◌==◌, if◌then◌else◌,
  length, find,
}
use nostr_mesh.Prelude.Text.{Str, codes}
use nostr_mesh.Prelude.Number.{ℤ, pos}
use nostr_mesh.Nostr.{Event, Tag}
use nostr_mesh.Relay.SignedAuth.{is_tag_named}

abbrev second : Option Tag → Option Str
second (some (name ∷ value ∷ more)) = some value
second _ = none

-- `Number.isSafeInteger(n) && Math.log10(n) < 10`; the logarithm of a negative number is NaN.
abbrev pub accepted_time : Option ℤ → Option ℕ
accepted_time (some (pos n)) = if leb n 9007199254740991 && ltb n 10000000000 then some n else none
accepted_time _ = none

-- `if (!rawExpirationTime) return`.
abbrev read_time : (Str → Option ℤ) → Option Str → Option ℕ
read_time to_number none = none
read_time to_number (some []) = none
read_time to_number (some (c ∷ cs)) = accepted_time (to_number (c ∷ cs))

module _ (to_number : Str → Option ℤ) where
  unfoldable pub get_event_expiration : Event → Option ℕ
  get_event_expiration event =
      read_time to_number (second (find (is_tag_named (codes "expiration")) event.tags))

  abbrev pub has_passed : Option ℕ → ℕ → Bool
  has_passed none now = false
  has_passed (some zero) now = false
  has_passed (some (suc n)) now = leb (suc n) now

  unfoldable pub is_expired_event : Event → ℕ → Bool
  is_expired_event event now =
      if length event.tags == 0 then false else has_passed (get_event_expiration event) now
