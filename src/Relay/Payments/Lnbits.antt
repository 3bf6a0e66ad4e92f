-- ===== src/Relay/Payments/Lnbits.antt =====
-- The callback of LNbits with its checks of the request,
-- nostream-share/src/controllers/callbacks/lnbits-callback-controller.ts. The HMAC under the relay's
-- secret and what the payments processor answers are arguments.
use nostr_mesh.Prelude.{
  ℕ, Bool, false, not, ◌&&◌, Option, none, some, [], ◌∷◌, ltb, leb, ◌==◌, if◌then◌else◌, length,
  all,
}
use nostr_mesh.Prelude.Text.{Str, codes, ◌===◌, is_hash_lower}
use nostr_mesh.Prelude.Result.{Result, ok}
use nostr_mesh.Prelude.Number.{ℤ, pos, negsuc, parse_int}
use nostr_mesh.Relay.Settings.{Settings}
use nostr_mesh.Relay.Payments.Data.{Db, Failure}
use nostr_mesh.Relay.Payments.Service.{Faults}
use nostr_mesh.Relay.Payments.Callbacks.{
  Reply, forbidden, malformed_body, LnbitsInvoice, lnbits_callback,
}

abbrev pub cons_first : ℕ → Option (Str × Str) → Option (Str × Str)
cons_first c none = none
cons_first c (some (before, after)) = some (c ∷ before, after)

-- The text before the first colon, and the text after it.
unfoldable pub split_colon : Str → Option (Str × Str)
split_colon [] = none
split_colon (c ∷ cs) =
    let more = cons_first c (split_colon cs) in if c == b':' then some ([], cs) else more

abbrev pub is_digit : ℕ → Bool
is_digit c = leb 48 c && leb c 57

-- The two parts of `/^[0-9]{1,20}:[0-9a-f]{64}$/`.
unfoldable pub is_token : Str → Str → Bool
is_token digits mac =
    all is_digit digits && ltb 0 (length digits) && leb (length digits) 20 && is_hash_lower mac

abbrev pub is_after : ℕ → Option ℤ → Bool
is_after now none = false
is_after now (some (pos n)) = ltb now n
is_after now (some (negsuc n)) = false

abbrev pub passes : (Str → Str) → ℕ → Option (Str × Str) → Bool
passes sign now none = false
passes sign now (some (digits, mac)) =
    is_token digits mac && sign digits === mac && is_after now (parse_int digits)

-- `validationPassed`: the token is the time at which it ends, and the HMAC of that.
unfoldable pub validation_passed : (Str → Str) → ℕ → Option Str → Bool
validation_passed sign now none = false
validation_passed sign now (some token) = passes sign now (split_colon token)

module _ (faults : Faults) (settings : Settings) (processor : Str) (sign : Str → Str)
    (get_invoice : Str → Result Failure LnbitsInvoice) (now expiration : ℕ) where
  abbrev pub with_body : Option Str → Db → Result Failure Reply × Db
  with_body none db = (ok malformed_body, db)
  with_body (some payment_hash) db =
      if length payment_hash == 64
      then lnbits_callback faults settings now expiration payment_hash (get_invoice payment_hash) db
      else (ok malformed_body, db)

  -- `handleRequest`, for the query `hmac` and the member `payment_hash` of the body.
  unfoldable pub lnbits_request : Option Str → Option Str → Db → Result Failure Reply × Db
  lnbits_request token payment_hash db =
      if not (processor === codes "lnbits")
      then (ok forbidden, db)
      else if not (validation_passed sign now token)
      then (ok forbidden, db)
      else with_body payment_hash db
