-- ===== src/Api/Errors.antt =====
-- api/src/errors.ts: the words for a failed call of a relay. An error is an `AggregateError`, another
-- `Error` with its message, or a value of another kind.
use nostr_mesh.Prelude.{Bool, true, false, ◌||◌, [], ◌∷◌, ◌++◌, if◌then◌else◌}
use nostr_mesh.Prelude.Text.{Str, codes, ◌===◌, starts_with, trim, to_lower_case}

pub data Caught : Type 0 where
  aggregate_error : Str → Caught
  error : Str → Caught
  other : Caught

pub data RelayAction : Type 0 where
  publish query : RelayAction

abbrev pub action_text : RelayAction → Str
action_text publish = codes "publish"
action_text query = codes "query"

-- Does the text contain the pattern?
unfoldable pub contains_text : Str → Str → Bool
unfolding starts_with
contains_text pattern [] = starts_with [] pattern
contains_text pattern (c ∷ cs) = starts_with (c ∷ cs) pattern || contains_text pattern cs

-- `/all promises were rejected/i`.
unfoldable pub message_has_all_promises_rejected : Caught → Bool
unfolding contains_text to_lower_case
message_has_all_promises_rejected (aggregate_error m) =
    contains_text (codes "all promises were rejected") (to_lower_case m)
message_has_all_promises_rejected (error m) =
    contains_text (codes "all promises were rejected") (to_lower_case m)
message_has_all_promises_rejected other = false

abbrev is_aggregate : Caught → Bool
is_aggregate (aggregate_error m) = true
is_aggregate _ = false

unfoldable pub relay_error_code : Caught → RelayAction → Str
unfolding message_has_all_promises_rejected
relay_error_code e action =
    if is_aggregate e || message_has_all_promises_rejected e
    then codes "relay_" ++ (action_text action ++ codes "_failed")
    else codes "relay_" ++ (action_text action ++ codes "_error")

abbrev message_or_unknown : Str → Str
message_or_unknown m = if trim m === [] then codes "Unknown error" else m

unfoldable pub error_message : Caught → Str
unfolding trim ◌===◌
error_message (aggregate_error m) = message_or_unknown m
error_message (error m) = message_or_unknown m
error_message other = codes "Unknown error"

unfoldable pub relay_error_message : Caught → RelayAction → Str
unfolding error_message
relay_error_message e action =
    codes "Relay " ++ (action_text action ++ (codes " failed: " ++ error_message e))
