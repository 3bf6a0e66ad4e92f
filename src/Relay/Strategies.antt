-- ===== src/Relay/Strategies.antt =====
-- What is done with an event that passed the checks: the classes of
-- nostream-share/src/handlers/event-strategies. A strategy gives the effects on the client and the
-- other sessions, or none where it throws, and the table afterwards.
pub mod Laws
pub mod Unique
use nostr_mesh.Prelude.{
  ℕ, zero, suc, ◌+◌, ◌-◌, ◌*◌, ◌/◌, ◌%◌, ◌^◌, ◌≤◌, ◌<◌, ◌≡◌, refl, sym, ap, subst, ◌∙◌, ◌≢◌, ◌↔◌,
  ◌⊎◌, inl, inr, Bool, true, false, not, ◌&&◌, ◌||◌, Option, none, some, List, [], ◌∷◌, ◌++◌, map,
  arith, ltb, leb, ◌==◌, if◌then◌else◌, ltb→lt, lt→ltb, leb→le, le_of_not_ltb, eq_of_not_ne,
  ==_refl, lt_of_le, ==_iff, &&_parts, Bool-cases, Option-cases, length, get_elem?, take, drop,
  length-append, length-drop, take-append, drop-append, any, all, find, All,
}
use nostr_mesh.Prelude.Text.{
  Str, codes, ◌===◌, ===_iff, ===_refl, starts_with, includes, is_space, trim, to_lower_case,
  is_hex, is_hash, is_hex_lower, is_hash_lower, is_hash_parts, is_hash_lower_parts,
}
use nostr_mesh.Nostr.{Event, Tag}
use nostr_mesh.Relay.Kinds.{
  Strategy, replaceable, ephemeral, delete, parameterized_replaceable, default, event_strategy,
}
use nostr_mesh.Relay.SignedAuth.{is_tag_named, is_valid_signed_auth_event}
use nostr_mesh.Relay.Accept.{Reason}
use nostr_mesh.Relay.Admission.{Refusal}
use nostr_mesh.Relay.Repository.{
  Row, Table, Deduplication, values, author_and_kind, null, Upserted, row_count, duplicate_event_id,
  create, upsert, delete_by_pubkey_and_ids,
}
use nostr_mesh.Relay.Session.{Session, Challenge, set_client_to_authenticated}

-- The texts of command results.
pub data Verdict : Type 0 where
  stored duplicate already_exists : Verdict
  invalid_id invalid_signature expired rate_limited unable_to_process : Verdict
  auth_verification_failed : Verdict
  rejected : Reason → Verdict
  blocked : Refusal → Verdict
  authentication_succeeded authentication_failed : Verdict

pub data Effect : Type 0 where
  command_result : Str → Bool → Verdict → Effect
  broadcast : Event → Effect

abbrev pub new_row : Event → Option ℕ → Deduplication → Row
new_row event expires_at deduplication = record {
  event = event;
  deduplication = deduplication;
  expires_at = expires_at;
  is_deleted = false;
}

-- The answer, and the broadcast of what is new.
unfoldable pub answer : Event → ℕ → List Effect
answer event zero = command_result event.id true duplicate ∷ []
answer event (suc n) = command_result event.id true stored ∷ broadcast event ∷ []

abbrev answered : Event → ℕ × Table → Option (List Effect) × Table
answered event (count, table) = (some (answer event count), table)

unfoldable pub execute_default : Event → Option ℕ → Table → Option (List Effect) × Table
execute_default event expires table = answered event (create (new_row event expires null) table)

-- `/^[0-9a-f]{64}$/` on the value of a tag "e".
abbrev pub e_tag_ids : Tag → List Str
e_tag_ids (name ∷ value ∷ more) =
    if name === codes "e" && is_hash_lower value then value ∷ [] else []
e_tag_ids _ = []

unfoldable pub event_ids_to_delete : List Tag → List Str
event_ids_to_delete [] = []
event_ids_to_delete (tag ∷ tags) = e_tag_ids tag ++ event_ids_to_delete tags

unfoldable pub execute_delete : Event → Option ℕ → Table → Option (List Effect) × Table
execute_delete event expires table =
    let ids = event_ids_to_delete event.tags in
    let marked = delete_by_pubkey_and_ids event.pubkey ids table in
    execute_default event expires (if length ids == 0 then table else marked)

unfoldable pub execute_ephemeral : Event → Table → Option (List Effect) × Table
execute_ephemeral event table =
    (some (command_result event.id true stored ∷ broadcast event ∷ []), table)

-- `const [, ...deduplication] = … ?? [null, '']`.
unfoldable pub deduplication_values : Option Tag → List Str
deduplication_values none = [] ∷ []
deduplication_values (some tag) = drop 1 tag

abbrev pub upserted : Event → Option (List Effect) → Upserted × Table → Option (List Effect) × Table
upserted event failed (row_count n, table) = (some (answer event n), table)
upserted event failed (duplicate_event_id, table) = (failed, table)

unfoldable pub execute_parameterized : Event → Option ℕ → Table → Option (List Effect) × Table
execute_parameterized event expires table =
    let found = find (is_tag_named (codes "d")) event.tags in
    upserted event none (upsert (new_row event expires (values (deduplication_values found))) table)

-- The one failure of an upsert in the model is a duplicate event_id, under the constraint name
-- events_event_id_unique that the strategy tests. Its branch for another error is not modelled.
unfoldable pub execute_replaceable : Event → Option ℕ → Table → Option (List Effect) × Table
execute_replaceable event expires table =
    upserted event (some (command_result event.id false already_exists ∷ []))
      (upsert (new_row event expires (author_and_kind event.pubkey event.kind)) table)

abbrev pub execute_as : Strategy → Event → Option ℕ → Table → Option (List Effect) × Table
execute_as replaceable event expires table = execute_replaceable event expires table
execute_as ephemeral event expires table = execute_ephemeral event table
execute_as delete event expires table = execute_delete event expires table
execute_as parameterized_replaceable event expires table = execute_parameterized event expires table
execute_as default event expires table = execute_default event expires table

unfoldable pub execute : Event → Option ℕ → Table → Option (List Effect) × Table
execute event expires table = execute_as (event_strategy event) event expires table

-- Ten minutes, in milliseconds.
abbrev pub permitted_delay : ℕ
permitted_delay = 1000 * 60 * 10

abbrev pub authenticate : ℕ → Event → Option Challenge → Session → Option (List Effect) × Session
authenticate now event none s = (none, s)
authenticate now event (some c) s =
    if is_valid_signed_auth_event event c.challenge && ltb now (c.created_at + permitted_delay)
    then (
      some (command_result event.id true authentication_succeeded ∷ []),
      set_client_to_authenticated s,
    )
    else (some (command_result event.id false authentication_failed ∷ []), s)

-- `SignedAuthEventStrategy.execute`; without a challenge the destructuring throws.
unfoldable pub execute_signed_auth : ℕ → Event → Session → Option (List Effect) × Session
execute_signed_auth now event s = authenticate now event s.auth_challenge s
