-- ===== src/Relay/SignedAuth.antt =====
-- `isSignedAuthEvent` and `isValidSignedAuthEvent` of nostream-share/src/utils/event.ts.
pub mod Laws
use nostr_mesh.Prelude.{
  ℕ, zero, suc, ◌+◌, ◌-◌, ◌*◌, ◌/◌, ◌%◌, ◌^◌, ◌≤◌, ◌<◌, ◌≡◌, refl, sym, ap, subst, ◌∙◌, ◌≢◌, ◌↔◌,
  ◌⊎◌, inl, inr, Bool, true, false, not, ◌&&◌, ◌||◌, Option, none, some, List, [], ◌∷◌, ◌++◌, map,
  arith, ltb, leb, ◌==◌, if◌then◌else◌, ltb→lt, lt→ltb, leb→le, le_of_not_ltb, eq_of_not_ne,
  ==_refl, lt_of_le, ==_iff, &&_parts, Bool-cases, Option-cases, length, get_elem?, take, drop,
  length-append, length-drop, take-append, drop-append, any, all, find, All,
}
use nostr_mesh.Prelude.Text.{
  Str, codes, ◌===◌, ===_iff, ===_refl, starts_with, includes, is_space, trim, to_lower_case,
  is_hex, is_hash, is_hex_lower, is_hash_lower, is_hash_parts, is_hash_lower_parts,
}
use nostr_mesh.Nostr.{Event, Tag}
use nostr_mesh.Relay.Kinds.{auth_kind}

abbrev pub challenge_name : Str
challenge_name = codes "challenge"

abbrev pub relay_name : Str
relay_name = codes "relay"

-- `tag.length >= 2 && tag[0] === name`.
unfoldable pub is_tag_named : Str → Tag → Bool
is_tag_named name (tag_name ∷ value ∷ more) = tag_name === name
is_tag_named name _ = false

-- The loop over the tags, with the flags `relay` and `challenge`; `continue` for a tag with no value.
unfoldable pub scan_tags : Bool → Bool → List Tag → Bool
scan_tags relay challenge [] = false
scan_tags relay challenge (tag ∷ tags) =
    let is_challenge = is_tag_named challenge_name tag in
    let is_relay = is_tag_named relay_name tag in
    let rest = scan_tags (relay || is_relay) (challenge || is_challenge) tags in
    if is_challenge && relay
    then true
    else if is_relay && (challenge || is_challenge)
    then true
    else rest

unfoldable pub is_signed_auth_event : Event → Bool
is_signed_auth_event event =
    if not (event.kind == auth_kind) then false else scan_tags false false event.tags

-- `tag[1]` of the tag that was found.
abbrev pub value_is : Option Tag → Str → Bool
value_is (some (name ∷ value ∷ more)) text = value === text
value_is _ text = false

unfoldable pub is_valid_signed_auth_event : Event → Str → Bool
is_valid_signed_auth_event event challenge =
    if is_signed_auth_event event
    then value_is (find (is_tag_named challenge_name) event.tags) challenge
    else false
