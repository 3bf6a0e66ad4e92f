-- ===== src/Relay/SignedAuth/Laws.antt =====
-- What counts as a signed authentication event.
use nostr_mesh.Prelude.{
  ◌≡◌, refl, inl, inr, Bool, false, ◌&&◌, ◌||◌, List, [], ◌∷◌, arith, ◌==◌, Bool-cases, any,
}
use nostr_mesh.Prelude.Text.{◌===◌, ===_iff}
use nostr_mesh.Nostr.{Event, Tag}
use nostr_mesh.Relay.Kinds.{auth_kind}
use nostr_mesh.Relay.SignedAuth.{
  is_tag_named, challenge_name, relay_name, scan_tags, is_signed_auth_event,
}

-- No tag has both names.
names_differ :
    (tag : Tag) → (is_tag_named challenge_name tag && is_tag_named relay_name tag) ≡ false
unfolding is_tag_named
names_differ [] = refl
names_differ (n ∷ []) = refl
names_differ (n ∷ v ∷ more) = elim (Bool-cases (n === challenge_name)) [
  | inl e ↦ rw ((===_iff n challenge_name).0 e) (unfold ◌===◌ in refl)
  | inr e ↦ rw e
]

-- The loop has seen a tag of each name, counting those before.
scan_tags_lem :
    (relay challenge : Bool) (tags : List Tag)
    → (relay && challenge) ≡ false
    → scan_tags relay challenge tags ≡ (
        (relay || any (is_tag_named relay_name) tags)
        && (challenge || any (is_tag_named challenge_name) tags))
unfolding scan_tags
scan_tags_lem relay challenge [] h = ground arith
scan_tags_lem relay challenge (tag ∷ tags) h = ground (
  arith,
  names_differ tag,
  scan_tags_lem (relay || is_tag_named relay_name tag)
      (challenge || is_tag_named challenge_name tag) tags,
)

-- An event counts as signed authentication exactly if it is of kind 22242 and has a tag "challenge"
-- and a tag "relay", each with a value, in any order.
pub is_signed_auth_event_lem :
    (event : Event)
    → is_signed_auth_event event ≡ (
        event.kind == auth_kind
        && (any (is_tag_named relay_name) event.tags
            && any (is_tag_named challenge_name) event.tags))
unfolding is_signed_auth_event
is_signed_auth_event_lem event = ground (arith, scan_tags_lem false false event.tags)
