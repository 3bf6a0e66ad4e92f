-- ===== src/Tests/QueryExamples.antt =====
-- The theorems on the search for stored events at concrete inputs.
use nostr_mesh.Prelude.{ℕ, zero, suc, ◌≡◌, refl, false, none, some, List, [], ◌∷◌, arith}
use nostr_mesh.Prelude.Text.{Str, codes, is_hex_lower, is_hash_lower}
use nostr_mesh.Nostr.{Event}
use nostr_mesh.Relay.Filter.{SubscriptionFilter}
use nostr_mesh.Relay.Repository.{Row, null}
use nostr_mesh.Relay.Query.{select}
use nostr_mesh.Relay.Query.Matching.{matching, select-matching, IsStored}
use nostr_mesh.Relay.Query.Tags.{key, select_two_tags}
use nostr_mesh.Tests.SessionExamples.{note, notes_only}

abbrev digits : ℕ → Str
digits zero = []
digits (suc n) = b'a' ∷ digits n

abbrev stored : Row
stored = record {
  event = record note { id = digits 64; pubkey = digits 64 };
  deduplication = null;
  expires_at = none;
  is_deleted = false;
}

abbrev by_author : SubscriptionFilter
by_author = record notes_only { authors = some (codes "aaaaa" ∷ []); limit = some 1 }

-- The tags of a note that answers another one, as the trigger wrote them.
abbrev pub tags_of : Event → List (Str × Str)
tags_of event = (codes "e", codes "1") ∷ (codes "p", codes "2") ∷ []

abbrev answers : SubscriptionFilter
answers = record notes_only {
  entries = (key b'e', codes "1" ∷ []) ∷ (key b'p', codes "2" ∷ []) ∷ [];
}

stored-IsStored : IsStored stored
unfolding is_hash_lower is_hex_lower
stored-IsStored = (refl, refl)

select-matching_example : select tags_of by_author (stored ∷ []) ≡ matching by_author (stored ∷ [])
unfolding is_hex_lower
select-matching_example =
    select-matching tags_of by_author (stored ∷ []) tt ((omega arith, refl), tt) refl
      (stored-IsStored, tt)

select_two_tags_example : select tags_of answers (stored ∷ []) ≡ []
select_two_tags_example =
    select_two_tags tags_of answers b'e' b'p' (codes "1" ∷ []) (codes "2" ∷ []) (stored ∷ []) refl
      refl refl refl

-- A filter with one tag query.
abbrev mentions : SubscriptionFilter
mentions = record notes_only { entries = (key b'e', codes "1" ∷ []) ∷ []; limit = some 2 }
