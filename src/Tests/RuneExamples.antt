-- ===== src/Tests/RuneExamples.antt =====
-- The theorems on runes at concrete inputs.
use nostr_mesh.Prelude.{
  ◌≡◌, refl, ◌≢◌, ◌↔◌, true, false, Option, none, some, [], ◌∷◌, if◌then◌else◌, any, All,
}
use nostr_mesh.Prelude.Text.{Str, codes, ◌===◌, is_space}
use nostr_mesh.Prelude.Result.{ok, err}
use nostr_mesh.Relay.Runes.Alternative.{RuneError, unfinished, Alternative, decode}
use nostr_mesh.Relay.Runes.Rune.{Restriction, RuneLike, encode_rune, rune_from}
use nostr_mesh.Relay.Runes.Check.{Value, text, test_rune}
use nostr_mesh.Relay.Runes.Alternative.{is_punctuation, is_cond}
use nostr_mesh.Relay.Runes.Restrictions.{IsRestriction}
use nostr_mesh.Relay.Runes.RoundTrip.{rune_from-encode_rune}
use nostr_mesh.Relay.Runes.Passing.{Passes, test_rune_iff}
use nostr_mesh.Relay.Runes.Termination.{rune_from_finished}

abbrev by_method : Restriction
by_method = record {
  alternatives =
      record { field = codes "method"; cond = b'='; value = codes "a|b" }
      ∷ record { field = codes "method"; cond = b'!'; value = [] }
      ∷ [];
}

abbrev in_time : Restriction
in_time = record {
  alternatives = record { field = codes "time"; cond = b'<'; value = codes "20" } ∷ [];
}

abbrev rune : RuneLike
rune = record { restrictions = by_method ∷ in_time ∷ [] }

-- A call of the method `a|b` at the time 7.
abbrev values : Str → Option Value
values name =
    if name === codes "method"
    then some (text (codes "a|b"))
    else if name === codes "time"
    then some (text (codes "7"))
    else none

written_rune : encode_rune rune ≡ codes "method=a\\|b|method!&time<20"
unfolding encode_rune nostr_mesh.Relay.Runes.Rune.join_by
    nostr_mesh.Relay.Runes.Rune.encode_restriction nostr_mesh.Relay.Runes.Alternative.encode
    nostr_mesh.Relay.Runes.Alternative.escape nostr_mesh.Relay.Runes.Alternative.is_special
written_rune = refl

trailing_backslash :
    decode (codes "field=\\")
    ≡ ok (record { field = codes "field"; cond = b'='; value = codes "undefined" }, [])
unfolding decode nostr_mesh.Relay.Runes.Alternative.new_alternative is_cond
    nostr_mesh.Relay.Runes.Alternative.read_value
trailing_backslash = refl

holds : test_rune values rune ≡ ok (true, [])
unfolding test_rune nostr_mesh.Relay.Runes.Check.test_restrictions
    nostr_mesh.Relay.Runes.Check.test_restriction nostr_mesh.Relay.Runes.Check.test_alternatives
    nostr_mesh.Relay.Runes.Check.test ◌===◌ nostr_mesh.Relay.Runes.Check.parse_int
    nostr_mesh.Relay.Runes.Check.parse_natural nostr_mesh.Relay.Runes.Check.int_ltb
holds = refl

by_method-IsRestriction : IsRestriction by_method
unfolding is_punctuation is_cond
by_method-IsRestriction =
    (λ e. cc e, (record { field = refl; cond = refl }, (record { field = refl; cond = refl }, tt)))

in_time-IsRestriction : IsRestriction in_time
unfolding is_punctuation is_cond
in_time-IsRestriction = (λ e. cc e, (record { field = refl; cond = refl }, tt))

spaceless : any is_space (encode_rune rune) ≡ false
unfolding encode_rune is_space nostr_mesh.Relay.Runes.Rune.join_by
    nostr_mesh.Relay.Runes.Rune.encode_restriction nostr_mesh.Relay.Runes.Alternative.encode
    nostr_mesh.Relay.Runes.Alternative.escape nostr_mesh.Relay.Runes.Alternative.is_special
spaceless = refl

rune_from-encode_rune_example : rune_from (encode_rune rune) ≡ ok rune
rune_from-encode_rune_example =
    rune_from-encode_rune rune (by_method-IsRestriction, (in_time-IsRestriction, tt)) spaceless

rune_from_finished_example : rune_from (codes "a=1&&") ≢ err unfinished
rune_from_finished_example = rune_from_finished (codes "a=1&&")

test_rune_iff_example :
    (test_rune values rune ≡ ok (true, []))
    ↔ All (λ q. Passes values q.alternatives) rune.restrictions
test_rune_iff_example = test_rune_iff values rune
