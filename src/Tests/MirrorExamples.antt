-- ===== src/Tests/MirrorExamples.antt =====
-- The theorems on the mirroring worker of the relay at concrete inputs.
use nostr_mesh.Prelude.{◌≡◌, ◌⊎◌, true, false, none, [], ◌∷◌}
use nostr_mesh.Prelude.Text.{codes}
use nostr_mesh.Relay.Settings.{Settings}
use nostr_mesh.Relay.Repository.Laws.{IsUnique}
use nostr_mesh.Relay.Mirror.{event_message, Mirror, Times, Context, on_message}
use nostr_mesh.Relay.Mirror.Messages.{Passed, on_message-Passed}
use nostr_mesh.Tests.RelayExamples.{newer, recent, limits, settings, find_user}

abbrev by_fees : Settings
by_fees = record settings { require_admission = false; payments_enabled = true }

abbrev context : Context
context = record {
  id_valid = λ e. true;
  signature_valid = λ e. true;
  to_number = λ s. none;
  relay_pubkey = codes "relay";
  find_user = find_user;
  settings = by_fees;
  limits = limits;
  config = record {
    address = codes "ws://other";
    filters = recent ∷ [];
    skip_admission_check = true;
  };
  is_worker = true;
}

abbrev times : Times
times = record { expiration = 5; limits = 5; arrival = 100 }

abbrev empty : Mirror
empty = record { since = 0; table = []; sent = [] }

on_message-Passed_example :
    IsUnique (on_message context (codes "s") times (event_message (codes "s") newer) empty).table
    × (on_message context (codes "s") times (event_message (codes "s") newer) empty ≡ empty
        ⊎ Passed context (codes "s") times (event_message (codes "s") newer))
on_message-Passed_example =
    on_message-Passed context (codes "s") times (event_message (codes "s") newer) empty tt
