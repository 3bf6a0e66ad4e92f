-- ===== src/System/Authorization.antt =====
-- The header that `buildAuthHeader` of api/src/blossom/client.ts makes, before `parseAuthEvent` of
-- blossom/src/server.ts.
use nostr_mesh.Prelude.{ℕ, List, [], ◌∷◌}
use nostr_mesh.Prelude.Text.{codes}
use nostr_mesh.Prelude.Bytes.{Bytes}
use nostr_mesh.Prelude.Number.{decimal}
use nostr_mesh.Nostr.{Tag}
use nostr_mesh.Api.Platform.{Platform}
use nostr_mesh.Api.BlossomClient.{BlossomVerb, verb_text}
use nostr_mesh.Blossom.Auth
use nostr_mesh.Blossom.Auth.{AuthVerb, HttpError, is_before, text_of, check_event}

-- The verb of the server for one of the client.
abbrev pub server_verb : BlossomVerb → AuthVerb
server_verb BlossomVerb.upload = AuthVerb.upload
server_verb BlossomVerb.get = AuthVerb.get

abbrev tags_of : BlossomVerb → ℕ → List Tag
tags_of verb end = (codes "t" ∷ verb_text verb ∷ []) ∷ (codes "expiration" ∷ decimal end ∷ []) ∷ []
