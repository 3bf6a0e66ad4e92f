-- ===== src/Lib.antt =====
-- NostrMesh: files that are encrypted, stored by their hash on a blob server, and described by
-- encrypted metadata events on Nostr relays.
--
-- The program has three services. The API (api/src) encrypts a file, uploads it, and publishes a
-- metadata event; it reads the newest event for a hash from the relays, downloads and decrypts. The
-- blob server (blossom/src) keeps blobs by their SHA-256 and lets in the signer of an authorisation
-- event. The relay (nostream-share/src) checks, stores and hands out events.
--
-- Which file models which part:
--   Nostr                     events, tags, and what is used of nostr-tools, base64 and JSON
--   Api/Crypto                api/src/crypto.ts (encryptBlob, decryptBlob)
--   Api/Metadata, Api/Hex     api/src/metadata/schema.ts (validate, build, parse, soft delete)
--   Api/NostrClient           api/src/nostr/client.ts (dedupeEvents, publishEvent)
--   Api/BlossomClient         api/src/blossom/client.ts (header, upload, download, check)
--   Api/Config, Api/Errors    api/src/config.ts, api/src/errors.ts
--   Api/Network               the network and the blob server as the API sees them, a parameter
--   Api/Routes                api/src/routes/blobs.ts and api/src/routes/events.ts
--   Blossom/Config, Blossom/Auth, Blossom/Server
--                             blossom/src/server.ts (loadConfig, parseAuthEvent, the routes)
--   Relay/Kinds, Relay/Filter, Relay/ProofOfWork, Relay/SignedAuth, Relay/Expiration
--                             nostream-share/src/utils (event.ts, filter.ts, proof-of-work.ts) and
--                             nostream-share/src/factories/event-strategy-factory.ts
--   Relay/Settings, Relay/Accept, Relay/Admission
--                             nostream-share/src/handlers/event-message-handler.ts
--   Relay/Repository          nostream-share/src/repositories/event-repository.ts (create, upsert,
--                             deleteByPubkeyAndIds) over a table with the two unique indexes
--                             of the migrations before 20240120_000000_partition_events_table.js
--   Relay/Query               the same file's findByFilters, against isEventMatchingFilter and against
--                             what a filter asks of the columns and tags of a row
--   Relay/RateLimit           nostream-share/src/utils/sliding-window-rate-limiter.ts
--   Relay/EventHandler        nostream-share/src/handlers/event-message-handler.ts (handleMessage)
--   Relay/Payments            nostream-share/src/services/payments-service.ts over
--                             nostream-share/src/repositories/user-repository.ts and
--                             nostream-share/src/repositories/invoice-repository.ts, the stored
--                             function confirm_invoice of nostream-share/migrations, and of
--                             nostream-share/src/controllers the callbacks and the requests for
--                             invoices
--   Relay/Mirror              nostream-share/src/app/static-mirroring-worker.ts
--   Relay/Strategies          nostream-share/src/handlers/event-strategies
--   Relay/Session             nostream-share/src/adapters/web-socket-adapter.ts
--   Relay/Subscribe           nostream-share/src/handlers/subscribe-message-handler.ts and
--                             nostream-share/src/handlers/unsubscribe-message-handler.ts
--   Relay/Adapter             the same adapter's onClientMessage with its rate limit,
--                             nostream-share/src/factories/message-handler-factory.ts and
--                             nostream-share/src/handlers/auth-event-message-handler.ts
--   Relay/Server              the sessions of all clients over one table, as a step relation
--   Relay/Runes               nostream-share/src/utils/runes (alternatives, restrictions, runes)
--   Relay/Maintenance         nostream-share/src/app/maintenance-worker.ts
--   System/Authorization      the header of api/src/blossom/client.ts before blossom/src/server.ts
--   Tests                     instances of the parameters, and the theorems at concrete inputs
--
-- State and effects. A text is the list of its UTF-16 code units, bytes are a list of numbers. The
-- blob server's folder is a list of names with contents, the relay's table a list of rows; an
-- operation takes the state and returns it. What throws returns a result, and the routes of the API
-- are actions on a world that the parameter Network keeps. Clocks, random bytes and the environment
-- are arguments. The cipher, the signatures, SHA-256, base64, JSON and Redis are parameters with the
-- laws that the code relies on.
--
-- Fuel. The decimal digits of a number run on fuel, the number itself, which is at least the count of
-- its digits; the loops that read a rune run on the length of their text, of which each turn takes
-- something; all other loops are structural.
--
-- Concurrency. A handler of the relay runs as one step, and the relay's sessions take their steps in
-- any order.
--
-- Not modelled: express, axios and the web socket library, the database itself, the relay's
-- payments processors, its other workers and the pages that it serves. Nor is the table that
-- 20240120_000000_partition_events_table.js leaves, whose unique indexes stand on a partition only,
-- where the ON CONFLICT of the repository finds none; nor the branch of the replaceable strategy for
-- an error other than a duplicate id. A notice on an invoice is handed over: that the relay's own
-- signing, storing and broadcasting of it may fail, which is only logged, is not modelled.
pub mod Prelude
pub mod Nostr
pub mod Api
pub mod Blossom
pub mod Relay
pub mod System
pub mod Tests
