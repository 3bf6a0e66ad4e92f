-- ===== src/Relay/Server.antt =====
-- The relay with its clients: the sessions of nostream-share/src/adapters/web-socket-adapter.ts over
-- one table and one cache, in any order of messages, heartbeats and closings.
pub mod Laws
use nostr_mesh.Prelude.{
  ℕ, zero, suc, ◌+◌, ◌-◌, ◌*◌, ◌/◌, ◌%◌, ◌^◌, ◌≤◌, ◌<◌, ◌≡◌, refl, sym, ap, subst, ◌∙◌, ◌≢◌, ◌↔◌,
  ◌⊎◌, inl, inr, Bool, true, false, not, ◌&&◌, ◌||◌, Option, none, some, List, [], ◌∷◌, ◌++◌, map,
  arith, ltb, leb, ◌==◌, if◌then◌else◌, ltb→lt, lt→ltb, leb→le, le_of_not_ltb, eq_of_not_ne,
  ==_refl, lt_of_le, ==_iff, &&_parts, Bool-cases, Option-cases, length, get_elem?, take, drop,
  length-append, length-drop, take-append, drop-append, any, all, find, All,
}
use nostr_mesh.Relay.Repository.{Table}
use nostr_mesh.Relay.EventHandler.{Context}
use nostr_mesh.Relay.Session.{
  Session, new_session, on_heartbeat, on_client_pong, on_client_ping, on_client_close,
}
use nostr_mesh.Relay.Adapter.{AdapterContext, Received, Readings, on_client_message}

-- The session at a place becomes another one.
abbrev pub update : (ℕ → Session) → ℕ → Session → ℕ → Session
update sessions n s m = if n == m then s else sessions m

module _ (a : AdapterContext) where
  open a use {handlers}
  open handlers use {redis}
  open redis use {Cache}

  -- A number that no client has stands for a session that nobody uses.
  pub record Server : Type 0 where
    pub sessions : ℕ → Session
    pub table : Table
    pub cache : Cache

  -- One step: a client connects, sends a message, answers or asks for a sign of life, or goes away,
  -- or the heartbeat passes over it.
  pub data Step (s : Server) : Server → Type 0 where
    connected : (n : ℕ) → Step s (record s { sessions = update s.sessions n new_session })
    received :
        (n : ℕ) (r : Readings) (raw : Received) (t : Server)
        → t ≡ (
            let o = on_client_message a r raw (s.sessions n) s.table s.cache in
            record { sessions = update s.sessions n o.session; table = o.table; cache = o.cache })
        → Step s t
    beaten :
        (n : ℕ)
        → Step s (record s { sessions = update s.sessions n (on_heartbeat (s.sessions n)).0 })
    ponged :
        (n : ℕ)
        → Step s (record s { sessions = update s.sessions n (on_client_pong (s.sessions n)) })
    pinged :
        (n : ℕ)
        → Step s (record s { sessions = update s.sessions n (on_client_ping (s.sessions n)).0 })
    closed :
        (n : ℕ)
        → Step s (record s { sessions = update s.sessions n (on_client_close (s.sessions n)) })

  -- The relay after its start, over a table and a cache that are there.
  abbrev pub started : Table → Cache → Server
  started table cache = record { sessions = λ n. new_session; table = table; cache = cache }

  pub data Reach (s : Server) : Server → Type 0 where
    here : Reach s s
    next : {t u : Server} → Reach s t → Step t u → Reach s u
