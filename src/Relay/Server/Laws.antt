-- ===== src/Relay/Server/Laws.antt =====
-- What holds of the relay in every state that it reaches.
use nostr_mesh.Prelude.{
  ℕ, ◌≤◌, ◌<◌, sym, subst, inl, inr, not, ◌&&◌, arith, ◌==◌, Bool-cases, length,
}
use nostr_mesh.Relay.Repository.{Table}
use nostr_mesh.Relay.Repository.Laws.{IsUnique}
use nostr_mesh.Relay.Session.{
  Session, new_session, on_heartbeat, on_client_pong, on_client_ping, on_client_close,
}
use nostr_mesh.Relay.Subscribe.{or_zero}
use nostr_mesh.Relay.Adapter.{AdapterContext}
use nostr_mesh.Relay.Adapter.Laws.{on_client_message-Keeps}
use nostr_mesh.Relay.Server.{
  update, Server, Step, connected, received, beaten, ponged, pinged, closed, started, Reach, here,
  next,
}

module _ (a : AdapterContext) where
  open a use {handlers}
  open handlers use {redis, settings}
  open redis use {Cache}

  abbrev pub limit : ℕ
  limit = or_zero settings.max_subscriptions

  -- The unique indexes hold, and no session has more subscriptions than the limit.
  pub record IsSound (s : Server a) : Type 0 where
    pub unique : IsUnique s.table
    pub bounded : (n : ℕ) → length (s.sessions n).subscriptions ≤ limit

  update_bounded :
      (sessions : ℕ → Session) (n : ℕ) (s : Session)
      → ((m : ℕ) → length (sessions m).subscriptions ≤ limit)
      → length s.subscriptions ≤ limit
      → (m : ℕ) → length (update sessions n s m).subscriptions ≤ limit
  update_bounded sessions n s all_ one m = elim (Bool-cases (n == m)) [
    | inl same ↦ rw same one
    | inr other ↦ rw other (all_ m)
  ]

  heartbeat_bounded :
      (s : Session)
      → length s.subscriptions ≤ limit
      → length (on_heartbeat s).0.subscriptions ≤ limit
  unfolding on_heartbeat
  heartbeat_bounded s h = elim (Bool-cases (not s.alive && length s.subscriptions == 0)) [
    | inl dead ↦ rw dead h
    | inr living ↦ rw living h
  ]

  Step-IsSound : {s t : Server a} → 0 < limit → Step a s t → IsSound s → IsSound t
  unfolding on_client_pong on_client_ping on_client_close
  Step-IsSound {s} limited (connected n) sound = record {
    unique = sound.unique;
    bounded = update_bounded s.sessions n new_session sound.bounded (omega arith);
  }
  Step-IsSound {s} limited (received n r raw t made) sound =
      let kept = on_client_message-Keeps a r raw (s.sessions n) s.table s.cache in
      subst IsSound (sym made) (record {
        unique = kept.unique sound.unique;
        bounded =
            update_bounded s.sessions n _ sound.bounded (kept.bounded limited (sound.bounded n));
      })
  Step-IsSound {s} limited (beaten n) sound = record {
    unique = sound.unique;
    bounded =
        update_bounded s.sessions n _ sound.bounded
          (heartbeat_bounded (s.sessions n) (sound.bounded n));
  }
  Step-IsSound {s} limited (ponged n) sound = record {
    unique = sound.unique;
    bounded = update_bounded s.sessions n _ sound.bounded (sound.bounded n);
  }
  Step-IsSound {s} limited (pinged n) sound = record {
    unique = sound.unique;
    bounded = update_bounded s.sessions n _ sound.bounded (sound.bounded n);
  }
  Step-IsSound {s} limited (closed n) sound = record {
    unique = sound.unique;
    bounded = update_bounded s.sessions n _ sound.bounded (omega arith);
  }

  Reach-Sound : {s t : Server a} → 0 < limit → Reach a s t → IsSound s → IsSound t
  Reach-Sound limited here sound = sound
  Reach-Sound limited (next r st) sound = Step-IsSound limited st (Reach-Sound limited r sound)

  -- Where the limit on subscriptions is set and not 0, a relay that starts over a table in which the
  -- two unique indexes hold keeps them in every state that it reaches, whatever its clients send and
  -- in whatever order, and no session ever has more subscriptions than the limit.
  pub Reach-IsSound :
      (table : Table) (cache : Cache) (s : Server a)
      → 0 < limit
      → IsUnique table
      → Reach a (started a table cache) s
      → IsSound s
  Reach-IsSound table cache s limited unique r =
      Reach-Sound limited r (record { unique = unique; bounded = λ n. omega arith })
