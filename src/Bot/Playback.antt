-- ===== src/Bot/Playback.antt =====
-- discord-jockey/src/discord/command/play.ts, `startPlayback`: the stream of a guild and the
-- events that it answers.
use radio_jockey.Base.{
  ℕ, Bool, true, false, Option, none, some, List, [], ◌∷◌, Text, text, ◌==◌, if◌then◌else◌, Outcome,
  ok, thrown,
}
use radio_jockey.Proto.Service.{Failure}
use radio_jockey.Bot.Sessions.{create_session, set_buffer}
use radio_jockey.Bot.Effects.{
  Env, World, M, ◌>>=◌, ◌>>◌, pure, throw, settle, delivered, send, info, warn, error,
  destroy_session, destroy_connection, attempt, update_sessions,
}

-- The variables that the closures of `startPlayback` share, with the listeners that are attached:
-- those of the player, and the requests that are open with theirs. `playing` is the buffer that
-- the player was given last.
pub record Playback : Type 0 where
  pub session_id : Text
  pub stream_url : Text
  pub connection : ℕ
  pub stopped : Bool
  pub current_request : Option ℕ
  pub attached : Bool
  pub live : List ℕ
  pub playing : Option ℕ

-- What may happen to a playback: the player fails or runs dry, the response to a request ends, a
-- request fails, a buffer can be read for the first time.
pub data Event : Type 0 where
  player_error : (err : Text) → Event
  player_idle : Event
  stream_end : (request : ℕ) → Event
  stream_error : (request : ℕ) (err : Text) → Event
  readable : (buffer : ℕ) → Event

abbrev pub mem : ℕ → List ℕ → Bool
mem a [] = false
mem a (b ∷ bs) = if a == b then true else mem a bs

-- A listener that was removed, and a request that was destroyed, are silent.
abbrev pub enabled : Playback → Event → Bool
enabled p (player_error err) = p.attached
enabled p player_idle = p.attached
enabled p (stream_end request) = mem request p.live
enabled p (stream_error request err) = mem request p.live
enabled p (readable buffer) = true

-- The open requests without one.
abbrev pub remove : ℕ → List ℕ → List ℕ
remove a [] = []
remove a (b ∷ bs) = let rest = remove a bs in if a == b then rest else b ∷ rest

-- `currentRequest?.removeAllListeners(); currentRequest?.destroy();`
abbrev pub without_current : Option ℕ → List ℕ → List ℕ
without_current none live = live
without_current (some request) live = remove request live

-- A playback that an event has changed, and how the event's handler ended.
abbrev pub Played : Type 0 → Type 0
Played S = Outcome Failure (Unit {0}) × Playback × World S

module _ {S : Type 0} (env : Env S) where
  abbrev pub close_current : Option ℕ → S → S
  close_current none s = s
  close_current (some request) s = env.close_stream request s

  unfoldable pub start_stream : Playback → World S → Playback × World S
  start_stream p w =
      let (request, s) =
        env.open_stream p.stream_url (close_current p.current_request w.external) in
      (
        record p {
          current_request = some request;
          live = request ∷ without_current p.current_request p.live;
        },
        record w { sessions = set_buffer p.session_id request w.sessions; external = s },
      )

  -- The rest of `stop` behind `destroySession`, which is not reached if that throws.
  abbrev pub torn_down : Playback → Outcome Failure (Unit {0}) × World S → Played S
  torn_down p (thrown e, w) = (thrown e, record p { stopped = true }, w)
  torn_down p (ok _, w) = (
    ok tt,
    record p {
      stopped = true;
      attached = false;
      live = without_current p.current_request p.live;
      playing = none;
    },
    record w { external = close_current p.current_request w.external },
  )

  unfoldable pub stop : Playback → World S → Played S
  stop p w = if p.stopped then (ok tt, p, w) else torn_down p (destroy_session env p.session_id w)

  -- The message of `leave`; a failure to send it is ignored.
  abbrev pub and_say : Text → Played S → Played S
  and_say message (thrown e, p, w) = (thrown e, p, w)
  and_say message (ok _, p, w) = (ok tt, p, (send env message w).1)

  unfoldable pub leave : Text → Playback → World S → Played S
  leave message p w = and_say message (stop p w)

  abbrev pub restarted : Playback × World S → Played S
  restarted (p, w) = (ok tt, p, w)

  -- The two listeners of the player.
  unfoldable pub reconnect : M S (Unit {0}) → Playback → World S → Played S
  reconnect say p w = if p.stopped then (ok tt, p, w) else restarted (start_stream p (say w).1)

  unfoldable pub on_event : Event → Playback → World S → Played S
  unfolding reconnect
  on_event (player_error err) p w =
      reconnect
        (warn (text "player error, reconnecting stream")
          ((text "sessionId", p.session_id) ∷ (text "err", err) ∷ []))
        p w
  on_event player_idle p w =
      reconnect
        (info (text "player idle, reconnecting stream") ((text "sessionId", p.session_id) ∷ [])) p w
  on_event (stream_end request) p w =
      leave (text "Stream ended. Use /play to start a new session.") p
        (info (text "stream ended, leaving voice channel") ((text "sessionId", p.session_id) ∷ [])
          w).1
  on_event (stream_error request err) p w =
      leave (text "Lost connection to the stream. Use /play to reconnect.") p
        (error (text "stream connection error")
          ((text "sessionId", p.session_id) ∷ (text "err", err) ∷ []) w).1
  on_event (readable buffer) p w =
      (ok tt, record p { playing = if p.stopped then p.playing else some buffer }, w)

  -- `entersState(connection, Ready, 30_000)`, which rejects where it times out.
  unfoldable pub await_ready : ℕ → M S (Unit {0})
  await_ready connection w =
      let (r, s) = env.enters_ready connection w.external in settle env w (delivered r, s)

  unfoldable pub join_channel : Text → M S ℕ
  join_channel channel w =
      let (connection, s) = env.join channel w.external in
      (ok connection, record w { external = s })

  abbrev pub or_destroy : ℕ → Outcome Failure (Unit {0}) → M S ℕ
  or_destroy connection (ok _) = pure connection
  or_destroy connection (thrown e) = do destroy_connection env connection; throw e

  unfoldable pub connect_to_channel : Text → M S ℕ
  unfolding await_ready join_channel
  connect_to_channel channel = do
    connection ← join_channel channel
    ready ← attempt (await_ready connection)
    or_destroy connection ready

  unfoldable pub open_playback : Text → Text → ℕ → M S Playback
  open_playback session_id stream_url connection w =
      let p : Playback = record {
        session_id = session_id;
        stream_url = stream_url;
        connection = connection;
        stopped = false;
        current_request = none;
        attached = true;
        live = [];
        playing = none;
      } in
      let (p', w') = start_stream p w in (ok p', w')

  -- From `createSession` on.
  unfoldable pub begin_stream : Text → Text → ℕ → M S Playback
  unfolding open_playback
  begin_stream session_id stream_url connection = do
    update_sessions (create_session session_id connection)
    playback ← open_playback session_id stream_url connection
    info (text "stream started")
        ((text "sessionId", session_id) ∷ (text "streamUrl", stream_url) ∷ [])
    pure playback

  -- `startPlayback` up to its return; its closures live on in the playback.
  unfoldable pub start_playback : Text → Text → Text → M S Playback
  start_playback channel session_id stream_url = do
    connection ← connect_to_channel channel
    begin_stream session_id stream_url connection
