-- ===== src/Bot/Isolation/Playing.antt =====
-- discord-jockey/src/discord.ts and discord/command/play.ts: what an interaction does to the sessions
-- of other guilds.
use radio_jockey.Base.{
  ℕ, ◌∷◌, [], Bool, true, false, Text, none, some, Option, ◌≡◌, ◌≢◌, arith, ok, thrown, Outcome,
  Option-cases, inl, inr, lookup, lookup-insert, lookup-erase, text_eq, text_eq_iff, text, if-intro,
}
use radio_jockey.Proto.Messages.{Track}
use radio_jockey.Proto.Service.{
  Failure, Code, not_found, already_exists, invalid_argument, resource_exhausted,
}
use radio_jockey.Bot.Auth.{truthy}
use radio_jockey.Bot.Sessions.{Session, Sessions, create_session, set_buffer, set_auth_token}
use radio_jockey.Bot.Effects.{Env, World, M, ConnectError}
use radio_jockey.Bot.Commands.{Interaction, get_session_id}
use radio_jockey.Bot.Playback.{
  Playback, start_stream, await_ready, join_channel, or_destroy, connect_to_channel, open_playback,
  begin_stream, start_playback,
}
use radio_jockey.Bot.Play.{
  create_failed, get_or_create_session, track_added, add_failed, add_track, reply_and_add,
  playback_failed, started, start_in, with_stream, play_in, play_from, handle_play, no_playback,
  dispatch, logged, on_interaction,
}
use radio_jockey.Bot.Keeping.{
  Keeps, IsQuiet, bind-Keeps, pure-Keeps, throw-Keeps, info-Keeps, error-Keeps, read-Keeps,
  update-Keeps, with_connect_error-Keeps, attempt-Keeps, destroy_connection-Keeps,
  destroy_session-Keeps, call-Keeps, send-Keeps,
}
use radio_jockey.Bot.Isolation.{
  IsForeign, said-Keeps, failed-Keeps, handle_ping-Keeps, handle_skip-Keeps, handle_queue-Keeps,
  handle_remove-Keeps, handle_stop-Keeps,
}

module _ {S : Type 0} (env : Env S) {P : Sessions → Type 0} (quiet : IsQuiet env P) where
  create_failed-Keeps :
      (id : Text) (err : ConnectError) (code : Code) → Keeps P (create_failed env id err code)
  unfolding create_failed
  create_failed-Keeps id err already_exists =
      bind-Keeps (call-Keeps env quiet _ _) (λ _. bind-Keeps (info-Keeps _ _) (λ _. pure-Keeps))
  create_failed-Keeps id err _ = throw-Keeps

  get_or_create_session-Keeps : (id : Text) → Keeps P (get_or_create_session env id)
  unfolding get_or_create_session
  get_or_create_session-Keeps id =
      with_connect_error-Keeps
        (bind-Keeps (call-Keeps env quiet _ _) (λ _. bind-Keeps (info-Keeps _ _) (λ _. pure-Keeps)))
        (λ err. create_failed-Keeps id err err.code)

  track_added-Keeps : (id : Text) (track : Option Track) → Keeps P (track_added env id track)
  unfolding track_added
  track_added-Keeps id none = throw-Keeps
  track_added-Keeps id (some track) = said-Keeps env quiet _ _ _

  add_failed-Keeps :
      (id url : Text) (err : ConnectError) (code : Code) → Keeps P (add_failed env id url err code)
  unfolding add_failed
  add_failed-Keeps id url err invalid_argument = said-Keeps env quiet _ _ _
  add_failed-Keeps id url err not_found = said-Keeps env quiet _ _ _
  add_failed-Keeps id url err resource_exhausted = said-Keeps env quiet _ _ _
  add_failed-Keeps id url err _ = failed-Keeps env quiet _ _ _

  add_track-Keeps : (id url : Text) → Keeps P (add_track env id url)
  unfolding add_track
  add_track-Keeps id url =
      with_connect_error-Keeps
        (bind-Keeps (call-Keeps env quiet _ _) (λ response. track_added-Keeps id response.track))
        (λ err. add_failed-Keeps id url err err.code)

  reply_and_add-Keeps :
      (id otherwise : Text) (url : Option Text) → Keeps P (reply_and_add env id otherwise url)
  unfolding reply_and_add
  reply_and_add-Keeps id otherwise (some url) =
      bind-Keeps (send-Keeps env quiet _) (λ _. add_track-Keeps id url)
  reply_and_add-Keeps id otherwise none = send-Keeps env quiet _

  await_ready-Keeps : (connection : ℕ) → Keeps P (await_ready env connection)
  unfolding await_ready
  await_ready-Keeps connection = record { kept = λ w h. quiet _ w.sessions h }

  or_destroy-Keeps :
      (connection : ℕ) (ready : Outcome Failure (Unit {0}))
      → Keeps P (or_destroy env connection ready)
  or_destroy-Keeps connection (ok u) = pure-Keeps
  or_destroy-Keeps connection (thrown e) =
      bind-Keeps (destroy_connection-Keeps env connection) (λ _. throw-Keeps)

  join_channel-Keeps : (channel : Text) → Keeps P (join_channel env channel)
  unfolding join_channel
  join_channel-Keeps channel = record { kept = λ w h. h }

  connect_to_channel-Keeps : (channel : Text) → Keeps P (connect_to_channel env channel)
  unfolding connect_to_channel
  connect_to_channel-Keeps channel = bind-Keeps (join_channel-Keeps channel) (λ connection.
      bind-Keeps (attempt-Keeps (await_ready-Keeps connection)) (or_destroy-Keeps connection))

  module _ {id : Text} (foreign : IsForeign id P) where
    open_playback-Keeps :
        (stream_url : Text) (connection : ℕ) → Keeps P (open_playback env id stream_url connection)
    unfolding open_playback start_stream
    open_playback-Keeps stream_url connection = record {
      kept = λ w h. foreign.buffered _ w.sessions h;
    }

    pub begin_stream-Keeps :
        (stream_url : Text) (connection : ℕ) → Keeps P (begin_stream env id stream_url connection)
    unfolding begin_stream
    begin_stream-Keeps stream_url connection =
        bind-Keeps (update-Keeps _ (foreign.created connection)) (λ _.
          bind-Keeps (open_playback-Keeps stream_url connection) (λ playback.
            bind-Keeps
              (info-Keeps (text "stream started")
                ((text "sessionId", id) ∷ (text "streamUrl", stream_url) ∷ []))
              (λ _. pure-Keeps {a = playback})))

    start_playback-Keeps :
        (channel stream_url : Text) → Keeps P (start_playback env channel id stream_url)
    unfolding start_playback
    start_playback-Keeps channel stream_url =
        bind-Keeps (connect_to_channel-Keeps channel) (begin_stream-Keeps stream_url)

    playback_failed-Keeps : (e : Failure) → Keeps P (playback_failed env id e)
    unfolding playback_failed
    playback_failed-Keeps e = bind-Keeps (error-Keeps _ _) (λ _.
        bind-Keeps (destroy_session-Keeps env _ foreign.erased) (λ _.
          bind-Keeps
            (attempt-Keeps
              (send-Keeps env quiet (text "Failed to start playback. Please try again.")))
            (λ _. pure-Keeps {a = none})))

    started-Keeps : (outcome : Outcome Failure Playback) → Keeps P (started env id outcome)
    started-Keeps (ok playback) = pure-Keeps
    started-Keeps (thrown e) = playback_failed-Keeps e

    start_in-Keeps :
        (channel : Option Text) (stream_url : Text) → Keeps P (start_in env channel id stream_url)
    start_in-Keeps none stream_url = throw-Keeps
    start_in-Keeps (some channel) stream_url = start_playback-Keeps channel stream_url

    with_stream-Keeps :
        (channel : Option Text) (url : Option Text) (outcome : Outcome Failure Text)
        → Keeps P (with_stream env id channel url outcome)
    with_stream-Keeps channel url (thrown e) =
        bind-Keeps (error-Keeps _ _) (λ _. bind-Keeps (send-Keeps env quiet _) (λ _. pure-Keeps))
    with_stream-Keeps channel url (ok stream_url) =
        bind-Keeps (reply_and_add-Keeps id _ url)
          (λ _. bind-Keeps (attempt-Keeps (start_in-Keeps channel stream_url)) started-Keeps)

    play_in-Keeps :
        (channel : Option Text) (url : Option Text) (playing : Bool)
        → Keeps P (play_in env id channel url playing)
    play_in-Keeps channel url true = bind-Keeps (reply_and_add-Keeps id _ url) (λ _. pure-Keeps)
    play_in-Keeps channel url false =
        bind-Keeps (attempt-Keeps (get_or_create_session-Keeps id)) (with_stream-Keeps channel url)

  module _ (i : Interaction) (foreign : IsForeign (get_session_id env i) P) where
    play_from-Keeps : (channel : Option Text) → Keeps P (play_from env i channel)
    play_from-Keeps none = bind-Keeps (send-Keeps env quiet _) (λ _. pure-Keeps)
    play_from-Keeps (some channel) = bind-Keeps (info-Keeps _ _) (λ _.
        bind-Keeps (read-Keeps _)
          (λ playing. play_in-Keeps foreign i.voice_channel_later (truthy i.url) playing))

    handle_play-Keeps : Keeps P (handle_play env i)
    unfolding handle_play
    handle_play-Keeps =
        if-intro (Keeps P) i.in_guild (λ _. play_from-Keeps i.voice_channel)
          (λ _. bind-Keeps (send-Keeps env quiet _) (λ _. pure-Keeps))

    no_playback-Keeps : {m : M S (Unit {0})} → Keeps P m → Keeps P (no_playback env m)
    no_playback-Keeps k = bind-Keeps k (λ _. pure-Keeps)

    dispatch-Keeps : (name : Text) → Keeps P (dispatch env name i)
    unfolding dispatch
    dispatch-Keeps name =
        if-intro (Keeps P) (text_eq name (text "ping"))
          (λ _. no_playback-Keeps (handle_ping-Keeps env quiet))
          (λ _.
            if-intro (Keeps P) (text_eq name (text "play")) (λ _. handle_play-Keeps)
              (λ _.
                if-intro (Keeps P) (text_eq name (text "skip"))
                  (λ _. no_playback-Keeps (handle_skip-Keeps env quiet i))
                  (λ _.
                    if-intro (Keeps P) (text_eq name (text "queue"))
                      (λ _. no_playback-Keeps (handle_queue-Keeps env quiet i))
                      (λ _.
                        if-intro (Keeps P) (text_eq name (text "remove"))
                          (λ _. no_playback-Keeps (handle_remove-Keeps env quiet i))
                          (λ _.
                            if-intro (Keeps P) (text_eq name (text "stop"))
                              (λ _. no_playback-Keeps (handle_stop-Keeps env quiet i foreign))
                              (λ _. pure-Keeps))))))

    logged-Keeps :
        (name : Text) (outcome : Outcome Failure (Option Playback))
        → Keeps P (logged env name outcome)
    logged-Keeps name (ok playback) = pure-Keeps
    logged-Keeps name (thrown e) = bind-Keeps (error-Keeps _ _) (λ _. pure-Keeps)

    on_interaction-Keeps :
        (is_command : Bool) (name : Text) → Keeps P (on_interaction env is_command name i)
    unfolding on_interaction
    on_interaction-Keeps false name = pure-Keeps
    on_interaction-Keeps true name =
        bind-Keeps (info-Keeps _ _)
          (λ _. bind-Keeps (attempt-Keeps (dispatch-Keeps name)) (logged-Keeps name))

-- What a table has under an id is foreign to another id.
pub lookup-IsForeign :
    (id other : Text) (found : Option Session)
    → id ≢ other
    → IsForeign id (λ m. lookup other m ≡ found)
unfolding create_session set_buffer set_auth_token
lookup-IsForeign id other found ne = record {
  erased = λ m h. ground (arith, lookup-erase id other m, text_eq_iff id other, h);
  created = λ c m h. ground (
    arith,
    lookup-insert id other (record { connection = c; buffer = none; auth_token = none }) m,
    text_eq_iff id other,
    h,
  );
  buffered = λ b m h. elim (Option-cases (lookup id m)) [
    | inl missing ↦ rw (missing, set_buffer) h
    | inr (s, stored) ↦
        rw (stored, set_buffer)
          (ground (
            arith,
            lookup-insert id other (record s { buffer = some b }) m,
            text_eq_iff id other,
            h,
          ))
  ];
  tokened = λ t m h. elim (Option-cases (lookup id m)) [
    | inl missing ↦ rw (missing, set_auth_token) h
    | inr (s, stored) ↦
        rw (stored, set_auth_token)
          (ground (
            arith,
            lookup-insert id other (record s { auth_token = some t }) m,
            text_eq_iff id other,
            h,
          ))
  ];
}

-- Whatever interaction the listener of the bot is given, and whatever its handler throws, what the
-- table of sessions has under an id that is not the session id of the interaction is afterwards
-- what it was, if the other handlers leave that as it is while a call or a message is awaited.
pub on_interaction-foreign :
    {S : Type 0} (env : Env S) (is_command : Bool) (name : Text) (i : Interaction) (other : Text)
    (found : Option Session) (w : World S)
    → get_session_id env i ≢ other
    → IsQuiet env (λ m. lookup other m ≡ found)
    → lookup other w.sessions ≡ found
    → lookup other (on_interaction env is_command name i w).1.sessions ≡ found
on_interaction-foreign env is_command name i other found w ne quiet h =
    (on_interaction-Keeps env quiet i (lookup-IsForeign (get_session_id env i) other found ne)
        is_command name).kept
      w h
