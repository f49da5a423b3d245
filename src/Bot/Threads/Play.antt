-- ===== src/Bot/Threads/Play.antt =====
-- discord-jockey/src/discord/command/play.ts, `handlePlayCommand`, and the dispatch of
-- discord-jockey/src/discord.ts, in a thread.
use radio_jockey.Base.{
  ℕ, Bool, true, false, Option, none, some, [], ◌∷◌, ◌++◌, Text, text, text_eq, if◌then◌else◌,
  Outcome, ok, thrown,
}
use radio_jockey.Proto.Messages.{Track}
use radio_jockey.Proto.Methods.{Method}
use radio_jockey.Proto.Service.{
  Code, invalid_argument, not_found, resource_exhausted, already_exists, Failure, other_error,
}
use radio_jockey.Bot.Effects.{Env, ConnectError, failure_of}
use radio_jockey.Bot.Auth.{truthy}
use radio_jockey.Bot.Commands.{Interaction, get_session_id}
use radio_jockey.Bot.Play.{stream_url_of, or_null}
use radio_jockey.Bot.Playback.{Playback}
use radio_jockey.Bot.Threads.{
  Thread, pure, throw, perform, call, reply, follow_up, info, error, has_session, destroy_session,
  join_channel, await_ready, destroy_connection, begin_stream, attempt, with_connect_error, ◌>>=◌,
  ◌>>◌,
}
use radio_jockey.Bot.Threads.Commands.{
  handle_ping, handle_skip, handle_queue, handle_remove, handle_stop,
}

module _ {S : Type 0} (env : Env S) where
  unfoldable pub create_failed : Text → ConnectError → Code → Thread Text
  create_failed id err already_exists = do
    _ ← perform (call Method.get_session (record { session_id = id }))
    let stream_url = stream_url_of env id
    perform (
        info (text "session already exists")
          ((text "sessionId", id) ∷ (text "streamUrl", stream_url) ∷ []))
    pure stream_url
  create_failed id err _ = throw (failure_of err)

  unfoldable pub get_or_create_session : Text → Thread Text
  unfolding create_failed
  get_or_create_session id =
      with_connect_error
        (do
          _ ← perform (call Method.create_session (record { session_id = id; archive = true }))
          let stream_url = stream_url_of env id
          perform (
              info (text "session created")
                ((text "sessionId", id) ∷ (text "streamUrl", stream_url) ∷ []))
          pure stream_url)
        (λ err. create_failed id err err.code)

  -- `track!.title` throws a TypeError where the track is undefined.
  unfoldable pub track_added : Text → Option Track → Thread (Unit {0})
  track_added id none = throw (other_error (text "track is undefined"))
  track_added id (some track) = do
    perform (
        info (text "track added") (
          (text "sessionId", id)
          ∷ (text "title", track.title)
          ∷ (text "artist", track.artist)
          ∷ []))
    perform (
        follow_up (
          text "Added **"
          ++ track.title
          ++ text "** by **"
          ++ track.artist
          ++ text "** to the queue."))

  unfoldable pub add_failed : Text → Text → ConnectError → Code → Thread (Unit {0})
  add_failed id url err invalid_argument = do
    perform (
        info (text "add track failed: invalid url")
          ((text "sessionId", id) ∷ (text "trackUrl", url) ∷ []))
    perform (follow_up (text "Invalid URL. Please try again with a YouTube link!"))
  add_failed id url err not_found = do
    perform (
        info (text "add track failed: not found")
          ((text "sessionId", id) ∷ (text "trackUrl", url) ∷ []))
    perform (follow_up (text "That video is unavailable or the session has ended."))
  add_failed id url err resource_exhausted = do
    perform (info (text "add track failed: queue full") ((text "sessionId", id) ∷ []))
    perform (follow_up (text "The queue is full!"))
  add_failed id url err _ = do
    perform (
        error (text "add track failed")
          ((text "sessionId", id) ∷ (text "err", env.show_error (failure_of err)) ∷ []))
    perform (follow_up (text "Something went wrong adding that track."))

  unfoldable pub add_track : Text → Text → Thread (Unit {0})
  unfolding track_added add_failed
  add_track id url =
      with_connect_error
        (do
          response ← perform (call Method.add_track (record { session_id = id; track_url = url }))
          track_added id response.track)
        (λ err. add_failed id url err err.code)

  -- The reply to the command, and the call that adds the track, if one is named.
  unfoldable pub reply_and_add : Text → Text → Option Text → Thread (Unit {0})
  unfolding add_track
  reply_and_add id otherwise (some url) = do
    perform (reply (text "Adding **" ++ url ++ text "** to the queue..."))
    add_track id url
  reply_and_add id otherwise none = perform (reply otherwise)

  abbrev pub or_destroy : ℕ → Outcome Failure (Unit {0}) → Thread ℕ
  or_destroy connection (ok _) = pure connection
  or_destroy connection (thrown e) = do perform (destroy_connection connection); throw e

  unfoldable pub connect_to_channel : Text → Thread ℕ
  connect_to_channel channel = do
    connection ← perform (join_channel channel)
    ready ← attempt (perform (await_ready connection))
    or_destroy connection ready

  unfoldable pub start_playback : Text → Text → Text → Thread Playback
  unfolding connect_to_channel
  start_playback channel session_id stream_url = do
    connection ← connect_to_channel channel
    perform (begin_stream session_id stream_url connection)

  -- The failure to start is reported; a failure to report it is ignored.
  unfoldable pub playback_failed : Text → Failure → Thread (Option Playback)
  playback_failed id e = do
    perform (
        error (text "failed to connect or play")
          ((text "sessionId", id) ∷ (text "err", env.show_error e) ∷ []))
    perform (destroy_session id)
    _ ← attempt (perform (follow_up (text "Failed to start playback. Please try again.")))
    pure none

  abbrev pub started : Text → Outcome Failure Playback → Thread (Option Playback)
  started id (ok playback) = pure (some playback)
  started id (thrown e) = playback_failed id e

  -- `connectToChannel(null)` throws a TypeError at `channel.id`.
  abbrev pub start_in : Option Text → Text → Text → Thread Playback
  start_in none session_id stream_url = throw (other_error (text "channel is null"))
  start_in (some channel) session_id stream_url = start_playback channel session_id stream_url

  abbrev pub with_stream :
      Text → Option Text → Option Text → Outcome Failure Text → Thread (Option Playback)
  with_stream id channel url (thrown e) = do
    perform (
        error (text "failed to get or create session")
          ((text "sessionId", id) ∷ (text "err", env.show_error e) ∷ []))
    perform (reply (text "Failed to start a session. Please try again."))
    pure none
  with_stream id channel url (ok stream_url) = do
    reply_and_add id (text "Starting playback!") url
    playback ← attempt (start_in channel id stream_url)
    started id playback

  abbrev pub play_in : Text → Option Text → Option Text → Bool → Thread (Option Playback)
  play_in id channel url true = do reply_and_add id (text "Already playing!") url; pure none
  play_in id channel url false = do
    stream_url ← attempt (get_or_create_session id)
    with_stream id channel url stream_url

  abbrev pub play_from : Interaction → Option Text → Thread (Option Playback)
  play_from i none = do perform (reply (text "Join a voice channel then try again!")); pure none
  play_from i (some channel) = do
    let id = get_session_id env i
    perform (
        info (text "play command received")
          ((text "sessionId", id) ∷ (text "trackUrl", or_null env i.url) ∷ []))
    playing ← perform (has_session id)
    play_in id i.voice_channel_later (truthy i.url) playing

  -- The playback that the command has started, if it has.
  unfoldable pub handle_play : Interaction → Thread (Option Playback)
  unfolding reply_and_add get_or_create_session start_playback playback_failed
  handle_play i =
      if i.in_guild
      then play_from i i.voice_channel
      else (do perform (reply (text "This command can only be used in a server!")); pure none)

  abbrev pub no_playback : Thread (Unit {0}) → Thread (Option Playback)
  no_playback m = do m; pure none

  -- The `switch` of the dispatcher.
  unfoldable pub dispatch : Text → Interaction → Thread (Option Playback)
  dispatch name i =
      if text_eq name (text "ping")
      then no_playback (handle_ping env)
      else if text_eq name (text "play")
      then handle_play i
      else if text_eq name (text "skip")
      then no_playback (handle_skip env i)
      else if text_eq name (text "queue")
      then no_playback (handle_queue env i)
      else if text_eq name (text "remove")
      then no_playback (handle_remove env i)
      else if text_eq name (text "stop")
      then no_playback (handle_stop env i)
      else pure none

  abbrev pub logged : Text → Outcome Failure (Option Playback) → Thread (Option Playback)
  logged name (ok playback) = pure playback
  logged name (thrown e) = do
    perform (
        error (text "unhandled error in interaction handler")
          ((text "command", name) ∷ (text "err", env.show_error e) ∷ []))
    pure none

  -- The listener of `InteractionCreate`; `is_command` is `interaction.isChatInputCommand()`.
  unfoldable pub on_interaction : Bool → Text → Interaction → Thread (Option Playback)
  on_interaction false name i = pure none
  on_interaction true name i = do
    perform (info (text "received interaction") ((text "command", name) ∷ []))
    outcome ← attempt (dispatch name i)
    logged name outcome
