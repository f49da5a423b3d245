-- ===== src/Bot/Play.antt =====
-- discord-jockey/src/discord/command/play.ts, `handlePlayCommand`, and discord-jockey/src/
-- discord.ts, the dispatch of commands.
use radio_jockey.Base.{
  Bool, true, false, Option, none, some, [], ◌∷◌, ◌++◌, Text, text, text_eq, if◌then◌else◌, Outcome,
  ok, thrown,
}
use radio_jockey.Proto.Messages.{Track}
use radio_jockey.Proto.Service.{
  Code, invalid_argument, not_found, resource_exhausted, already_exists, Failure, other_error,
}
use radio_jockey.Bot.Sessions.{has_session}
use radio_jockey.Bot.Effects.{
  Env, M, ◌>>=◌, ◌>>◌, pure, throw, call, send, with_connect_error, ConnectError, failure_of, info,
  error, destroy_session, read_sessions, attempt,
}
use radio_jockey.Bot.Auth.{truthy}
use radio_jockey.Bot.Commands.{
  Interaction, get_session_id, handle_ping, handle_skip, handle_queue, handle_remove, handle_stop,
}
use radio_jockey.Bot.Playback.{Playback, start_playback}

module _ {S : Type 0} (env : Env S) where
  unfoldable pub stream_url_of : Text → Text
  stream_url_of session_id = env.icecast_url ++ text "/stream/" ++ session_id

  unfoldable pub create_failed : Text → ConnectError → Code → M S Text
  create_failed id err already_exists = do
    _ ← call env env.client.get_session (record { session_id = id })
    let stream_url = stream_url_of id
    info (text "session already exists")
        ((text "sessionId", id) ∷ (text "streamUrl", stream_url) ∷ [])
    pure stream_url
  create_failed id err _ = throw (failure_of err)

  unfoldable pub get_or_create_session : Text → M S Text
  unfolding create_failed
  get_or_create_session id =
      with_connect_error
        (do
          _ ← call env env.client.create_session (record { session_id = id; archive = true })
          let stream_url = stream_url_of id
          info (text "session created")
              ((text "sessionId", id) ∷ (text "streamUrl", stream_url) ∷ [])
          pure stream_url)
        (λ err. create_failed id err err.code)

  -- `track!.title` throws a TypeError where the track is undefined.
  unfoldable pub track_added : Text → Option Track → M S (Unit {0})
  track_added id none = throw (other_error (text "track is undefined"))
  track_added id (some track) = do
    info (text "track added")
        ((text "sessionId", id) ∷ (text "title", track.title) ∷ (text "artist", track.artist) ∷ [])
    send env (
        text "Added **"
        ++ track.title
        ++ text "** by **"
        ++ track.artist
        ++ text "** to the queue.")

  unfoldable pub add_failed : Text → Text → ConnectError → Code → M S (Unit {0})
  add_failed id url err invalid_argument = do
    info (text "add track failed: invalid url")
        ((text "sessionId", id) ∷ (text "trackUrl", url) ∷ [])
    send env (text "Invalid URL. Please try again with a YouTube link!")
  add_failed id url err not_found = do
    info (text "add track failed: not found") ((text "sessionId", id) ∷ (text "trackUrl", url) ∷ [])
    send env (text "That video is unavailable or the session has ended.")
  add_failed id url err resource_exhausted = do
    info (text "add track failed: queue full") ((text "sessionId", id) ∷ [])
    send env (text "The queue is full!")
  add_failed id url err _ = do
    error (text "add track failed")
        ((text "sessionId", id) ∷ (text "err", env.show_error (failure_of err)) ∷ [])
    send env (text "Something went wrong adding that track.")

  unfoldable pub add_track : Text → Text → M S (Unit {0})
  unfolding track_added add_failed
  add_track id url =
      with_connect_error
        (do
          response ← call env env.client.add_track (record { session_id = id; track_url = url })
          track_added id response.track)
        (λ err. add_failed id url err err.code)

  -- The reply to the command, and the call that adds the track, if one is named.
  unfoldable pub reply_and_add : Text → Text → Option Text → M S (Unit {0})
  unfolding add_track
  reply_and_add id otherwise (some url) = do
    send env (text "Adding **" ++ url ++ text "** to the queue...")
    add_track id url
  reply_and_add id otherwise none = send env otherwise

  -- The failure to start is reported; a failure to report it is ignored.
  unfoldable pub playback_failed : Text → Failure → M S (Option Playback)
  playback_failed id e = do
    error (text "failed to connect or play")
        ((text "sessionId", id) ∷ (text "err", env.show_error e) ∷ [])
    destroy_session env id
    _ ← attempt (send env (text "Failed to start playback. Please try again."))
    pure none

  abbrev pub started : Text → Outcome Failure Playback → M S (Option Playback)
  started id (ok playback) = pure (some playback)
  started id (thrown e) = playback_failed id e

  -- `connectToChannel(null)` throws a TypeError at `channel.id`.
  abbrev pub start_in : Option Text → Text → Text → M S Playback
  start_in none session_id stream_url = throw (other_error (text "channel is null"))
  start_in (some channel) session_id stream_url = start_playback env channel session_id stream_url

  abbrev pub with_stream :
      Text → Option Text → Option Text → Outcome Failure Text → M S (Option Playback)
  with_stream id channel url (thrown e) = do
    error (text "failed to get or create session")
        ((text "sessionId", id) ∷ (text "err", env.show_error e) ∷ [])
    send env (text "Failed to start a session. Please try again.")
    pure none
  with_stream id channel url (ok stream_url) = do
    reply_and_add id (text "Starting playback!") url
    playback ← attempt (start_in channel id stream_url)
    started id playback

  abbrev pub or_null : Option Text → Text
  or_null none = text "null"
  or_null (some t) = t

  abbrev pub play_in : Text → Option Text → Option Text → Bool → M S (Option Playback)
  play_in id channel url true = do reply_and_add id (text "Already playing!") url; pure none
  play_in id channel url false = do
    stream_url ← attempt (get_or_create_session id)
    with_stream id channel url stream_url

  abbrev pub play_from : Interaction → Option Text → M S (Option Playback)
  play_from i none = do send env (text "Join a voice channel then try again!"); pure none
  play_from i (some channel) = do
    let id = get_session_id env i
    info (text "play command received")
        ((text "sessionId", id) ∷ (text "trackUrl", or_null i.url) ∷ [])
    playing ← read_sessions (has_session id)
    play_in id i.voice_channel_later (truthy i.url) playing

  -- The playback that the command has started, if it has.
  unfoldable pub handle_play : Interaction → M S (Option Playback)
  unfolding reply_and_add get_or_create_session playback_failed
  handle_play i =
      if i.in_guild
      then play_from i i.voice_channel
      else (do send env (text "This command can only be used in a server!"); pure none)

  abbrev pub no_playback : M S (Unit {0}) → M S (Option Playback)
  no_playback m = do m; pure none

  -- The `switch` of the dispatcher.
  unfoldable pub dispatch : Text → Interaction → M S (Option Playback)
  dispatch name i =
      if text_eq name (text "ping")
      then no_playback (handle_ping env)
      else if text_eq name (text "play")
      then handle_play i
      else if text_eq name (text "skip")
      then no_playback (handle_skip env i)
      else if text_eq name (text "queue")
      then no_playback (handle_queue env i)
      else if text_eq name (text "remove")
      then no_playback (handle_remove env i)
      else if text_eq name (text "stop")
      then no_playback (handle_stop env i)
      else pure none

  abbrev pub logged : Text → Outcome Failure (Option Playback) → M S (Option Playback)
  logged name (ok playback) = pure playback
  logged name (thrown e) = do
    error (text "unhandled error in interaction handler")
        ((text "command", name) ∷ (text "err", env.show_error e) ∷ [])
    pure none

  -- The listener of `InteractionCreate`; `is_command` is `interaction.isChatInputCommand()`.
  unfoldable pub on_interaction : Bool → Text → Interaction → M S (Option Playback)
  on_interaction false name i = pure none
  on_interaction true name i = do
    info (text "received interaction") ((text "command", name) ∷ [])
    outcome ← attempt (dispatch name i)
    logged name outcome
