-- ===== src/Bot/Commands.antt =====
-- discord-jockey/src/discord/command: the commands ping, skip, queue, remove and stop.
use radio_jockey.Base.{
  ℕ, Bool, zero, suc, Option, none, some, List, [], ◌∷◌, ◌++◌, Text, text, join, decimal, ℤ,
  minus_one, plus_one, is_zero, decimal_ℤ, if◌then◌else◌, length,
}
use radio_jockey.Proto.Messages.{PingRequest, Track}
use radio_jockey.Proto.Service.{Code, not_found, failed_precondition, invalid_argument, other_error}
use radio_jockey.Bot.Slug.{session_id_of}
use radio_jockey.Bot.Effects.{
  Env, M, ◌>>=◌, ◌>>◌, pure, throw, call, send, with_connect_error, ConnectError, failure_of, info,
  error, destroy_session,
}
use radio_jockey.Bot.Auth.{delete_session}

-- What a command reads of its interaction: the guild's name, if it is cached, the guild's id,
-- whether it comes from a guild, the voice channel that the member is in, and the options. A play
-- command reads the channel a second time, once the server has answered; the member may have left it.
-- `getInteger("position", true)` throws where the option is absent.
pub record Interaction : Type 0 where
  pub guild_name : Option Text
  pub guild_id : Option Text
  pub in_guild : Bool
  pub voice_channel : Option Text
  pub voice_channel_later : Option Text
  pub url : Option Text
  pub position : Option ℤ

-- The lines of the queue, numbered from 1; the first is the track that plays.
unfoldable pub queue_line : ℕ → Track → Text
queue_line zero t =
    text "▶ **" ++ t.title ++ text "** by **" ++ t.artist ++ text "** *(now playing)*"
queue_line (suc i) t =
    decimal (suc (suc i)) ++ text ". **" ++ t.title ++ text "** by **" ++ t.artist ++ text "**"

unfoldable pub queue_lines : ℕ → List Track → List Text
queue_lines i [] = []
queue_lines i (t ∷ ts) = queue_line i t ∷ queue_lines (suc i) ts

unfoldable pub queue_text : List Track → Text
queue_text [] = text "The queue is empty."
queue_text (t ∷ ts) = text "**Queue:**" ++ text "\n" ++ join (text "\n") (queue_lines 0 (t ∷ ts))

unfoldable pub removed_text : ℤ → Text
removed_text n = text "Removed track at position " ++ decimal_ℤ n ++ text "."

module _ {S : Type 0} (env : Env S) where
  unfoldable pub get_session_id : Interaction → Text
  get_session_id i = session_id_of env.lower i.guild_name i.guild_id

  unfoldable pub handle_ping : M S (Unit {0})
  handle_ping = do
    info (text "ping command received") []
    with_connect_error
        (do
          response ← call env env.client.ping PingRequest.empty
          info (text "ping response received") []
          send env response.message)
        (λ err. do
          error (text "ping failed") ((text "err", env.show_error (failure_of err)) ∷ [])
          send env (text "Something went wrong."))

  unfoldable pub skip_failed : Text → ConnectError → Code → M S (Unit {0})
  skip_failed id err not_found = do
    info (text "skip failed: session not found") ((text "sessionId", id) ∷ [])
    send env (text "No active session. Use /play to start one!")
  skip_failed id err failed_precondition = do
    info (text "skip failed: queue empty") ((text "sessionId", id) ∷ [])
    send env (text "The queue is empty.")
  skip_failed id err _ = do
    error (text "skip failed")
        ((text "sessionId", id) ∷ (text "err", env.show_error (failure_of err)) ∷ [])
    send env (text "Something went wrong.")

  unfoldable pub handle_skip : Interaction → M S (Unit {0})
  unfolding skip_failed
  handle_skip i = do
    let id = get_session_id i
    info (text "skip command received") ((text "sessionId", id) ∷ [])
    with_connect_error
        (do
          _ ← call env env.client.skip_track (record { session_id = id })
          info (text "track skipped") ((text "sessionId", id) ∷ [])
          send env (text "Skipped!"))
        (λ err. skip_failed id err err.code)

  unfoldable pub queue_failed : Text → ConnectError → Code → M S (Unit {0})
  queue_failed id err not_found = do
    info (text "queue fetch failed: session not found") ((text "sessionId", id) ∷ [])
    send env (text "No active session. Use /play to start one!")
  queue_failed id err _ = do
    error (text "queue fetch failed")
        ((text "sessionId", id) ∷ (text "err", env.show_error (failure_of err)) ∷ [])
    send env (text "Something went wrong fetching the queue.")

  unfoldable pub handle_queue : Interaction → M S (Unit {0})
  unfolding queue_failed
  handle_queue i = do
    let id = get_session_id i
    info (text "queue command received") ((text "sessionId", id) ∷ [])
    with_connect_error
        (do
          res ← call env env.client.list_queue (record { session_id = id })
          info (text "queue fetched")
              ((text "sessionId", id) ∷ (text "count", decimal (length res.tracks)) ∷ [])
          send env (queue_text res.tracks))
        (λ err. queue_failed id err err.code)

  unfoldable pub remove_failed : Text → ℤ → ConnectError → Code → M S (Unit {0})
  remove_failed id index err not_found = do
    info (text "remove failed: session not found") ((text "sessionId", id) ∷ [])
    send env (text "No active session. Use /play to start one!")
  remove_failed id index err invalid_argument = do
    info (text "remove failed: invalid position")
        ((text "sessionId", id) ∷ (text "position", decimal_ℤ (plus_one index)) ∷ [])
    send env (
        if is_zero index
        then text "Can't remove the currently playing track. Use /skip instead."
        else text "Invalid position.")
  remove_failed id index err _ = do
    error (text "remove failed")
        ((text "sessionId", id) ∷ (text "err", env.show_error (failure_of err)) ∷ [])
    send env (text "Something went wrong.")

  unfoldable pub get_position : Option ℤ → M S ℤ
  get_position none = throw (other_error (text "Required option \"position\" not found."))
  get_position (some n) = pure n

  -- The body of `handleRemoveCommand`, from the index on.
  unfoldable pub remove_at : Text → ℤ → M S (Unit {0})
  unfolding remove_failed
  remove_at id index = do
    info (text "remove command received")
        ((text "sessionId", id) ∷ (text "position", decimal_ℤ (plus_one index)) ∷ [])
    with_connect_error
        (do
          _ ← call env env.client.remove_track (record { session_id = id; index = index })
          info (text "track removed")
              ((text "sessionId", id) ∷ (text "position", decimal_ℤ (plus_one index)) ∷ [])
          send env (removed_text (plus_one index)))
        (λ err. remove_failed id index err err.code)

  unfoldable pub handle_remove : Interaction → M S (Unit {0})
  unfolding get_position
  handle_remove i = do
    let id = get_session_id i
    position ← get_position i.position
    remove_at id (minus_one position)

  unfoldable pub stop_failed : Text → ConnectError → Code → M S (Unit {0})
  stop_failed id err not_found = do
    destroy_session env id
    info (text "stop: session not found, cleaning up locally") ((text "sessionId", id) ∷ [])
    send env (text "No active session.")
  stop_failed id err _ = do
    error (text "stop failed")
        ((text "sessionId", id) ∷ (text "err", env.show_error (failure_of err)) ∷ [])
    send env (text "Something went wrong.")

  unfoldable pub handle_stop : Interaction → M S (Unit {0})
  unfolding stop_failed
  handle_stop i = do
    let id = get_session_id i
    info (text "stop command received") ((text "sessionId", id) ∷ [])
    with_connect_error
        (do
          _ ← delete_session env id
          destroy_session env id
          info (text "session stopped") ((text "sessionId", id) ∷ [])
          send env (text "Stopped and left the voice channel."))
        (λ err. stop_failed id err err.code)
