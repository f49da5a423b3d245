-- ===== src/Bot/Threads/Commands.antt =====
-- discord-jockey/src/discord/command: the commands ping, skip, queue, remove and stop, in a thread.
use radio_jockey.Base.{
  Option, none, some, [], ◌∷◌, Text, text, decimal, ℤ, minus_one, plus_one, is_zero, decimal_ℤ,
  if◌then◌else◌, length,
}
use radio_jockey.Proto.Messages.{PingRequest}
use radio_jockey.Proto.Service.{Code, not_found, failed_precondition, invalid_argument, other_error}
use radio_jockey.Proto.Methods.{Method}
use radio_jockey.Bot.Effects.{Env, ConnectError, failure_of}
use radio_jockey.Bot.Commands.{Interaction, get_session_id, queue_text, removed_text}
use radio_jockey.Bot.Threads.{
  Thread, pure, throw, perform, call, reply, info, error, destroy_session, with_connect_error,
  ◌>>=◌, ◌>>◌,
}
use radio_jockey.Bot.Threads.Auth.{delete_session}

module _ {S : Type 0} (env : Env S) where
  unfoldable pub handle_ping : Thread (Unit {0})
  handle_ping = do
    perform (info (text "ping command received") [])
    with_connect_error
        (do
          response ← perform (call Method.ping PingRequest.empty)
          perform (info (text "ping response received") [])
          perform (reply response.message))
        (λ err. do
          perform (error (text "ping failed") ((text "err", env.show_error (failure_of err)) ∷ []))
          perform (reply (text "Something went wrong.")))

  unfoldable pub skip_failed : Text → ConnectError → Code → Thread (Unit {0})
  skip_failed id err not_found = do
    perform (info (text "skip failed: session not found") ((text "sessionId", id) ∷ []))
    perform (reply (text "No active session. Use /play to start one!"))
  skip_failed id err failed_precondition = do
    perform (info (text "skip failed: queue empty") ((text "sessionId", id) ∷ []))
    perform (reply (text "The queue is empty."))
  skip_failed id err _ = do
    perform (
        error (text "skip failed")
          ((text "sessionId", id) ∷ (text "err", env.show_error (failure_of err)) ∷ []))
    perform (reply (text "Something went wrong."))

  unfoldable pub handle_skip : Interaction → Thread (Unit {0})
  unfolding skip_failed
  handle_skip i = do
    let id = get_session_id env i
    perform (info (text "skip command received") ((text "sessionId", id) ∷ []))
    with_connect_error
        (do
          _ ← perform (call Method.skip_track (record { session_id = id }))
          perform (info (text "track skipped") ((text "sessionId", id) ∷ []))
          perform (reply (text "Skipped!")))
        (λ err. skip_failed id err err.code)

  unfoldable pub queue_failed : Text → ConnectError → Code → Thread (Unit {0})
  queue_failed id err not_found = do
    perform (info (text "queue fetch failed: session not found") ((text "sessionId", id) ∷ []))
    perform (reply (text "No active session. Use /play to start one!"))
  queue_failed id err _ = do
    perform (
        error (text "queue fetch failed")
          ((text "sessionId", id) ∷ (text "err", env.show_error (failure_of err)) ∷ []))
    perform (reply (text "Something went wrong fetching the queue."))

  unfoldable pub handle_queue : Interaction → Thread (Unit {0})
  unfolding queue_failed
  handle_queue i = do
    let id = get_session_id env i
    perform (info (text "queue command received") ((text "sessionId", id) ∷ []))
    with_connect_error
        (do
          res ← perform (call Method.list_queue (record { session_id = id }))
          perform (
              info (text "queue fetched")
                ((text "sessionId", id) ∷ (text "count", decimal (length res.tracks)) ∷ []))
          perform (reply (queue_text res.tracks)))
        (λ err. queue_failed id err err.code)

  unfoldable pub remove_failed : Text → ℤ → ConnectError → Code → Thread (Unit {0})
  remove_failed id index err not_found = do
    perform (info (text "remove failed: session not found") ((text "sessionId", id) ∷ []))
    perform (reply (text "No active session. Use /play to start one!"))
  remove_failed id index err invalid_argument = do
    perform (
        info (text "remove failed: invalid position")
          ((text "sessionId", id) ∷ (text "position", decimal_ℤ (plus_one index)) ∷ []))
    perform (
        reply (
          if is_zero index
          then text "Can't remove the currently playing track. Use /skip instead."
          else text "Invalid position."))
  remove_failed id index err _ = do
    perform (
        error (text "remove failed")
          ((text "sessionId", id) ∷ (text "err", env.show_error (failure_of err)) ∷ []))
    perform (reply (text "Something went wrong."))

  unfoldable pub get_position : Option ℤ → Thread ℤ
  get_position none = throw (other_error (text "Required option \"position\" not found."))
  get_position (some n) = pure n

  -- The body of `handleRemoveCommand`, from the index on.
  unfoldable pub remove_at : Text → ℤ → Thread (Unit {0})
  unfolding remove_failed
  remove_at id index = do
    perform (
        info (text "remove command received")
          ((text "sessionId", id) ∷ (text "position", decimal_ℤ (plus_one index)) ∷ []))
    with_connect_error
        (do
          _ ← perform (call Method.remove_track (record { session_id = id; index = index }))
          perform (
              info (text "track removed")
                ((text "sessionId", id) ∷ (text "position", decimal_ℤ (plus_one index)) ∷ []))
          perform (reply (removed_text (plus_one index))))
        (λ err. remove_failed id index err err.code)

  unfoldable pub handle_remove : Interaction → Thread (Unit {0})
  unfolding get_position
  handle_remove i = do
    let id = get_session_id env i
    position ← get_position i.position
    remove_at id (minus_one position)

  unfoldable pub stop_failed : Text → ConnectError → Code → Thread (Unit {0})
  stop_failed id err not_found = do
    perform (destroy_session id)
    perform
        (info (text "stop: session not found, cleaning up locally") ((text "sessionId", id) ∷ []))
    perform (reply (text "No active session."))
  stop_failed id err _ = do
    perform (
        error (text "stop failed")
          ((text "sessionId", id) ∷ (text "err", env.show_error (failure_of err)) ∷ []))
    perform (reply (text "Something went wrong."))

  unfoldable pub handle_stop : Interaction → Thread (Unit {0})
  unfolding stop_failed
  handle_stop i = do
    let id = get_session_id env i
    perform (info (text "stop command received") ((text "sessionId", id) ∷ []))
    with_connect_error
        (do
          _ ← delete_session id
          perform (destroy_session id)
          perform (info (text "session stopped") ((text "sessionId", id) ∷ []))
          perform (reply (text "Stopped and left the voice channel.")))
        (λ err. stop_failed id err err.code)
