-- ===== src/Bot/Answers.antt =====
-- discord-jockey/src/discord/command: the message that each command is answered with.
use radio_jockey.Base.{
  ◌∷◌, List, none, Option, sym, some, [], ◌++◌, Text, text, ◌≡◌, ℤ, minus_one, plus_one, is_zero,
  if◌then◌else◌, plus_one-minus_one, ap, ◌∙◌,
}
use mathlib.Core.Path.{subst}
use mathlib.Core.List.{append-nil}
use radio_jockey.Bot.Play.{add_track, add_failed, track_added}
use radio_jockey.Proto.Messages.{Track, PingRequest}
use radio_jockey.Proto.Service.{
  resource_exhausted, Code, not_found, failed_precondition, invalid_argument,
}
use radio_jockey.Bot.Effects.{Env, World, ConnectError, info, send, after}
use radio_jockey.Bot.Sending.{
  answers, Sends, send-Sends, info-Sends, error-Sends, with_connect_error-sent,
}
use radio_jockey.Bot.Commands.{
  Interaction, get_session_id, handle_ping, handle_skip, skip_failed, handle_queue, queue_failed,
  queue_text, handle_remove, remove_at, removed_text, remove_failed, get_position,
}

-- The answers to a refused call, for each code.
unfoldable pub skip_refusal : Code → Text
skip_refusal not_found = text "No active session. Use /play to start one!"
skip_refusal failed_precondition = text "The queue is empty."
skip_refusal _ = text "Something went wrong."

unfoldable pub queue_refusal : Code → Text
queue_refusal not_found = text "No active session. Use /play to start one!"
queue_refusal _ = text "Something went wrong fetching the queue."

unfoldable pub remove_refusal : ℤ → Code → Text
remove_refusal position not_found = text "No active session. Use /play to start one!"
remove_refusal position invalid_argument =
    if is_zero (minus_one position)
    then text "Can't remove the currently playing track. Use /skip instead."
    else text "Invalid position."
remove_refusal position _ = text "Something went wrong."

module _ {S : Type 0} (env : Env S) where
  skip_failed-Sends :
      (id : Text) (err : ConnectError) (code : Code)
      → Sends (skip_failed env id err code) (skip_refusal code ∷ [])
  unfolding skip_failed skip_refusal
  skip_failed-Sends id err not_found = info-Sends _ _ (send-Sends env _)
  skip_failed-Sends id err failed_precondition = info-Sends _ _ (send-Sends env _)
  skip_failed-Sends id err _ = error-Sends _ _ (send-Sends env _)

  -- The skip command sends one message: for a response, that the track is skipped; for a
  -- ConnectError, one by its code; for another failure, none.
  pub handle_skip-sent :
      (i : Interaction) (w : World S)
      → (handle_skip env i w).1.sent
        ≡ w.sent
          ++ answers
              (λ _. text "Skipped!" ∷ [])
              skip_refusal
              (env.client.skip_track (record { session_id = get_session_id env i }) [] w.external).0
  unfolding handle_skip info
  handle_skip-sent i w =
      with_connect_error-sent env env.client.skip_track _ _ (λ _. text "Skipped!" ∷ []) _
        skip_refusal (λ _. info-Sends _ _ (send-Sends env _))
        (λ err. skip_failed-Sends _ err err.code) _

  queue_failed-Sends :
      (id : Text) (err : ConnectError) (code : Code)
      → Sends (queue_failed env id err code) (queue_refusal code ∷ [])
  unfolding queue_failed queue_refusal
  queue_failed-Sends id err not_found = info-Sends _ _ (send-Sends env _)
  queue_failed-Sends id err _ = error-Sends _ _ (send-Sends env _)

  -- The queue command sends one message: for a response, the list of its tracks; for a
  -- ConnectError, one by its code; for another failure, none.
  pub handle_queue-sent :
      (i : Interaction) (w : World S)
      → (handle_queue env i w).1.sent
        ≡ w.sent
          ++ answers
              (λ res. queue_text res.tracks ∷ [])
              queue_refusal
              (env.client.list_queue (record { session_id = get_session_id env i }) [] w.external).0
  unfolding handle_queue info
  handle_queue-sent i w =
      with_connect_error-sent env env.client.list_queue _ _ (λ res. queue_text res.tracks ∷ []) _
        queue_refusal (λ _. info-Sends _ _ (send-Sends env _))
        (λ err. queue_failed-Sends _ err err.code) _

  remove_failed-Sends :
      (id : Text) (position : ℤ) (err : ConnectError) (code : Code)
      → Sends
          (remove_failed env id (minus_one position) err code)
          (remove_refusal position code ∷ [])
  unfolding remove_failed remove_refusal
  remove_failed-Sends id position err not_found = info-Sends _ _ (send-Sends env _)
  remove_failed-Sends id position err invalid_argument = info-Sends _ _ (send-Sends env _)
  remove_failed-Sends id position err _ = error-Sends _ _ (send-Sends env _)

  remove_at-sent :
      (id : Text) (position : ℤ) (w : World S)
      → (remove_at env id (minus_one position) w).1.sent
        ≡ w.sent
          ++ answers
              (λ _. removed_text position ∷ [])
              (remove_refusal position)
              (env.client.remove_track
                (record { session_id = id; index = minus_one position })
                []
                w.external).0
  unfolding remove_at info
  remove_at-sent id position w =
      let back = plus_one (minus_one position) in
      let removed : Sends (send env (removed_text back)) (removed_text position ∷ []) =
        subst (λ n. Sends (send env (removed_text back)) (removed_text n ∷ []))
          (plus_one-minus_one position) (send-Sends env (removed_text back)) in
      with_connect_error-sent env env.client.remove_track _ _ (λ _. removed_text position ∷ []) _
        (remove_refusal position) (λ _. info-Sends _ _ removed)
        (λ err. remove_failed-Sends id position err err.code) _

  -- With a position given, the remove command asks the server to remove the index one below it,
  -- and sends one message: for a response, one that names the position; for a ConnectError, one by
  -- its code and, if the index is invalid, by whether it is that of the playing track; for another
  -- failure, none.
  pub handle_remove-sent :
      (i : Interaction) (w : World S) (position : ℤ)
      → i.position ≡ some position
      → (handle_remove env i w).1.sent
        ≡ w.sent
          ++ answers
              (λ _. removed_text position ∷ [])
              (remove_refusal position)
              (env.client.remove_track
                (record { session_id = get_session_id env i; index = minus_one position })
                []
                w.external).0
  unfolding handle_remove
  handle_remove-sent i w position e =
      let id = get_session_id env i in
      ap (λ p. (after (get_position env p w) (λ n. remove_at env id (minus_one n))).1.sent) e
      ∙ remove_at-sent id position w

  -- The ping command sends one message: for a response, its message; for a ConnectError, a general
  -- one; for another failure, none.
  pub handle_ping-sent :
      (w : World S)
      → (handle_ping env w).1.sent
        ≡ w.sent
          ++ answers
              (λ response. response.message ∷ [])
              (λ _. text "Something went wrong.")
              (env.client.ping PingRequest.empty [] w.external).0
  unfolding handle_ping info
  handle_ping-sent w =
      with_connect_error-sent env env.client.ping _ _ (λ response. response.message ∷ []) _ _
        (λ _. info-Sends _ _ (send-Sends env _)) (λ err. error-Sends _ _ (send-Sends env _)) _

-- The answers to a track that the server does not take, for each code.
unfoldable pub add_refusal : Code → Text
add_refusal invalid_argument = text "Invalid URL. Please try again with a YouTube link!"
add_refusal not_found = text "That video is unavailable or the session has ended."
add_refusal resource_exhausted = text "The queue is full!"
add_refusal _ = text "Something went wrong adding that track."

abbrev pub added : Option Track → List Text
added none = []
added (some track) =
    (text "Added **" ++ track.title ++ text "** by **" ++ track.artist ++ text "** to the queue.")
    ∷ []

module _ {S : Type 0} (env : Env S) where
  add_failed-Sends :
      (id url : Text) (err : ConnectError) (code : Code)
      → Sends (add_failed env id url err code) (add_refusal code ∷ [])
  unfolding add_failed add_refusal
  add_failed-Sends id url err invalid_argument = info-Sends _ _ (send-Sends env _)
  add_failed-Sends id url err not_found = info-Sends _ _ (send-Sends env _)
  add_failed-Sends id url err resource_exhausted = info-Sends _ _ (send-Sends env _)
  add_failed-Sends id url err _ = error-Sends _ _ (send-Sends env _)

  track_added-Sends :
      (id : Text) (track : Option Track) → Sends (track_added env id track) (added track)
  unfolding track_added
  track_added-Sends id none = record { sent = λ w. sym (append-nil w.sent); plain = λ w. tt }
  track_added-Sends id (some track) = info-Sends _ _ (send-Sends env _)

  -- Adding a track sends what the outcome of the call asks for: for a response with a track, the
  -- track; for a response without one, nothing; for a ConnectError, one message by its code alone,
  -- whatever its raw message; for another failure, nothing.
  pub add_track-sent :
      (id url : Text) (w : World S)
      → (add_track env id url w).1.sent
        ≡ w.sent
          ++ answers
              (λ response. added response.track)
              add_refusal
              (env.client.add_track (record { session_id = id; track_url = url }) [] w.external).0
  unfolding add_track
  add_track-sent id url w =
      with_connect_error-sent env env.client.add_track _ _ (λ response. added response.track) _
        add_refusal (λ response. track_added-Sends id response.track)
        (λ err. add_failed-Sends id url err err.code) w
