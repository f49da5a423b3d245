-- ===== src/Bot/Threads/Sequential/Playing.antt =====
-- discord-jockey/src/discord/command/play.ts and discord.ts: the play command and the dispatcher as
-- threads and as functions on worlds.
use radio_jockey.Base.{ℕ, Bool, true, false, Text, none, some, Option, ok, thrown, Outcome, ◌≡◌}
use radio_jockey.Proto.Service.{
  Failure, Code, not_found, already_exists, invalid_argument, resource_exhausted,
}
use radio_jockey.Proto.Methods.{Method}
use radio_jockey.Proto.Messages.{Track}
use radio_jockey.Bot.Effects.{Env, World, M, ConnectError}
use radio_jockey.Bot.Logger.{Metadata}
use radio_jockey.Bot.Auth.{truthy}
use radio_jockey.Bot.Commands.{Interaction}
use radio_jockey.Bot.Play as BotPlay
use radio_jockey.Bot.Playback as BotPlayback
use radio_jockey.Bot.Playback.{Playback}
use radio_jockey.Bot.Effects as Effects
use radio_jockey.Bot.Threads.{Thread, run, perform, info, follow_up, ◌>>◌}
use radio_jockey.Bot.Threads.Play as Play
use radio_jockey.Bot.Threads.Sequential.{
  Does, pure-Does, throw-Does, bind-Does, info-Does, error-Does, reply-Does, follow_up-Does,
  call-Does, await_ready-Does, has_session-Does, destroy_session-Does, join_channel-Does,
  destroy_connection-Does, begin_stream-Does, attempt-Does, with_connect_error-Does,
}
use radio_jockey.Bot.Threads.Sequential.Handlers.{
  if-Does, handle_ping-Does, handle_skip-Does, handle_queue-Does, handle_remove-Does,
  handle_stop-Does,
}

module _ {S : Type 0} (env : Env S) where
  create_failed-Does :
      (id : Text) (err : ConnectError) (code : Code)
      → Does env (Play.create_failed env id err code) (BotPlay.create_failed env id err code)
  unfolding Play.create_failed BotPlay.create_failed
  create_failed-Does id err already_exists =
      bind-Does env (call-Does env Method.get_session _)
        (λ _. bind-Does env (info-Does env _ _) (λ _. pure-Does env _))
  create_failed-Does id err _ = throw-Does env _

  get_or_create_session-Does :
      (id : Text)
      → Does env (Play.get_or_create_session env id) (BotPlay.get_or_create_session env id)
  unfolding Play.get_or_create_session BotPlay.get_or_create_session
  get_or_create_session-Does id =
      with_connect_error-Does env
        (bind-Does env (call-Does env Method.create_session _)
          (λ _. bind-Does env (info-Does env _ _) (λ _. pure-Does env _)))
        (λ err. create_failed-Does id err err.code)

  -- A line of the log, and a follow-up.
  followed-Does :
      (t : Text) (d : Metadata) (u : Text)
      → Does env
          (perform (info t d) >> perform (follow_up u))
          (Effects.◌>>◌ (Effects.info t d) (Effects.send env u))
  followed-Does t d u = bind-Does env (info-Does env t d) (λ _. follow_up-Does env u)

  track_added-Does :
      (id : Text) (track : Option Track)
      → Does env (Play.track_added env id track) (BotPlay.track_added env id track)
  unfolding Play.track_added BotPlay.track_added
  track_added-Does id none = throw-Does env _
  track_added-Does id (some track) = followed-Does _ _ _

  add_failed-Does :
      (id url : Text) (err : ConnectError) (code : Code)
      → Does env (Play.add_failed env id url err code) (BotPlay.add_failed env id url err code)
  unfolding Play.add_failed BotPlay.add_failed
  add_failed-Does id url err invalid_argument = followed-Does _ _ _
  add_failed-Does id url err not_found = followed-Does _ _ _
  add_failed-Does id url err resource_exhausted = followed-Does _ _ _
  add_failed-Does id url err _ = bind-Does env (error-Does env _ _) (λ _. follow_up-Does env _)

  reply_and_add-Does :
      (id otherwise : Text) (url : Option Text)
      → Does env
          (Play.reply_and_add env id otherwise url)
          (BotPlay.reply_and_add env id otherwise url)
  unfolding Play.reply_and_add BotPlay.reply_and_add Play.add_track BotPlay.add_track
  reply_and_add-Does id otherwise none = reply-Does env _
  reply_and_add-Does id otherwise (some url) = bind-Does env (reply-Does env _) (λ _.
      with_connect_error-Does env
        (bind-Does env (call-Does env Method.add_track _)
          (λ response. track_added-Does id response.track))
        (λ err. add_failed-Does id url err err.code))

  or_destroy-Does :
      (connection : ℕ) (ready : Outcome Failure (Unit {0}))
      → Does env
          (Play.or_destroy env connection ready)
          (BotPlayback.or_destroy env connection ready)
  or_destroy-Does connection (ok _) = pure-Does env _
  or_destroy-Does connection (thrown e) =
      bind-Does env (destroy_connection-Does env _) (λ _. throw-Does env e)

  start_playback-Does :
      (channel id stream_url : Text)
      → Does env
          (Play.start_playback env channel id stream_url)
          (BotPlayback.start_playback env channel id stream_url)
  unfolding Play.start_playback BotPlayback.start_playback Play.connect_to_channel
      BotPlayback.connect_to_channel
  start_playback-Does channel id stream_url =
      bind-Does env
        (bind-Does env (join_channel-Does env _) (λ connection.
          bind-Does env (attempt-Does env (await_ready-Does env connection))
            (or_destroy-Does connection)))
        (λ connection. begin_stream-Does env _ _ _)

  playback_failed-Does :
      (id : Text) (e : Failure)
      → Does env (Play.playback_failed env id e) (BotPlay.playback_failed env id e)
  unfolding Play.playback_failed BotPlay.playback_failed
  playback_failed-Does id e = bind-Does env (error-Does env _ _) (λ _.
      bind-Does env (destroy_session-Does env id)
        (λ _. bind-Does env (attempt-Does env (follow_up-Does env _)) (λ _. pure-Does env _)))

  started-Does :
      (id : Text) (r : Outcome Failure Playback)
      → Does env (Play.started env id r) (BotPlay.started env id r)
  started-Does id (ok playback) = pure-Does env _
  started-Does id (thrown e) = playback_failed-Does id e

  start_in-Does :
      (channel : Option Text) (id stream_url : Text)
      → Does env
          (Play.start_in env channel id stream_url)
          (BotPlay.start_in env channel id stream_url)
  start_in-Does none id stream_url = throw-Does env _
  start_in-Does (some channel) id stream_url = start_playback-Does channel id stream_url

  with_stream-Does :
      (id : Text) (channel url : Option Text) (r : Outcome Failure Text)
      → Does env (Play.with_stream env id channel url r) (BotPlay.with_stream env id channel url r)
  with_stream-Does id channel url (ok stream_url) = bind-Does env (reply_and_add-Does _ _ _) (λ _.
      bind-Does env (attempt-Does env (start_in-Does channel id stream_url)) (started-Does id))
  with_stream-Does id channel url (thrown e) =
      bind-Does env (error-Does env _ _)
        (λ _. bind-Does env (reply-Does env _) (λ _. pure-Does env _))

  play_in-Does :
      (id : Text) (channel url : Option Text) (playing : Bool)
      → Does env
          (Play.play_in env id channel url playing)
          (BotPlay.play_in env id channel url playing)
  play_in-Does id channel url true = bind-Does env (reply_and_add-Does _ _ _) (λ _. pure-Does env _)
  play_in-Does id channel url false =
      bind-Does env (attempt-Does env (get_or_create_session-Does id))
        (with_stream-Does id channel url)

  play_from-Does :
      (i : Interaction) (channel : Option Text)
      → Does env (Play.play_from env i channel) (BotPlay.play_from env i channel)
  play_from-Does i none = bind-Does env (reply-Does env _) (λ _. pure-Does env _)
  play_from-Does i (some channel) = bind-Does env (info-Does env _ _) (λ _.
      bind-Does env (has_session-Does env _) (play_in-Does _ i.voice_channel_later (truthy i.url)))

  handle_play-Does :
      (i : Interaction) → Does env (Play.handle_play env i) (BotPlay.handle_play env i)
  unfolding Play.handle_play BotPlay.handle_play
  handle_play-Does i =
      if-Does env i.in_guild (play_from-Does i i.voice_channel)
        (bind-Does env (reply-Does env _) (λ _. pure-Does env _))

  no_playback-Does :
      {p : Thread (Unit {0})} {m : M S (Unit {0})}
      → Does env p m
      → Does env (Play.no_playback env p) (BotPlay.no_playback env m)
  no_playback-Does h = bind-Does env h (λ _. pure-Does env _)

  dispatch-Does :
      (name : Text) (i : Interaction)
      → Does env (Play.dispatch env name i) (BotPlay.dispatch env name i)
  unfolding Play.dispatch BotPlay.dispatch
  dispatch-Does name i = if-Does env _ (no_playback-Does (handle_ping-Does env)) (
      if-Does env _ (handle_play-Does i) (
        if-Does env _ (no_playback-Does (handle_skip-Does env i)) (
          if-Does env _ (no_playback-Does (handle_queue-Does env i)) (
            if-Does env _ (no_playback-Does (handle_remove-Does env i))
              (if-Does env _ (no_playback-Does (handle_stop-Does env i)) (pure-Does env _))))))

  logged-Does :
      (name : Text) (r : Outcome Failure (Option Playback))
      → Does env (Play.logged env name r) (BotPlay.logged env name r)
  logged-Does name (ok playback) = pure-Does env _
  logged-Does name (thrown e) = bind-Does env (error-Does env _ _) (λ _. pure-Does env _)

  -- For any interaction, the listener as a thread, carried out from beginning to end with what
  -- other handlers do to the table in each wait as `meanwhile` says, comes to the same outcome and
  -- world as the listener as a function on worlds.
  pub run-on_interaction :
      (is_command : Bool) (name : Text) (i : Interaction) (w : World S)
      → run env (Play.on_interaction env is_command name i) w
        ≡ BotPlay.on_interaction env is_command name i w
  unfolding Play.on_interaction BotPlay.on_interaction
  run-on_interaction false name i w = (pure-Does env _).same w
  run-on_interaction true name i w =
      (bind-Does env (info-Does env _ _)
          (λ _. bind-Does env (attempt-Does env (dispatch-Does name i)) (logged-Does name))).same
        w
