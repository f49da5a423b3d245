-- ===== src/Bot/Threads/Sequential/Handlers.antt =====
-- discord-jockey/src/discord/command: each command as a thread and the same handler as a function on worlds.
use radio_jockey.Base.{Bool, true, false, Text, none, some, Option, ℤ, if◌then◌else◌}
use radio_jockey.Proto.Service.{Code, not_found, invalid_argument, failed_precondition}
use radio_jockey.Proto.Methods.{Method}
use radio_jockey.Proto.Messages.{RespondNonceResponse}
use radio_jockey.Bot.Effects.{Env, World, M, ConnectError}
use radio_jockey.Bot.Logger.{Metadata}
use radio_jockey.Bot.Auth.{is_unauthenticated, truthy}
use radio_jockey.Bot.Auth as BotAuth
use radio_jockey.Bot.Commands.{Interaction}
use radio_jockey.Bot.Commands as BotCommands
use radio_jockey.Bot.Effects as Effects
use radio_jockey.Bot.Threads.{Thread, perform, info, error, reply, ◌>>◌}
use radio_jockey.Bot.Threads.Auth as Auth
use radio_jockey.Bot.Threads.Commands as Commands
use radio_jockey.Bot.Threads.Sequential.{
  Does, pure-Does, throw-Does, bind-Does, info-Does, error-Does, reply-Does, call-Does,
  call_authorized-Does, sign_nonce-Does, get_auth_token-Does, set_auth_token-Does,
  destroy_session-Does, with_connect_error-Does,
}

-- The two branches of a test.
pub if-Does :
    {S A : Type 0} (env : Env S) (b : Bool) {p q : Thread A} {m n : M S A}
    → Does env p m
    → Does env q n
    → Does env (if b then p else q) (if b then m else n)
if-Does env true h k = h
if-Does env false h k = k

module _ {S : Type 0} (env : Env S) where
  -- A line of the log, and a message.
  said-Does :
      (t : Text) (d : Metadata) (u : Text)
      → Does env
          (perform (info t d) >> perform (reply u))
          (Effects.◌>>◌ (Effects.info t d) (Effects.send env u))
  said-Does t d u = bind-Does env (info-Does env t d) (λ _. reply-Does env u)

  failed-Does :
      (t : Text) (d : Metadata) (u : Text)
      → Does env
          (perform (error t d) >> perform (reply u))
          (Effects.◌>>◌ (Effects.error t d) (Effects.send env u))
  failed-Does t d u = bind-Does env (error-Does env t d) (λ _. reply-Does env u)

  pub handle_ping-Does : Does env (Commands.handle_ping env) (BotCommands.handle_ping env)
  unfolding Commands.handle_ping BotCommands.handle_ping
  handle_ping-Does = bind-Does env (info-Does env _ _) (λ _.
      with_connect_error-Does env
        (bind-Does env (call-Does env Method.ping _) (λ _. said-Does _ _ _))
        (λ err. failed-Does _ _ _))

  skip_failed-Does :
      (id : Text) (err : ConnectError) (code : Code)
      → Does env (Commands.skip_failed env id err code) (BotCommands.skip_failed env id err code)
  unfolding Commands.skip_failed BotCommands.skip_failed
  skip_failed-Does id err not_found = said-Does _ _ _
  skip_failed-Does id err failed_precondition = said-Does _ _ _
  skip_failed-Does id err _ = failed-Does _ _ _

  pub handle_skip-Does :
      (i : Interaction) → Does env (Commands.handle_skip env i) (BotCommands.handle_skip env i)
  unfolding Commands.handle_skip BotCommands.handle_skip
  handle_skip-Does i = bind-Does env (info-Does env _ _) (λ _.
      with_connect_error-Does env
        (bind-Does env (call-Does env Method.skip_track _) (λ _. said-Does _ _ _))
        (λ err. skip_failed-Does _ err err.code))

  queue_failed-Does :
      (id : Text) (err : ConnectError) (code : Code)
      → Does env (Commands.queue_failed env id err code) (BotCommands.queue_failed env id err code)
  unfolding Commands.queue_failed BotCommands.queue_failed
  queue_failed-Does id err not_found = said-Does _ _ _
  queue_failed-Does id err _ = failed-Does _ _ _

  pub handle_queue-Does :
      (i : Interaction) → Does env (Commands.handle_queue env i) (BotCommands.handle_queue env i)
  unfolding Commands.handle_queue BotCommands.handle_queue
  handle_queue-Does i = bind-Does env (info-Does env _ _) (λ _.
      with_connect_error-Does env
        (bind-Does env (call-Does env Method.list_queue _) (λ _. said-Does _ _ _))
        (λ err. queue_failed-Does _ err err.code))

  remove_failed-Does :
      (id : Text) (index : ℤ) (err : ConnectError) (code : Code)
      → Does env
          (Commands.remove_failed env id index err code)
          (BotCommands.remove_failed env id index err code)
  unfolding Commands.remove_failed BotCommands.remove_failed
  remove_failed-Does id index err not_found = said-Does _ _ _
  remove_failed-Does id index err invalid_argument = said-Does _ _ _
  remove_failed-Does id index err _ = failed-Does _ _ _

  remove_at-Does :
      (id : Text) (index : ℤ)
      → Does env (Commands.remove_at env id index) (BotCommands.remove_at env id index)
  unfolding Commands.remove_at BotCommands.remove_at
  remove_at-Does id index = bind-Does env (info-Does env _ _) (λ _.
      with_connect_error-Does env
        (bind-Does env (call-Does env Method.remove_track _) (λ _. said-Does _ _ _))
        (λ err. remove_failed-Does id index err err.code))

  get_position-Does :
      (position : Option ℤ)
      → Does env (Commands.get_position env position) (BotCommands.get_position env position)
  unfolding Commands.get_position BotCommands.get_position
  get_position-Does none = throw-Does env _
  get_position-Does (some n) = pure-Does env n

  pub handle_remove-Does :
      (i : Interaction) → Does env (Commands.handle_remove env i) (BotCommands.handle_remove env i)
  unfolding Commands.handle_remove BotCommands.handle_remove
  handle_remove-Does i =
      bind-Does env (get_position-Does i.position) (λ position. remove_at-Does _ _)

  keep_token-Does :
      (id : Text) (response : RespondNonceResponse)
      → Does env (Auth.keep_token id response) (BotAuth.keep_token env id response)
  unfolding Auth.keep_token BotAuth.keep_token
  keep_token-Does id response = bind-Does env (set_auth_token-Does env _ _) (λ _. pure-Does env _)

  acquire_auth_token-Does :
      (id : Text) → Does env (Auth.acquire_auth_token id) (BotAuth.acquire_auth_token env id)
  unfolding Auth.acquire_auth_token BotAuth.acquire_auth_token
  acquire_auth_token-Does id = bind-Does env (call-Does env Method.request_nonce _) (λ challenge.
      bind-Does env (sign_nonce-Does env _)
        (λ pass_key. bind-Does env (call-Does env Method.respond_nonce _) (keep_token-Does id)))

  with_cached-Does :
      {A : Type 0} (id : Text) (fn : Text → Thread A) (gn : Text → M S A)
      → ((token : Text) → Does env (fn token) (gn token))
      → (cached : Option Text)
      → Does env (Auth.with_cached id fn cached) (BotAuth.with_cached env id gn cached)
  with_cached-Does id fn gn h none = bind-Does env (acquire_auth_token-Does id) h
  with_cached-Does id fn gn h (some cached) = with_connect_error-Does env (h cached) (λ err.
      if-Does env (is_unauthenticated err.code) (bind-Does env (acquire_auth_token-Does id) h)
        (throw-Does env _))

  delete_session-Does :
      (id : Text) → Does env (Auth.delete_session id) (BotAuth.delete_session env id)
  unfolding Auth.delete_session BotAuth.delete_session Auth.with_auth BotAuth.with_auth
  delete_session-Does id = bind-Does env (get_auth_token-Does env id) (λ cached.
      with_cached-Does id _ _ (call_authorized-Does env Method.delete_session_auth _)
        (truthy cached))

  stop_failed-Does :
      (id : Text) (err : ConnectError) (code : Code)
      → Does env (Commands.stop_failed env id err code) (BotCommands.stop_failed env id err code)
  unfolding Commands.stop_failed BotCommands.stop_failed
  stop_failed-Does id err not_found =
      bind-Does env (destroy_session-Does env id) (λ _. said-Does _ _ _)
  stop_failed-Does id err _ = failed-Does _ _ _

  pub handle_stop-Does :
      (i : Interaction) → Does env (Commands.handle_stop env i) (BotCommands.handle_stop env i)
  unfolding Commands.handle_stop BotCommands.handle_stop
  handle_stop-Does i = bind-Does env (info-Does env _ _) (λ _.
      with_connect_error-Does env
        (bind-Does env (delete_session-Does _)
          (λ _. bind-Does env (destroy_session-Does env _) (λ _. said-Does _ _ _)))
        (λ err. stop_failed-Does _ err err.code))
