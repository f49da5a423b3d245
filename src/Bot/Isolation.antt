-- ===== src/Bot/Isolation.antt =====
-- discord-jockey/src/discord/command: what a command does to the sessions of other guilds.
pub mod Playing
pub mod Events
use radio_jockey.Base.{
  ℕ, Bool, true, false, Text, none, some, Option, ℤ, ◌≡◌, ◌≢◌, arith, ok, thrown, Outcome, lookup,
  erase, insert, lookup-insert, lookup-erase, text_eq, text_eq_iff, if-intro, Option-cases, inl,
  inr,
}
use radio_jockey.Proto.Service.{
  Failure, Code, not_found, already_exists, invalid_argument, failed_precondition,
  resource_exhausted,
}
use radio_jockey.Proto.Messages.{RespondNonceResponse}
use radio_jockey.Bot.Sessions.{Session, Sessions, create_session, set_buffer, set_auth_token}
use radio_jockey.Bot.Effects.{Env, World, M, ConnectError, info, error, send, call, ◌>>◌}
use radio_jockey.Bot.Logger.{Metadata}
use radio_jockey.Bot.Auth.{
  is_unauthenticated, truthy, sign_nonce, keep_token, acquire_auth_token, with_cached, with_auth,
  delete_session,
}
use radio_jockey.Bot.Commands.{
  Interaction, get_session_id, handle_ping, handle_skip, skip_failed, handle_queue, queue_failed,
  handle_remove, remove_failed, remove_at, get_position, handle_stop, stop_failed,
}
use radio_jockey.Bot.Keeping.{
  Keeps, IsQuiet, bind-Keeps, pure-Keeps, throw-Keeps, info-Keeps, error-Keeps, read-Keeps,
  update-Keeps, with_connect_error-Keeps, attempt-Keeps, destroy_connection-Keeps,
  destroy_session-Keeps, call-Keeps, call_authorized-Keeps, send-Keeps,
}

-- What is done to the session of a guild leaves a property of the table alone.
pub record IsForeign (id : Text) (P : Sessions → Type 0) : Type 0 where
  pub erased : (m : Sessions) → P m → P (erase id m)
  pub created : (connection : ℕ) (m : Sessions) → P m → P (create_session id connection m)
  pub buffered : (buffer : ℕ) (m : Sessions) → P m → P (set_buffer id buffer m)
  pub tokened : (token : Text) (m : Sessions) → P m → P (set_auth_token id token m)

module _ {S : Type 0} (env : Env S) {P : Sessions → Type 0} (quiet : IsQuiet env P) where
  -- A line of the log and a message.
  pub said-Keeps : (t : Text) (d : Metadata) (u : Text) → Keeps P (info t d >> send env u)
  said-Keeps t d u = bind-Keeps (info-Keeps t d) (λ _. send-Keeps env quiet u)

  pub failed-Keeps : (t : Text) (d : Metadata) (u : Text) → Keeps P (error t d >> send env u)
  failed-Keeps t d u = bind-Keeps (error-Keeps t d) (λ _. send-Keeps env quiet u)

  pub handle_ping-Keeps : Keeps P (handle_ping env)
  unfolding handle_ping
  handle_ping-Keeps = bind-Keeps (info-Keeps _ _) (λ _.
      with_connect_error-Keeps (bind-Keeps (call-Keeps env quiet _ _) (λ _. said-Keeps _ _ _))
        (λ err. failed-Keeps _ _ _))

  skip_failed-Keeps :
      (id : Text) (err : ConnectError) (code : Code) → Keeps P (skip_failed env id err code)
  unfolding skip_failed
  skip_failed-Keeps id err not_found = said-Keeps _ _ _
  skip_failed-Keeps id err failed_precondition = said-Keeps _ _ _
  skip_failed-Keeps id err _ = failed-Keeps _ _ _

  pub handle_skip-Keeps : (i : Interaction) → Keeps P (handle_skip env i)
  unfolding handle_skip
  handle_skip-Keeps i = bind-Keeps (info-Keeps _ _) (λ _.
      with_connect_error-Keeps (bind-Keeps (call-Keeps env quiet _ _) (λ _. said-Keeps _ _ _))
        (λ err. skip_failed-Keeps _ err err.code))

  queue_failed-Keeps :
      (id : Text) (err : ConnectError) (code : Code) → Keeps P (queue_failed env id err code)
  unfolding queue_failed
  queue_failed-Keeps id err not_found = said-Keeps _ _ _
  queue_failed-Keeps id err _ = failed-Keeps _ _ _

  pub handle_queue-Keeps : (i : Interaction) → Keeps P (handle_queue env i)
  unfolding handle_queue
  handle_queue-Keeps i = bind-Keeps (info-Keeps _ _) (λ _.
      with_connect_error-Keeps (bind-Keeps (call-Keeps env quiet _ _) (λ _. said-Keeps _ _ _))
        (λ err. queue_failed-Keeps _ err err.code))

  remove_failed-Keeps :
      (id : Text) (index : ℤ) (err : ConnectError) (code : Code)
      → Keeps P (remove_failed env id index err code)
  unfolding remove_failed
  remove_failed-Keeps id index err not_found = said-Keeps _ _ _
  remove_failed-Keeps id index err invalid_argument = said-Keeps _ _ _
  remove_failed-Keeps id index err _ = failed-Keeps _ _ _

  remove_at-Keeps : (id : Text) (index : ℤ) → Keeps P (remove_at env id index)
  unfolding remove_at
  remove_at-Keeps id index = bind-Keeps (info-Keeps _ _) (λ _.
      with_connect_error-Keeps (bind-Keeps (call-Keeps env quiet _ _) (λ _. said-Keeps _ _ _))
        (λ err. remove_failed-Keeps id index err err.code))

  get_position-Keeps : (position : Option ℤ) → Keeps P (get_position env position)
  unfolding get_position
  get_position-Keeps none = throw-Keeps
  get_position-Keeps (some n) = pure-Keeps

  pub handle_remove-Keeps : (i : Interaction) → Keeps P (handle_remove env i)
  unfolding handle_remove
  handle_remove-Keeps i =
      bind-Keeps (get_position-Keeps i.position) (λ position. remove_at-Keeps _ _)

  module _ {id : Text} (foreign : IsForeign id P) where
    keep_token-Keeps : (response : RespondNonceResponse) → Keeps P (keep_token env id response)
    unfolding keep_token
    keep_token-Keeps response =
        bind-Keeps (update-Keeps _ (foreign.tokened response.auth_token))
          (λ _. pure-Keeps {a = response.auth_token})

    acquire_auth_token-Keeps : Keeps P (acquire_auth_token env id)
    unfolding acquire_auth_token sign_nonce
    acquire_auth_token-Keeps = bind-Keeps (call-Keeps env quiet _ _) (λ challenge.
        bind-Keeps (record { kept = λ w h. h })
          (λ pass_key. bind-Keeps (call-Keeps env quiet _ _) keep_token-Keeps))

    with_cached-Keeps :
        {A : Type 0} (fn : Text → M S A)
        → ((token : Text) → Keeps P (fn token))
        → (cached : Option Text) → Keeps P (with_cached env id fn cached)
    with_cached-Keeps fn k none = bind-Keeps acquire_auth_token-Keeps k
    with_cached-Keeps fn k (some cached) = with_connect_error-Keeps (k cached) (λ err.
        if-intro (Keeps P) (is_unauthenticated err.code)
          (λ _. bind-Keeps acquire_auth_token-Keeps k) (λ _. throw-Keeps))

    delete_session-Keeps : Keeps P (delete_session env id)
    unfolding delete_session with_auth
    delete_session-Keeps = bind-Keeps (read-Keeps _) (λ cached.
        with_cached-Keeps _
          (λ token.
            call_authorized-Keeps env quiet env.client.delete_session_auth
              (record { session_id = id }) token)
          (truthy cached))

    stop_failed-Keeps : (err : ConnectError) (code : Code) → Keeps P (stop_failed env id err code)
    unfolding stop_failed
    stop_failed-Keeps err not_found =
        bind-Keeps (destroy_session-Keeps env id foreign.erased) (λ _. said-Keeps _ _ _)
    stop_failed-Keeps err _ = failed-Keeps _ _ _

  pub handle_stop-Keeps :
      (i : Interaction) → IsForeign (get_session_id env i) P → Keeps P (handle_stop env i)
  unfolding handle_stop
  handle_stop-Keeps i foreign = bind-Keeps (info-Keeps _ _) (λ _.
      with_connect_error-Keeps
        (bind-Keeps (delete_session-Keeps foreign)
          (λ _. bind-Keeps (destroy_session-Keeps env _ foreign.erased) (λ _. said-Keeps _ _ _)))
        (λ err. stop_failed-Keeps foreign err err.code))
