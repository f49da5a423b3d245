-- ===== src/Bot/Threads/Sequential.antt =====
-- discord-jockey/src: a handler as a thread is, from beginning to end, the handler as a function on
-- worlds.
pub mod Handlers
pub mod Playing
use radio_jockey.Proto.Methods.{Method, Request, method_of}
use radio_jockey.Bot.Auth as BotAuth
use radio_jockey.Bot.Logger.{Metadata}
use radio_jockey.Bot.Playback as BotPlayback
use radio_jockey.Bot.Sessions as Sessions
use radio_jockey.Base.{ℕ, Text, ok, thrown, Outcome, ◌≡◌, refl, ap, ◌∙◌}
use radio_jockey.Proto.Service.{Failure, connect_error, other_error}
use radio_jockey.Bot.Effects as Effects
use radio_jockey.Bot.Effects.{
  Env, World, M, ConnectError, after, handle, caught, read_sessions, update_sessions,
}
use radio_jockey.Bot.Threads.{
  Thread, pure, throw, doing, Op, Answer, exec, run, info, error, reply, follow_up, call,
  call_authorized, await_ready, sign_nonce, get_auth_token, set_auth_token, has_session,
  destroy_session, join_channel, destroy_connection, begin_stream, ◌>>=◌, of_outcome, perform,
  attempt, with_connect_error,
}

-- All of the thread is the handler, in whatever world it begins.
pub record Does {S A : Type 0} (env : Env S) (p : Thread A) (m : M S A) : Type 0 where
  pub same : (w : World S) → run env p w ≡ m w

after-cong :
    {S A B : Type 0} (r : Outcome Failure A × World S) (f g : A → M S B)
    → ((a : A) (w : World S) → f a w ≡ g a w)
    → after r f ≡ after r g
after-cong (ok a, w) f g h = h a w
after-cong (thrown e, w) f g h = refl

handle-cong :
    {S A : Type 0} (r : Outcome Failure A × World S) (f g : ConnectError → M S A)
    → ((err : ConnectError) (w : World S) → f err w ≡ g err w)
    → handle f r ≡ handle g r
handle-cong (ok a, w) f g h = refl
handle-cong (thrown (connect_error code raw), w) f g h = h _ w
handle-cong (thrown (other_error message), w) f g h = refl

module _ {S : Type 0} (env : Env S) where
  run-bind :
      {A B : Type 0} (p : Thread A) (f : A → Thread B) (w : World S)
      → run env (p >>= f) w ≡ after (run env p w) (λ a. run env (f a))
  unfolding run ◌>>=◌
  run-bind (pure a) f w = refl
  run-bind (throw e) f w = refl
  run-bind (doing o k) f w = run-bind (k (exec env o w).0) f (exec env o w).1

  run-attempt :
      {A : Type 0} (p : Thread A) (w : World S) → run env (attempt p) w ≡ caught (run env p w)
  unfolding run attempt
  run-attempt (pure a) w = refl
  run-attempt (throw e) w = refl
  run-attempt (doing o k) w = run-attempt (k (exec env o w).0) (exec env o w).1

  run-with_connect_error :
      {A : Type 0} (p : Thread A) (f : ConnectError → Thread A) (w : World S)
      → run env (with_connect_error p f) w ≡ handle (λ err. run env (f err)) (run env p w)
  unfolding run with_connect_error
  run-with_connect_error (pure a) f w = refl
  run-with_connect_error (throw (connect_error code raw)) f w = refl
  run-with_connect_error (throw (other_error message)) f w = refl
  run-with_connect_error (doing o k) f w =
      run-with_connect_error (k (exec env o w).0) f (exec env o w).1

  run-of_outcome : {A : Type 0} (r : Outcome Failure A × World S) → run env (of_outcome r.0) r.1 ≡ r
  unfolding run
  run-of_outcome (ok a, w) = refl
  run-of_outcome (thrown e, w) = refl

  pub pure-Does : {A : Type 0} (a : A) → Does env (pure a) (Effects.pure a)
  unfolding run
  pure-Does a = record { same = λ w. refl }

  pub throw-Does : {A : Type 0} (e : Failure) → Does {A = A} env (throw e) (Effects.throw e)
  unfolding run
  throw-Does e = record { same = λ w. refl }

  perform-Does : (o : Op) → Does env (perform o) (exec env o)
  unfolding run perform
  perform-Does o = record { same = λ w. run-of_outcome (exec env o w) }

  pub info-Does :
      (message : Text) (metadata : Metadata)
      → Does env (perform (info message metadata)) (Effects.info message metadata)
  unfolding exec
  info-Does message metadata = perform-Does (info message metadata)

  pub error-Does :
      (message : Text) (metadata : Metadata)
      → Does env (perform (error message metadata)) (Effects.error message metadata)
  unfolding exec
  error-Does message metadata = perform-Does (error message metadata)

  pub reply-Does : (content : Text) → Does env (perform (reply content)) (Effects.send env content)
  unfolding exec
  reply-Does content = perform-Does (reply content)

  pub follow_up-Does :
      (content : Text) → Does env (perform (follow_up content)) (Effects.send env content)
  unfolding exec
  follow_up-Does content = perform-Does (follow_up content)

  pub call-Does :
      (method : Method) (request : Request method)
      → Does env
          (perform (call method request))
          (Effects.call env (method_of env.client method) request)
  unfolding exec
  call-Does method request = perform-Does (call method request)

  pub call_authorized-Does :
      (method : Method) (request : Request method) (token : Text)
      → Does env
          (perform (call_authorized method request token))
          (Effects.call_authorized env (method_of env.client method) request token)
  unfolding exec
  call_authorized-Does method request token = perform-Does (call_authorized method request token)

  pub await_ready-Does :
      (connection : ℕ)
      → Does env (perform (await_ready connection)) (BotPlayback.await_ready env connection)
  unfolding exec
  await_ready-Does connection = perform-Does (await_ready connection)

  pub sign_nonce-Does :
      (nonce : Text) → Does env (perform (sign_nonce nonce)) (BotAuth.sign_nonce env nonce)
  unfolding exec
  sign_nonce-Does nonce = perform-Does (sign_nonce nonce)

  pub get_auth_token-Does :
      (session_id : Text)
      → Does env
          (perform (get_auth_token session_id))
          (read_sessions (Sessions.get_auth_token session_id))
  unfolding exec
  get_auth_token-Does session_id = perform-Does (get_auth_token session_id)

  pub set_auth_token-Does :
      (session_id auth_token : Text)
      → Does env
          (perform (set_auth_token session_id auth_token))
          (update_sessions (Sessions.set_auth_token session_id auth_token))
  unfolding exec
  set_auth_token-Does session_id auth_token = perform-Does (set_auth_token session_id auth_token)

  pub has_session-Does :
      (session_id : Text)
      → Does env
          (perform (has_session session_id))
          (read_sessions (Sessions.has_session session_id))
  unfolding exec
  has_session-Does session_id = perform-Does (has_session session_id)

  pub destroy_session-Does :
      (session_id : Text)
      → Does env (perform (destroy_session session_id)) (Effects.destroy_session env session_id)
  unfolding exec
  destroy_session-Does session_id = perform-Does (destroy_session session_id)

  pub join_channel-Does :
      (channel : Text)
      → Does env (perform (join_channel channel)) (BotPlayback.join_channel env channel)
  unfolding exec
  join_channel-Does channel = perform-Does (join_channel channel)

  pub destroy_connection-Does :
      (connection : ℕ)
      → Does env
          (perform (destroy_connection connection))
          (Effects.destroy_connection env connection)
  unfolding exec
  destroy_connection-Does connection = perform-Does (destroy_connection connection)

  pub begin_stream-Does :
      (session_id stream_url : Text) (connection : ℕ)
      → Does env
          (perform (begin_stream session_id stream_url connection))
          (BotPlayback.begin_stream env session_id stream_url connection)
  unfolding exec
  begin_stream-Does session_id stream_url connection =
      perform-Does (begin_stream session_id stream_url connection)

  pub bind-Does :
      {A B : Type 0} {p : Thread A} {f : A → Thread B} {m : M S A} {g : A → M S B}
      → Does env p m
      → ((a : A) → Does env (f a) (g a))
      → Does env (p >>= f) (Effects.◌>>=◌ m g)
  bind-Does {p = p} {f = f} {m = m} {g = g} h k = record {
    same = λ w.
        run-bind p f w
        ∙ ap (λ r. after r (λ a. run env (f a))) (h.same w)
        ∙ after-cong (m w) (λ a. run env (f a)) g (λ a. (k a).same);
  }

  pub attempt-Does :
      {A : Type 0} {p : Thread A} {m : M S A}
      → Does env p m
      → Does env (attempt p) (Effects.attempt m)
  attempt-Does {p = p} h = record { same = λ w. run-attempt p w ∙ ap caught (h.same w) }

  pub with_connect_error-Does :
      {A : Type 0} {p : Thread A} {f : ConnectError → Thread A} {m : M S A}
      {g : ConnectError → M S A}
      → Does env p m
      → ((err : ConnectError) → Does env (f err) (g err))
      → Does env (with_connect_error p f) (Effects.with_connect_error m g)
  unfolding Effects.with_connect_error
  with_connect_error-Does {p = p} {f = f} {m = m} {g = g} h k = record {
    same = λ w.
        run-with_connect_error p f w
        ∙ ap (handle (λ err. run env (f err))) (h.same w)
        ∙ handle-cong (m w) (λ err. run env (f err)) g (λ err. (k err).same);
  }
