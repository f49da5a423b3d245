-- ===== src/Bot/Threads.antt =====
-- discord-jockey/src: handlers that run side by side. A handler is what it does next, and how it goes
-- on from what that comes to; between two waits nothing else runs.
pub mod Auth
pub mod Commands
pub mod Play
pub mod Contract
pub mod System
pub mod Sequential
use radio_jockey.Base.{
  ℕ, Bool, true, false, Option, none, some, Text, if◌then◌else◌, Outcome, ok, thrown,
}
use radio_jockey.Proto.Messages.{RequestNonceResponse}
use radio_jockey.Proto.Methods.{Method, Request, Response, method_of}
use radio_jockey.Proto.Service.{Failure, connect_error, other_error}
use radio_jockey.Bot.Auth as BotAuth
use radio_jockey.Bot.Effects as Effects
use radio_jockey.Bot.Effects.{Env, World, ConnectError, read_sessions, update_sessions}
use radio_jockey.Bot.Logger.{Metadata}
use radio_jockey.Bot.Playback as BotPlayback
use radio_jockey.Bot.Playback.{Playback}
use radio_jockey.Bot.Sessions as Sessions

-- What a handler does with the world: calls and messages, which it awaits, and what is done at once.
pub data Op : Type 0 where
  call : (method : Method) → Request method → Op
  call_authorized : (method : Method) → Request method → (token : Text) → Op
  reply : (content : Text) → Op
  follow_up : (content : Text) → Op
  await_ready : (connection : ℕ) → Op
  info : (message : Text) → Metadata → Op
  error : (message : Text) → Metadata → Op
  sign_nonce : (nonce : Text) → Op
  get_auth_token : (session_id : Text) → Op
  set_auth_token : (session_id auth_token : Text) → Op
  has_session : (session_id : Text) → Op
  destroy_session : (session_id : Text) → Op
  join_channel : (channel : Text) → Op
  destroy_connection : (connection : ℕ) → Op
  begin_stream : (session_id stream_url : Text) (connection : ℕ) → Op

abbrev pub Answer : Op → Type 0
Answer (call method _) = Response method
Answer (call_authorized method _ _) = Response method
Answer (reply _) = Unit
Answer (follow_up _) = Unit
Answer (await_ready _) = Unit
Answer (info _ _) = Unit
Answer (error _ _) = Unit
Answer (sign_nonce _) = Text
Answer (get_auth_token _) = Option Text
Answer (set_auth_token _ _) = Unit
Answer (has_session _) = Bool
Answer (destroy_session _) = Unit
Answer (join_channel _) = ℕ
Answer (destroy_connection _) = Unit
Answer (begin_stream _ _ _) = Playback

abbrev pub is_awaited : Op → Bool
is_awaited (call _ _) = true
is_awaited (call_authorized _ _ _) = true
is_awaited (reply _) = true
is_awaited (follow_up _) = true
is_awaited (await_ready _) = true
is_awaited _ = false

-- What an operation comes to, whichever handlers run in between.
unfoldable pub exec : {S : Type 0} → Env S → (o : Op) → Effects.M S (Answer o)
exec env (call method request) = Effects.call env (method_of env.client method) request
exec env (call_authorized method request token) =
    Effects.call_authorized env (method_of env.client method) request token
exec env (reply content) = Effects.send env content
exec env (follow_up content) = Effects.send env content
exec env (await_ready connection) = BotPlayback.await_ready env connection
exec env (info message metadata) = Effects.info message metadata
exec env (error message metadata) = Effects.error message metadata
exec env (sign_nonce nonce) = BotAuth.sign_nonce env nonce
exec env (get_auth_token session_id) = read_sessions (Sessions.get_auth_token session_id)
exec env (set_auth_token session_id auth_token) =
    update_sessions (Sessions.set_auth_token session_id auth_token)
exec env (has_session session_id) = read_sessions (Sessions.has_session session_id)
exec env (destroy_session session_id) = Effects.destroy_session env session_id
exec env (join_channel channel) = BotPlayback.join_channel env channel
exec env (destroy_connection connection) = Effects.destroy_connection env connection
exec env (begin_stream session_id stream_url connection) =
    BotPlayback.begin_stream env session_id stream_url connection

-- A handler from some point on: it has returned, it has thrown, or it does something.
pub data Thread (A : Type 0) : Type 0 where
  pure : A → Thread A
  throw : Failure → Thread A
  doing : (o : Op) → (Outcome Failure (Answer o) → Thread A) → Thread A

infixl 5 ◌>>=◌ ◌>>◌
unfoldable pub ◌>>=◌ : {A B : Type 0} → Thread A → (A → Thread B) → Thread B
pure a >>= f = f a
throw e >>= f = throw e
doing o k >>= f = doing o (λ r. k r >>= f)

abbrev pub ◌>>◌ : {B : Type 0} → Thread (Unit {0}) → Thread B → Thread B
m >> n = m >>= λ _. n

abbrev pub of_outcome : {A : Type 0} → Outcome Failure A → Thread A
of_outcome (ok a) = pure a
of_outcome (thrown e) = throw e

unfoldable pub perform : (o : Op) → Thread (Answer o)
perform o = doing o of_outcome

unfoldable pub attempt : {A : Type 0} → Thread A → Thread (Outcome Failure A)
attempt (pure a) = pure (ok a)
attempt (throw e) = pure (thrown e)
attempt (doing o k) = doing o (λ r. attempt (k r))

unfoldable pub with_connect_error : {A : Type 0} → Thread A → (ConnectError → Thread A) → Thread A
with_connect_error (pure a) on_error = pure a
with_connect_error (throw (connect_error code raw)) on_error =
    on_error (record { code = code; raw_message = raw })
with_connect_error (throw (other_error message)) on_error = throw (other_error message)
with_connect_error (doing o k) on_error = doing o (λ r. with_connect_error (k r) on_error)

module _ {S : Type 0} (env : Env S) {A : Type 0} where
  -- All of a handler, when whatever else runs is what `env.meanwhile` says.
  unfoldable pub run : Thread A → Effects.M S A
  run (pure a) w = (ok a, w)
  run (throw e) w = (thrown e, w)
  run (doing o k) w = let (r, w') = exec env o w in run (k r) w'

  -- Up to the next wait.
  unfoldable pub advance : Thread A → World S → Thread A × World S
  advance (pure a) w = (pure a, w)
  advance (throw e) w = (throw e, w)
  advance (doing o k) w =
      let later = (let (r, w') = exec env o w in advance (k r) w') in
      if is_awaited o then (doing o k, w) else later

  -- What it waits for settles.
  unfoldable pub resume : Thread A → World S → Thread A × World S
  resume (pure a) w = (pure a, w)
  resume (throw e) w = (throw e, w)
  resume (doing o k) w = let (r, w') = exec env o w in advance (k r) w'
