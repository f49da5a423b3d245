-- ===== src/Bot/Threads/System/Starting.antt =====
-- discord-jockey/src/discord/command/play.ts: the waits of a play command that starts a playback.
use radio_jockey.Base.{
  ℕ, true, false, Option, none, some, List, [], ◌∷◌, Text, text, ◌≡◌, refl, ok, thrown, ◌⊎◌,
}
use radio_jockey.Proto.Messages.{
  CreateSessionRequest, CreateSessionResponse, GetSessionRequest, GetSessionResponse,
}
use radio_jockey.Proto.Service.{connect_error, already_exists}
use radio_jockey.Bot.Effects.{Env, World, ConnectError}
use radio_jockey.Bot.Effects as Effects
use radio_jockey.Bot.Play.{stream_url_of}
use radio_jockey.Bot.Playback.{Playback}
use radio_jockey.Bot.Playback as BotPlayback
use radio_jockey.Bot.Sessions as Sessions
use radio_jockey.Bot.Threads.{
  Thread, pure, exec, perform, await_ready, begin_stream, attempt, with_connect_error, ◌>>=◌,
  advance, resume,
}
use radio_jockey.Bot.Threads.Play.{
  with_stream, started, logged, reply_and_add, get_or_create_session, create_failed, start_playback,
  connect_to_channel, or_destroy,
}
use radio_jockey.Bot.Threads.System.{alone}

-- A playback of the session that has not stopped and has its request open.
pub record IsPlaying (id : Text) (p : Playback) : Type 0 where
  pub named : p.session_id ≡ id
  pub running : p.stopped ≡ false
  pub streaming : (request : ℕ) × (p.live ≡ request ∷ [])

-- What the server, Discord and the voice connection answer: a session is created or is there
-- already, and all else succeeds.
pub record IsUp {S : Type 0} (env : Env S) : Type 0 where
  pub creates :
      (request : CreateSessionRequest) (h : List (Text × Text)) (s : S)
      → ((a : CreateSessionResponse) × ((env.client.create_session request h s).0 ≡ ok a))
        ⊎ ((raw : Text) × ((env.client.create_session request h s).0
              ≡ thrown (connect_error already_exists raw)))
  pub finds :
      (request : GetSessionRequest) (h : List (Text × Text)) (s : S)
      → (a : GetSessionResponse) × ((env.client.get_session request h s).0 ≡ ok a)
  pub delivers : (t : Text) (s : S) → (env.deliver t s).0 ≡ none
  pub connects : (connection : ℕ) (s : S) → (env.enters_ready connection s).0 ≡ none

module _ {S : Type 0} (env : Env S) (id channel : Text) where
  -- The rest of the listener behind the handler of the play command.
  abbrev pub listened : Thread (Option Playback) → Thread (Option Playback)
  listened p = attempt p >>= logged env (text "play")

  abbrev pub url : Text
  url = stream_url_of env id

  unfoldable pub creating : Thread (Option Playback)
  creating =
      listened (attempt (get_or_create_session env id) >>= with_stream env id (some channel) none)

  unfoldable pub replying : Thread (Option Playback)
  replying = listened (
      reply_and_add env id (text "Starting playback!") none >>= λ _.
      attempt (start_playback env channel id url) >>= started env id)

  unfoldable pub joining : ℕ → Thread (Option Playback)
  joining connection = listened (
      attempt (
        (attempt (perform (await_ready connection)) >>= or_destroy env connection) >>= λ joined.
        perform (begin_stream id url joined))
      >>= started env id)

  abbrev pub taken : Text → ConnectError
  taken raw = record { code = already_exists; raw_message = raw }

  unfoldable pub looking : Text → Thread (Option Playback)
  looking raw = listened (
      attempt (create_failed env id (taken raw) already_exists)
      >>= with_stream env id (some channel) none)

  pub created :
      (w : World S) (a : CreateSessionResponse)
      → (env.client.create_session (record { session_id = id; archive = true }) [] w.external).0
        ≡ ok a
      → (resume (alone env) creating w).0 ≡ replying
  unfolding creating replying resume advance exec get_or_create_session perform attempt
      with_connect_error ◌>>=◌ reply_and_add Effects.call Effects.info
  created w a e = rw e refl

  pub refused :
      (w : World S) (raw : Text)
      → (env.client.create_session (record { session_id = id; archive = true }) [] w.external).0
        ≡ thrown (connect_error already_exists raw)
      → (resume (alone env) creating w).0 ≡ looking raw
  unfolding creating looking resume advance exec get_or_create_session create_failed perform attempt
      with_connect_error ◌>>=◌ Effects.call
  refused w raw e = rw e refl

  pub found :
      (raw : Text) (w : World S) (a : GetSessionResponse)
      → (env.client.get_session (record { session_id = id }) [] w.external).0 ≡ ok a
      → (resume (alone env) (looking raw) w).0 ≡ replying
  unfolding looking replying resume advance exec create_failed perform attempt with_connect_error
      ◌>>=◌ reply_and_add Effects.call Effects.info
  found raw w a e = rw e refl

  pub joined :
      (w : World S)
      → (env.deliver (text "Starting playback!") w.external).0 ≡ none
      → (connection : ℕ) × ((resume (alone env) replying w).0 ≡ joining connection)
  unfolding replying joining resume advance exec reply_and_add start_playback connect_to_channel
      perform attempt ◌>>=◌ Effects.send BotPlayback.join_channel
  joined w e =
      ((env.join channel (env.deliver (text "Starting playback!") w.external).1).0, rw e refl)

  abbrev pub begun : ℕ → World S → Playback
  begun connection w =
      (BotPlayback.start_stream (alone env)
        (record {
          session_id = id;
          stream_url = url;
          connection = connection;
          stopped = false;
          current_request = none;
          attached = true;
          live = [];
          playing = none;
        })
        w).0

  pub connected :
      (connection : ℕ) (w : World S)
      → (env.enters_ready connection w.external).0 ≡ none
      → (p : Playback) × ((resume (alone env) (joining connection) w).0 ≡ pure (some p))
        × IsPlaying id p
  unfolding joining resume advance exec perform attempt ◌>>=◌ BotPlayback.await_ready
      BotPlayback.begin_stream BotPlayback.open_playback BotPlayback.start_stream Effects.info
  connected connection w e =
      let w' : World S = record w {
        external = (env.enters_ready connection w.external).1;
        sessions = Sessions.create_session id connection w.sessions;
      } in
      let p = begun connection w' in
      (p, rw e refl, record { named = refl; running = refl; streaming = (_, refl) })
