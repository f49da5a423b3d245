-- ===== src/Bot/Playing.antt =====
-- discord-jockey/src/discord/command/play.ts, `handlePlayCommand`: what the table of sessions holds
-- when the command has run.
use radio_jockey.Base.{
  true, false, Option, none, some, [], ◌∷◌, Text, text, Outcome, ok, thrown, ◌≡◌, ◌≢◌, refl, sym,
  ap, ◌∙◌, arith, if◌then◌else◌, Dict, has, lookup, erase, lookup-erase_self,
}
use mathlib.Core.Path.{subst, subst₂}
use radio_jockey.Proto.Messages.{CreateSessionResponse}
use radio_jockey.Proto.Service.{Failure, connect_error, other_error, already_exists, Code}
use radio_jockey.Bot.Sessions.{Sessions, has_session}
use radio_jockey.Bot.Effects.{
  Env, World, ◌>>=◌, ◌>>◌, after, after-eq-ok, pure, send, call, info, error, handle,
  with_connect_error, destroy_session, destroy_found, update_sessions, ConnectError, attempt,
}
use radio_jockey.Bot.Auth.{truthy}
use radio_jockey.Bot.Commands.{Interaction, get_session_id}
use radio_jockey.Bot.Playback.{Playback}
use radio_jockey.Bot.Play.{
  get_or_create_session, create_failed, stream_url_of, reply_and_add, playback_failed, started,
  start_in, with_stream, play_in, play_from, handle_play, or_null,
}
use radio_jockey.Bot.Absence.{send_absent, get_or_create_session_absent}
use radio_jockey.Bot.Starts.{HasStarted, start_playback-HasStarted}

module _ {S : Type 0} (env : Env S) (id : Text) where
  -- A session that can be destroyed is out of the table.
  destroyed_lem :
      (w w' : World S) → destroy_session env id w ≡ (ok tt, w') → lookup id w'.sessions ≡ none
  unfolding destroy_session
  destroyed_lem w w' e =
      let (u, v, _, erased) =
        after-eq-ok (destroy_found env (lookup id w.sessions) w) (λ _. update_sessions (erase id))
          e in
      ap (λ r. lookup id r.1.sessions) (sym erased) ∙ lookup-erase_self id v.sessions

  ok_some_ne_none :
      {p : Playback} {w w' : World S}
      → ◌≢◌ {A = Outcome Failure (Option Playback) × World S} (ok (some p), w) (ok none, w')
  ok_some_ne_none e = ground arith

  -- The stream url is that of the session, whether it is created or exists already.
  create_failed-url :
      (err : ConnectError) (code : Code) (w w' : World S) (url : Text)
      → create_failed env id err code w ≡ (ok url, w')
      → url ≡ stream_url_of env id
  unfolding create_failed info
  create_failed-url err already_exists w w' url e =
      let (o, v, _, e₁) =
        after-eq-ok (call env env.client.get_session (record { session_id = id }) w)
          (λ _. (do
            info (text "session already exists")
                ((text "sessionId", id) ∷ (text "streamUrl", stream_url_of env id) ∷ [])
            pure (stream_url_of env id)))
          e in
      ground arith
  create_failed-url err _ w w' url e = ground arith

  get_or_create_session-url :
      (w w' : World S) (url : Text)
      → get_or_create_session env id w ≡ (ok url, w')
      → url ≡ stream_url_of env id
  unfolding get_or_create_session with_connect_error info
  get_or_create_session-url w w' url e =
      by_call (call env env.client.create_session (record { session_id = id; archive = true }) w) e
    where
      by_call :
          (r : Outcome Failure CreateSessionResponse × World S)
          → handle
              (λ err. create_failed env id err err.code)
              (after r (λ _. (do
                info
                    (text "session created")
                    ((text "sessionId", id) ∷ (text "streamUrl", stream_url_of env id) ∷ [])
                pure (stream_url_of env id))))
            ≡ (ok url, w')
          → url ≡ stream_url_of env id
      by_call (ok o, v) h = ground arith
      by_call (thrown (connect_error code raw), v) h = create_failed-url _ code v w' url h
      by_call (thrown (other_error message), v) h = ground arith

  -- Where the command leaves the table: without a session, or with that of the playback it has
  -- started, which plays the stream of the session.
  abbrev pub IsPlaced : Option Playback → World S → Type 0
  IsPlaced none w = lookup id w.sessions ≡ none
  IsPlaced (some p) w = HasStarted env id (stream_url_of env id) p w

  ok-injective :
      {a b : Option Playback} → ◌≡◌ {A = Outcome Failure (Option Playback)} (ok a) (ok b) → a ≡ b
  ok-injective e = cc

  same-IsPlaced :
      {p q : Option Playback} {v w : World S}
      → ◌≡◌ {A = Outcome Failure (Option Playback) × World S} (ok p, v) (ok q, w)
      → IsPlaced p v
      → IsPlaced q w
  same-IsPlaced e h = subst₂ IsPlaced (ok-injective (ap (λ r. r.0) e)) (ap (λ r. r.1) e) h

  start_in-HasStarted :
      (channel : Option Text) (stream_url : Text) (w w' : World S) (p : Playback)
      → start_in env channel id stream_url w ≡ (ok p, w')
      → HasStarted env id stream_url p w'
  start_in-HasStarted none stream_url w w' p e = absurd (ground arith)
  start_in-HasStarted (some channel) stream_url w w' p e =
      start_playback-HasStarted env id stream_url channel w w' p e

  module _
      (quiet : (s : S) (m : Sessions)
        → lookup id m ≡ none
        → lookup id (env.meanwhile s m) ≡ none) where
    playback_failed-IsPlaced :
        (e : Failure) (w w' : World S) (playback : Option Playback)
        → playback_failed env id e w ≡ (ok playback, w')
        → IsPlaced playback w'
    unfolding playback_failed error
    playback_failed-IsPlaced e w w' playback h =
        let message = text "Failed to start playback. Please try again." in
        let (u, v, destroyed, sent) =
          after-eq-ok (destroy_session env id _)
            (λ _. (do _ ← attempt (send env message); pure {A = Option Playback} none)) h in
        let absent = send_absent env id quiet message v (destroyed_lem _ v destroyed) in
        same-IsPlaced {p = none} sent absent

    with_stream-IsPlaced :
        (channel : Option Text) (url : Option Text) (r : Outcome Failure Text) (w w' : World S)
        (playback : Option Playback)
        → lookup id w.sessions ≡ none
        → ((stream_url : Text) → r ≡ ok stream_url → stream_url ≡ stream_url_of env id)
        → with_stream env id channel url r w ≡ (ok playback, w')
        → IsPlaced playback w'
    unfolding error
    with_stream-IsPlaced channel url (thrown x) w w' playback h k e =
        let message = text "Failed to start a session. Please try again." in
        let (u, v, sent, returned) =
          after-eq-ok (send env message _) (λ _. pure {A = Option Playback} none) e in
        same-IsPlaced {p = none} returned
          (ap (λ r. lookup id r.1.sessions) (sym sent) ∙ send_absent env id quiet message _ h)
    with_stream-IsPlaced channel url (ok stream_url) w w' playback h k e =
        let (u, v, _, rest) =
          after-eq-ok (reply_and_add env id (text "Starting playback!") url w)
            (λ _. (do
              playback ← attempt (start_in env channel id stream_url)
              started env id playback))
            e in
        by_start v (start_in env channel id stream_url v) refl rest
      where
        by_start :
            (v : World S) (r : Outcome Failure Playback × World S)
            → start_in env channel id stream_url v ≡ r
            → started env id r.0 r.1 ≡ (ok playback, w')
            → IsPlaced playback w'
        by_start v (ok p, v') same h' = same-IsPlaced {p = some p} h' (
            subst (λ url. HasStarted env id url p v') (k stream_url refl)
              (start_in-HasStarted channel stream_url v v' p same))
        by_start v (thrown x, v') same h' = playback_failed-IsPlaced x v' w' playback h'

has_lem : {V : Type 0} (k : Text) (m : Dict V) → has k m ≡ false → lookup k m ≡ none
unfolding has lookup
has_lem k [] h = refl
has_lem k ((j, v) ∷ m) h = ground (arith, has_lem k m)

module _ {S : Type 0} (env : Env S) where
  -- For a member in a voice channel of a guild without a session, when the play command returns
  -- and no other handler adds the session while a call or a message is awaited: if it has started
  -- a playback, that playback streams the url of the session, its stream is the one open request,
  -- and the table holds its connection and its buffer under the session id; if it has not, the
  -- table holds no session of the guild.
  pub handle_play-IsPlaced :
      (i : Interaction) (channel : Text)
      (quiet : (s : S) (m : Sessions)
        → lookup (get_session_id env i) m ≡ none
        → lookup (get_session_id env i) (env.meanwhile s m) ≡ none)
      (w w' : World S) (playback : Option Playback)
      → i.in_guild ≡ true
      → i.voice_channel ≡ some channel
      → has_session (get_session_id env i) w.sessions ≡ false
      → handle_play env i w ≡ (ok playback, w')
      → IsPlaced env (get_session_id env i) playback w'
  unfolding handle_play info has_session
  handle_play-IsPlaced i channel quiet w w' playback guild voice idle e =
      let id = get_session_id env i in
      let received =
        info (text "play command received")
          ((text "sessionId", id) ∷ (text "trackUrl", or_null env i.url) ∷ []) in
      let reduced : handle_play env i w
          ≡ play_in env id i.voice_channel_later (truthy i.url) false (received w).1 =
        ap
          (λ b.
            (if b
                then play_from env i i.voice_channel
                else (do send env (text "This command can only be used in a server!"); pure none))
              w)
          guild
        ∙ ap (λ v. play_from env i v w) voice
        ∙ ap (λ b. play_in env id i.voice_channel_later (truthy i.url) b (received w).1) idle in
      let v = (received w).1 in
      let r = get_or_create_session env id v in
      with_stream-IsPlaced env id quiet i.voice_channel_later (truthy i.url) r.0 r.1 w' playback
        (get_or_create_session_absent env id quiet v (has_lem id w.sessions idle))
        (λ url h. get_or_create_session-url env id v r.1 url (ap (λ o. (o, r.1)) h))
        (sym reduced ∙ e)
