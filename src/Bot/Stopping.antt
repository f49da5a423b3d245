-- ===== src/Bot/Stopping.antt =====
-- discord-jockey/src/discord/command/stop.ts and discord-jockey/src/discord.ts: the end of a
-- session, and the containment of errors.
use radio_jockey.Base.{
  ℕ, Bool, true, false, Option, none, some, [], ◌∷◌, Text, text, Outcome, ok, thrown, ◌≡◌, ◌≢◌,
  refl, sym, ap, ◌∙◌, arith, if◌then◌else◌, Option-cases, inl, inr, lookup, lookup-erase_self,
}
use mathlib.Core.Path.{subst}
use radio_jockey.Proto.Messages.{DeleteSessionAuthResponse}
use radio_jockey.Proto.Service.{Code, not_found, Failure, connect_error, other_error}
use radio_jockey.Bot.Sessions.{Sessions, has_session}
use radio_jockey.Bot.Effects.{
  Env, World, M, ◌>>◌, after, handle, with_connect_error, ConnectError, pure, info, error, send,
  destroy_session,
}
use radio_jockey.Bot.Auth.{delete_session, truthy}
use radio_jockey.Bot.Commands.{Interaction, get_session_id, handle_stop, stop_failed}
use radio_jockey.Bot.Playback.{Playback}
use radio_jockey.Bot.Play.{
  logged, on_interaction, handle_play, play_from, play_in, reply_and_add, or_null,
}
use radio_jockey.Bot.Sending.{handle_plain, send-Sends}
use radio_jockey.Bot.Tables.{destroy_session_found, destroy_session_absent}

-- The server has deleted the session, or does not know it.
abbrev pub IsGone : {A : Type 0} → Outcome Failure A → Type 0
IsGone (ok a) = Unit {0}
IsGone (thrown (connect_error code raw)) = code ≡ not_found
IsGone (thrown (other_error message)) = ⊥

module _ {S : Type 0} (env : Env S) where
  logged-ok :
      (name : Text) (r : Outcome Failure (Option Playback)) (w : World S)
      → (playback : Option Playback) × ((logged env name r w).0 ≡ ok playback)
  unfolding error
  logged-ok name (ok playback) w = (playback, refl)
  logged-ok name (thrown e) w = (none, refl)

  -- The listener of interactions returns, whatever the interaction is and whatever its handler
  -- throws.
  pub on_interaction-ok :
      (is_command : Bool) (name : Text) (i : Interaction) (w : World S)
      → (playback : Option Playback) × ((on_interaction env is_command name i w).0 ≡ ok playback)
  unfolding on_interaction info
  on_interaction-ok false name i w = (none, refl)
  on_interaction-ok true name i w = logged-ok name _ _

  not_started :
      (r : Outcome Failure (Unit {0}) × World S) (p : Playback)
      → (after r (λ _. pure {A = Option Playback} none)).0 ≢ ok (some p)
  not_started (ok a, w) p e = ground arith
  not_started (thrown x, w) p e = ground arith

  -- In a guild, for a member in a voice channel, and with a session of the guild in the table, the
  -- play command returns no playback of its own.
  pub handle_play_playing :
      (i : Interaction) (channel : Text) (w : World S) (p : Playback)
      → i.in_guild ≡ true
      → i.voice_channel ≡ some channel
      → has_session (get_session_id env i) w.sessions ≡ true
      → (handle_play env i w).0 ≢ ok (some p)
  unfolding handle_play info
  handle_play_playing i channel w p guild voice playing started =
      let id = get_session_id env i in
      let received =
        info (text "play command received")
          ((text "sessionId", id) ∷ (text "trackUrl", or_null env i.url) ∷ []) in
      let reduced : handle_play env i w
          ≡ play_in env id i.voice_channel_later (truthy i.url) true (received w).1 =
        ap
          (λ b.
            (if b
                then play_from env i i.voice_channel
                else (do send env (text "This command can only be used in a server!"); pure none))
              w)
          guild
        ∙ ap (λ v. play_from env i v w) voice
        ∙ ap (λ b. play_in env id i.voice_channel_later (truthy i.url) b (received w).1) playing in
      not_started (reply_and_add env id (text "Already playing!") (truthy i.url) (received w).1) p
        (ap (λ r. r.0) (sym reduced) ∙ started)

  module _ (id : Text) (destroys : (c : ℕ) (s : S) → (env.destroy c s).0 ≡ none)
      (quiet : (s : S) (m : Sessions)
        → lookup id m ≡ none
        → lookup id (env.meanwhile s m) ≡ none) where
    pub destroyed :
        (w : World S)
        → (w' : World S) × (destroy_session env id w ≡ (ok tt, w')) × (lookup id w'.sessions ≡ none)
    destroyed w = elim (Option-cases (lookup id w.sessions)) [
      | inl absent ↦ (_, destroy_session_absent env id w absent, lookup-erase_self id w.sessions)
      | inr (session, found) ↦ (
        _,
        destroy_session_found env id w session found (destroys session.connection w.external),
        lookup-erase_self id w.sessions,
      )
    ]

    -- Sending leaves an absent session absent.
    sent_absent :
        (t : Text) (w : World S)
        → lookup id w.sessions ≡ none
        → lookup id (send env t w).1.sessions ≡ none
    unfolding send
    sent_absent t w h = quiet _ w.sessions h

    -- The message that ends the handler, once the session is gone.
    ended :
        (f : ConnectError → M S (Unit {0})) (message t : Text) (w : World S)
        → lookup id
            (handle f (
              after
                (destroy_session env id w)
                (λ _. do info message ((text "sessionId", id) ∷ []); send env t))).1.sessions
          ≡ none
    unfolding info
    ended f message t w =
        let (w', e, gone) = destroyed w in
        let v = (info message ((text "sessionId", id) ∷ []) w').1 in
        rw e
          (rw (handle_plain f (send env t v) ((send-Sends env t).plain v)) (sent_absent t v gone))

    failed :
        (err : ConnectError) (code : Code) (w : World S)
        → code ≡ not_found
        → lookup id (stop_failed env id err code w).1.sessions ≡ none
    unfolding stop_failed info
    failed err code w h =
        let (w', e, gone) = destroyed w in
        let message = text "stop: session not found, cleaning up locally" in
        let v = (info message ((text "sessionId", id) ∷ []) w').1 in
        subst (λ c. lookup id (stop_failed env id err c w).1.sessions ≡ none) (sym h)
          (rw e (sent_absent (text "No active session.") v gone))

    handled :
        (r : Outcome Failure DeleteSessionAuthResponse × World S)
        → IsGone r.0
        → lookup id
            (handle
              (λ err. stop_failed env id err err.code)
              (after r (λ _. do
                destroy_session env id
                info (text "session stopped") ((text "sessionId", id) ∷ [])
                send env (text "Stopped and left the voice channel.")))).1.sessions
          ≡ none
    handled (ok a, w) h = ended (λ err. stop_failed env id err err.code) _ _ w
    handled (thrown (connect_error code raw), w) h =
        failed (record { code = code; raw_message = raw }) code w h
    handled (thrown (other_error message), w) h = absurd h

  -- After the stop command the bot has no session for the guild, if the server has deleted it or
  -- does not know it, connections can be destroyed, and no other handler adds the session while a
  -- call or a message is awaited.
  pub handle_stop-gone :
      (destroys : (c : ℕ) (s : S) → (env.destroy c s).0 ≡ none) (i : Interaction)
      (quiet : (s : S) (m : Sessions)
        → lookup (get_session_id env i) m ≡ none
        → lookup (get_session_id env i) (env.meanwhile s m) ≡ none)
      (w : World S)
      → IsGone
          (delete_session env
            (get_session_id env i)
            (info
              (text "stop command received")
              ((text "sessionId", get_session_id env i) ∷ [])
              w).1).0
      → lookup (get_session_id env i) (handle_stop env i w).1.sessions ≡ none
  unfolding handle_stop with_connect_error info
  handle_stop-gone destroys i quiet w h = handled (get_session_id env i) destroys quiet _ h
