-- ===== src/Bot/Examples.antt =====
-- discord-jockey/src: the theorems on the bot at concrete inputs.
use radio_jockey.Base.{true, none, some, text, ◌≡◌, refl, ◌∷◌, arith, lookup, has, insert, text_eq}
use radio_jockey.Bot.SessionIds.{IsSlug, slug_of-IsSlug, session_id_of_inj}
use radio_jockey.Bot.Threads.System.{
  Reach, here, step, interact, settle, settles, starting, resumed,
}
use radio_jockey.Bot.Threads.System.Guilds.{other_guilds}
use mathlib.Core.Path.{subst}
use radio_jockey.Bot.Threads.System.Twice.{PlaysTwice, play_twice}
use radio_jockey.Bot.Threads.System.Waits.{
  IsProper, Reach-IsProper, settles-le, playbacks-HasOneStream,
}
use radio_jockey.Base.{All, [], ◌≤◌}
use radio_jockey.Bot.Slug.{slug_of, session_id_of, dash_runs, trim_dashes_start, trim_dashes_end}
use radio_jockey.Bot.Sessions.{
  has_session, create_session, set_buffer, get_auth_token, set_auth_token,
}
use radio_jockey.Bot.Effects.{info, call, call_authorized, with_connect_error}
use radio_jockey.Bot.Stopping.{handle_stop-gone}
use radio_jockey.Bot.Tokens.{IsWithToken, with_auth_remembered, with_auth_kept}
use radio_jockey.Bot.Play.{handle_play}
use radio_jockey.Proto.Messages.{DeleteSessionAuthResponse}
use radio_jockey.Bot.Auth.{keep_token, sign_nonce, delete_session, with_auth, acquire_auth_token}
use radio_jockey.Bot.Commands.{get_session_id, handle_stop}
use radio_jockey.Bot.Playback.{
  start_playback, start_stream, connect_to_channel, join_channel, await_ready, begin_stream,
  open_playback,
}
use radio_jockey.Bot.Streams.{HasOneStream}
use radio_jockey.Bot.Playing.{IsPlaced, handle_play-IsPlaced}
use radio_jockey.Bot.Play.{reply_and_add, get_or_create_session, stream_url_of}
use radio_jockey.Bot.Effects.{send}
use radio_jockey.Bot.Fixtures.{
  env, session, quiet, playing, interaction, delete, renewed, playback, one_waits, creating,
  one_waits_running, creating_id, env-IsUp, two_playing, delete_by,
}

slug_of-IsSlug_example : IsSlug (slug_of (λ s. s) (text "--a b!"))
slug_of-IsSlug_example = slug_of-IsSlug (λ s. s) (text "--a b!")

session_id_of_inj_example : text "12" ≡ text "12"
unfolding text
session_id_of_inj_example =
    session_id_of_inj (λ s. s) (some (text "a-1")) (some (text "a-1")) (text "12") (text "12")
      (refl, (refl, tt)) (refl, (refl, tt)) refl

handle_stop-gone_example :
    lookup (get_session_id env interaction) (handle_stop env interaction playing).1.sessions ≡ none
unfolding delete_session with_auth with_connect_error call_authorized get_auth_token lookup text_eq
    get_session_id session_id_of slug_of text dash_runs trim_dashes_start trim_dashes_end info
handle_stop-gone_example = handle_stop-gone env (λ c s. refl) interaction (λ s m h. h) playing tt

handle_play-IsPlaced_example :
    IsPlaced env
      (get_session_id env interaction)
      (some (record playback { stream_url = text "http://icecast/stream/a-1" }))
      (handle_play env interaction quiet).1
unfolding handle_play reply_and_add get_or_create_session with_connect_error call info send
    stream_url_of has_session has lookup insert text text_eq get_session_id session_id_of slug_of
    dash_runs trim_dashes_start trim_dashes_end start_playback connect_to_channel join_channel
    await_ready begin_stream open_playback start_stream create_session set_buffer
handle_play-IsPlaced_example =
    handle_play-IsPlaced env interaction (text "c") (λ s m h. h) quiet
      (handle_play env interaction quiet).1
      (some (record playback { stream_url = text "http://icecast/stream/a-1" })) refl refl refl refl

-- A member of the guild plays while nothing else goes on; the creation of the session is answered.
asked : Reach env (starting quiet) one_waits
unfolding one_waits
asked = step here (interact true (text "play") interaction)

other_guilds_example :
    lookup (text "b-2") (resumed env [] [] creating one_waits).world.sessions
    ≡ lookup (text "b-2") one_waits.world.sessions
unfolding text
other_guilds_example =
    other_guilds env quiet (text "b-2") asked (settle [] [] creating one_waits_running)
      (λ e. ground (arith, creating_id))

Reach-IsProper_example : All IsProper one_waits.running
Reach-IsProper_example = Reach-IsProper env quiet asked

settles-le_example : settles env (step asked (settle [] [] creating one_waits_running)) ≤ 7
unfolding asked
settles-le_example = settles-le env quiet (step asked (settle [] [] creating one_waits_running))

with_auth_remembered_example :
    with_auth env (text "a-1") (delete env) renewed ≡ delete env (text "fresh") renewed
unfolding get_auth_token set_auth_token lookup insert text text_eq call call_authorized
    acquire_auth_token keep_token sign_nonce
with_auth_remembered_example =
    with_auth_remembered env (text "a-1") (delete env) playing renewed renewed (text "fresh")
      (record session { auth_token = some (text "fresh") }) refl refl refl refl tt

with_auth_kept_example :
    IsWithToken env
      (text "a-1")
      delete_by
      DeleteSessionAuthResponse.empty
      (with_auth env (text "a-1") delete_by playing).1
unfolding with_auth with_connect_error get_auth_token set_auth_token lookup insert text text_eq call
    call_authorized acquire_auth_token keep_token sign_nonce
with_auth_kept_example =
    with_auth_kept env (text "a-1") delete_by playing
      (with_auth env (text "a-1") delete_by playing).1 DeleteSessionAuthResponse.empty refl

play_twice_example : PlaysTwice env quiet (get_session_id env interaction)
play_twice_example =
    play_twice env env-IsUp quiet interaction interaction (text "c") (text "d") refl

-- Two playbacks that stream.
playbacks-HasOneStream_example : All HasOneStream (two_playing.1 ∷ two_playing.2 ∷ [])
playbacks-HasOneStream_example =
    subst (All HasOneStream) two_playing.5 (playbacks-HasOneStream env quiet two_playing.3)
