-- ===== src/Bot/Threads/System/Twice.antt =====
-- discord-jockey/src/discord/command/play.ts: two play commands of one guild that both start a playback.
use radio_jockey.Base.{
  true, false, Option, none, some, [], ◌∷◌, Text, text, text_eq, ◌≡◌, refl, sym, ap, ◌∙◌, has,
  lookup,
}
use mathlib.Core.Path.{subst}
use radio_jockey.Bot.Commands.{Interaction, get_session_id}
use radio_jockey.Bot.Effects.{Env, World}
use radio_jockey.Bot.Effects as Effects
use radio_jockey.Bot.Playback.{Playback}
use radio_jockey.Bot.Sessions as Sessions
use radio_jockey.Bot.Threads.{Thread, exec, perform, attempt, with_connect_error, ◌>>=◌, advance}
use radio_jockey.Bot.Threads.Play.{on_interaction, dispatch, handle_play, get_or_create_session}
use radio_jockey.Bot.Threads.System.{Bot, alone, interacted, Reach, here, step, interact, starting}
use radio_jockey.Bot.Threads.System.Guilds.{world-place}
use radio_jockey.Bot.Threads.System.Starting.{IsPlaying, IsUp, creating}
use radio_jockey.Bot.Threads.System.Finishing.{IsAt, place_IsAt, finish}

-- The play command sent from a voice channel of the guild that is not left, with no track named.
abbrev pub from : Text → Interaction → Interaction
from channel i = record i {
  in_guild = true;
  voice_channel = some channel;
  voice_channel_later = some channel;
  url = none;
}

module _ {S : Type 0} (env : Env S) where
  abbrev begun : Text → Interaction → World S → Thread (Option Playback) × World S
  begun channel i = advance (alone env) (on_interaction env true (text "play") (from channel i))

  -- It goes on up to the call that creates the session.
  abbrev Begins : Text → Interaction → World S → Type 0
  Begins channel i w =
      ((begun channel i w).0 ≡ creating env (get_session_id env i) channel)
      × ((begun channel i w).1.sessions ≡ [])

  begins : (channel : Text) (i : Interaction) (w : World S) → w.sessions ≡ [] → Begins channel i w
  unfolding creating advance exec on_interaction dispatch handle_play get_or_create_session perform
      attempt with_connect_error ◌>>=◌ Effects.info Sessions.has_session has lookup text text_eq
      get_session_id
  begins channel i w empty =
      subst (λ m. Begins channel i (record w { sessions = m })) (sym empty) (refl, refl)

  -- The bot when it has.
  begins_IsAt :
      (channel : Text) (i : Interaction) (b : Bot S)
      → b.world.sessions ≡ []
      → b.playbacks ≡ []
      → IsAt
          (creating env (get_session_id env i) channel)
          []
          b.running
          []
          (interacted env true (text "play") (from channel i) b)
        × ((interacted env true (text "play") (from channel i) b).world.sessions ≡ [])
  unfolding creating interacted get_or_create_session perform attempt with_connect_error ◌>>=◌
  begins_IsAt channel i b empty none_yet =
      let (at, same) = begins channel i b.world empty in
      let id = get_session_id env (from channel i) in
      (
        place_IsAt id false 0 (begun channel i b.world) [] b.running b.playbacks at refl none_yet,
        ap (λ w. w.sessions)
              (world-place id false 0 (begun channel i b.world) [] b.running b.playbacks)
            ∙ same,
      )

  -- The bot can come to where no handler runs and two playbacks of the session are streaming.
  abbrev pub PlaysTwice : World S → Text → Type 0
  PlaysTwice w id =
      (b : Bot S) × (p : Playback) × (q : Playback) × Reach env (starting w) b
      × (b.running ≡ [])
      × (b.playbacks ≡ p ∷ q ∷ [])
      × IsPlaying id p
      × IsPlaying id q

  -- From any start without sessions, if the server and Discord answer each call with success, or
  -- the server a creation with `already_exists`, and two members of one guild send the command
  -- play without a track from voice channels that they do not leave, the bot can come to where no
  -- handler runs and where there are two playbacks of the one session id, neither of them stopped
  -- and each with one open request.
  pub play_twice :
      IsUp env
      → (w : World S) (i j : Interaction) (channel other : Text)
      → get_session_id env i ≡ get_session_id env j
      → PlaysTwice w (get_session_id env i)
  play_twice up w i j channel other same =
      let (one, empty) = begins_IsAt channel i (starting w) refl refl in
      let b = interacted env true (text "play") (from channel i) (starting w) in
      let (two, _) = begins_IsAt other j b empty one.left in
      let asked =
        step (step here (interact true (text "play") (from channel i)))
          (interact true (text "play") (from other j)) in
      let (q, plays, (c, r, ends)) = finish env up (get_session_id env j) other (_, asked, two) in
      let first : IsAt (creating env (get_session_id env i) channel) [] [] (q ∷ []) c = record {
        current = one.current;
        split = ends.split ∙ one.split;
        thread = one.thread;
        left = ends.left;
      } in
      let (p, plays', (d, s, done)) = finish env up (get_session_id env i) channel (c, r, first) in
      (d, p, q, s, done.split, done.left, plays', subst (λ k. IsPlaying k q) (sym same) plays)
