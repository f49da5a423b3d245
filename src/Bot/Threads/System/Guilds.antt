-- ===== src/Bot/Threads/System/Guilds.antt =====
-- discord-jockey/src: what the bot does for one guild leaves the sessions of the others alone.
use radio_jockey.Base.{
  ℕ, ◌-◌, suc, ap, ◌∙◌, Bool, false, Option, none, some, List, [], Text, ◌≡◌, ◌≢◌, refl, sym,
  Bool-cases, inl, inr, arith, lookup, All,
}
use mathlib.Core.Path.{subst}
use radio_jockey.Bot.Auth as BotAuth
use radio_jockey.Bot.Commands.{get_session_id}
use radio_jockey.Bot.Effects.{Env, World, destroy_session}
use radio_jockey.Bot.Isolation.{IsForeign}
use radio_jockey.Bot.Isolation.Playing.{lookup-IsForeign, begin_stream-Keeps}
use radio_jockey.Bot.Isolation.Events.{on_event-foreign}
use radio_jockey.Bot.Keeping.{
  IsQuiet, call-Keeps, call_authorized-Keeps, send-Keeps, info-Keeps, error-Keeps,
  destroy_session-Keeps, destroy_connection-Keeps,
}
use radio_jockey.Bot.Playback.{Playback, await_ready, join_channel, begin_stream}
use radio_jockey.Bot.Sessions.{Sessions, set_auth_token}
use radio_jockey.Bot.Threads.{Op, Thread, pure, throw, doing, is_awaited, exec, advance, resume}
use radio_jockey.Bot.Threads.Contract.{Post, Follows, IsOn}
use radio_jockey.Bot.Threads.Contract.Dispatch.{Handled, on_interaction-Obeys}
use radio_jockey.Bot.Threads.Play.{on_interaction}
use radio_jockey.Bot.Threads.System.{
  Running, Bot, place, played, replied_by, alone, interacted, resumed, Step, interact, settle,
  happen, move, owner, Reach, starting,
}
use radio_jockey.Bot.Threads.System.Segments.{exec-Possible}
use radio_jockey.Bot.Threads.System.Sound.{
  All-split, IsWaiting, IsSound, Reach-IsSound, starting-IsSound,
}

module _ {S : Type 0} (env : Env S) {P : Sessions → Type 0} (quiet : IsQuiet env P) (id : Text)
    (foreign : IsForeign id P) where
  exec-Keeps : (o : Op) (w : World S) → IsOn id o → P w.sessions → P (exec env o w).1.sessions
  unfolding exec await_ready join_channel BotAuth.sign_nonce
  exec-Keeps (Op.call method request) w on h = (call-Keeps env quiet _ request).kept w h
  exec-Keeps (Op.call_authorized method request token) w on h =
      (call_authorized-Keeps env quiet _ request token).kept w h
  exec-Keeps (Op.reply content) w on h = (send-Keeps env quiet content).kept w h
  exec-Keeps (Op.follow_up content) w on h = (send-Keeps env quiet content).kept w h
  exec-Keeps (Op.await_ready connection) w on h = quiet _ w.sessions h
  exec-Keeps (Op.info message metadata) w on h = (info-Keeps {P = P} message metadata).kept w h
  exec-Keeps (Op.error message metadata) w on h = (error-Keeps {P = P} message metadata).kept w h
  exec-Keeps (Op.sign_nonce _) w on h = h
  exec-Keeps (Op.get_auth_token _) w on h = h
  exec-Keeps (Op.set_auth_token session_id token) w on h =
      subst (λ s. P (set_auth_token s token w.sessions)) (sym on)
        (foreign.tokened token w.sessions h)
  exec-Keeps (Op.has_session _) w on h = h
  exec-Keeps (Op.destroy_session session_id) w on h =
      subst (λ s. P (destroy_session env s w).1.sessions) (sym on)
        ((destroy_session-Keeps env id foreign.erased).kept w h)
  exec-Keeps (Op.join_channel _) w on h = h
  exec-Keeps (Op.destroy_connection connection) w on h =
      (destroy_connection-Keeps {P = P} env connection).kept w h
  exec-Keeps (Op.begin_stream session_id stream_url connection) w on h =
      subst (λ s. P (begin_stream env s stream_url connection w).1.sessions) (sym on)
        ((begin_stream-Keeps env quiet foreign stream_url connection).kept w h)

  module _ {A : Type 0} (Q : Post A) where
    advance-Keeps :
        (p : Thread A) (b : Bool) (n : ℕ) (w : World S)
        → Follows id b n p Q
        → P w.sessions
        → P (advance env p w).1.sessions
    unfolding advance Follows
    advance-Keeps (pure a) b n w f h = h
    advance-Keeps (throw e) b n w f h = h
    advance-Keeps (doing o k) b n w (on, timely, left, f) h = elim (Bool-cases (is_awaited o)) [
      | inl awaited ↦ rw awaited h
      | inr at_once ↦ rw at_once (
          advance-Keeps (k (exec env o w).0) _ _ (exec env o w).1
            (f (exec env o w).0 (exec-Possible env o w)) (exec-Keeps o w on h))
    ]

    resume-Keeps :
        (p : Thread A) (b : Bool) (n : ℕ) (w : World S)
        → Follows id b n p Q
        → P w.sessions
        → P (resume env p w).1.sessions
    unfolding resume Follows
    resume-Keeps (pure a) b n w f h = h
    resume-Keeps (throw e) b n w f h = h
    resume-Keeps (doing o k) b n w (on, timely, left, f) h =
        advance-Keeps (k (exec env o w).0) _ _ (exec env o w).1
          (f (exec env o w).0 (exec-Possible env o w)) (exec-Keeps o w on h)

module _ {S : Type 0} where
  pub world-place :
      (id : Text) (replied : Bool) (settled : ℕ) (r : Thread (Option Playback) × World S)
      (before after : List Running) (playbacks : List Playback)
      → (place id replied settled r before after playbacks).world ≡ r.1
  unfolding place
  world-place id replied settled (pure none, w) before after playbacks = refl
  world-place id replied settled (pure (some p), w) before after playbacks = refl
  world-place id replied settled (throw e, w) before after playbacks = refl
  world-place id replied settled (doing o k, w) before after playbacks = refl

  module _ (env : Env S) (other : Text) (b : Bot S) where
    abbrev IsSame : Sessions → Type 0
    IsSame m = lookup other m ≡ lookup other b.world.sessions

    quiet : IsQuiet (alone env) IsSame
    quiet s m h = h

    foreign : (id : Text) → id ≢ other → IsForeign id IsSame
    foreign id ne = lookup-IsForeign id other (lookup other b.world.sessions) ne

    step_foreign :
        {c : Bot S} (s : Step env b c)
        → IsSound b
        → owner env s ≢ some other
        → IsSame c.world.sessions
    unfolding interacted resumed played
    step_foreign (interact is_chat_input name i) sound ne =
        ap (λ w. lookup other w.sessions)
          (world-place (get_session_id env i) false 0
            (advance (alone env) (on_interaction env is_chat_input name i) b.world) [] b.running
            b.playbacks)
        ∙ advance-Keeps (alone env) quiet (get_session_id env i)
            (foreign (get_session_id env i) (λ e. ne (ap some e))) (Handled (get_session_id env i))
            (on_interaction env is_chat_input name i) false 7 b.world
            (on_interaction-Obeys env i name 7 (omega arith) is_chat_input).follows refl
    step_foreign (settle before after t at) sound ne =
        let (us, w, vs) =
          All-split IsWaiting before t after (subst (All IsWaiting) at sound.running) in
        ap (λ w. lookup other w.sessions)
          (world-place t.session_id (replied_by t.thread t.replied) (suc t.settled)
            (resume (alone env) t.thread b.world) before after b.playbacks)
        ∙ resume-Keeps (alone env) quiet t.session_id (foreign t.session_id (λ e. ne (ap some e)))
            (Handled t.session_id) t.thread t.replied (7 - t.settled) b.world w.follows refl
    step_foreign (happen before after p e at on) sound ne =
        on_event-foreign (alone env) e p other (lookup other b.world.sessions) b.world
          (λ e. ne (ap some e)) quiet refl
    step_foreign (move s) sound ne = refl

-- However the bot has come to be where it is from a start without sessions, a step that is none of
-- a guild, neither an interaction of it nor an answer to one of its handlers nor an event of one
-- of its playbacks, leaves what the table of sessions has under the session id of that guild.
pub other_guilds :
    {S : Type 0} (env : Env S) (w : World S) (other : Text) {b c : Bot S}
    → Reach env (starting w) b
    → (s : Step env b c) → owner env s ≢ some other
    → lookup other c.world.sessions ≡ lookup other b.world.sessions
other_guilds env w other {b = b} r s ne =
    step_foreign env other b s (Reach-IsSound env (starting-IsSound env w) r) ne
