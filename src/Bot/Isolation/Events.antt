-- ===== src/Bot/Isolation/Events.antt =====
-- discord-jockey/src/discord/command/play.ts, the listeners of `startPlayback`: what they do to the
-- sessions of other guilds.
use radio_jockey.Base.{Text, Option, ◌≡◌, ◌≢◌, ok, thrown, Outcome, if-intro, lookup}
use radio_jockey.Proto.Service.{Failure}
use radio_jockey.Bot.Sessions.{Session, Sessions}
use radio_jockey.Bot.Effects.{Env, World, destroy_session, warn, info, error}
use radio_jockey.Bot.Playback.{
  Playback, Event, player_error, player_idle, stream_end, stream_error, readable, Played,
  start_stream, torn_down, stop, and_say, leave, reconnect, on_event,
}
use radio_jockey.Bot.Keeping.{IsQuiet, destroy_session-Keeps, send-Keeps}
use radio_jockey.Bot.Isolation.{IsForeign}
use radio_jockey.Bot.Isolation.Playing.{lookup-IsForeign}

module _ {S : Type 0} (env : Env S) {P : Sessions → Type 0} (quiet : IsQuiet env P) where
  -- What an event leaves of the table.
  abbrev left : Played S → Sessions
  left r = r.2.sessions

  torn_down-Keeps :
      (p : Playback) (r : Outcome Failure (Unit {0}) × World S)
      → P r.1.sessions
      → P (left (torn_down env p r))
  torn_down-Keeps p (ok u, w) h = h
  torn_down-Keeps p (thrown e, w) h = h

  and_say-Keeps : (t : Text) (r : Played S) → P (left r) → P (left (and_say env t r))
  and_say-Keeps t (ok u, p, w) h = (send-Keeps env quiet t).kept w h
  and_say-Keeps t (thrown e, p, w) h = h

  module _ (p : Playback) (foreign : IsForeign p.session_id P) where
    stop-Keeps : (w : World S) → P w.sessions → P (left (stop env p w))
    unfolding stop
    stop-Keeps w h =
        if-intro (λ (r : Played S). P (left r)) p.stopped (λ _. h)
          (λ _.
            torn_down-Keeps p (destroy_session env p.session_id w)
              ((destroy_session-Keeps env p.session_id foreign.erased).kept w h))

    leave-Keeps : (t : Text) (w : World S) → P w.sessions → P (left (leave env t p w))
    unfolding leave
    leave-Keeps t w h = and_say-Keeps t (stop env p w) (stop-Keeps w h)

    on_event-Keeps : (e : Event) (w : World S) → P w.sessions → P (left (on_event env e p w))
    unfolding on_event reconnect start_stream warn info error
    on_event-Keeps (player_error err) w h =
        if-intro (λ (r : Played S). P (left r)) p.stopped (λ _. h)
          (λ _. foreign.buffered _ w.sessions h)
    on_event-Keeps player_idle w h =
        if-intro (λ (r : Played S). P (left r)) p.stopped (λ _. h)
          (λ _. foreign.buffered _ w.sessions h)
    on_event-Keeps (stream_end request) w h = leave-Keeps _ _ h
    on_event-Keeps (stream_error request err) w h = leave-Keeps _ _ h
    on_event-Keeps (readable buffer) w h = h

-- Whatever event a playback answers, what the table of sessions has under an id that is not the
-- session id of the playback is afterwards what it was, if the other handlers leave that as it is
-- while a message is awaited.
pub on_event-foreign :
    {S : Type 0} (env : Env S) (e : Event) (p : Playback) (other : Text) (found : Option Session)
    (w : World S)
    → p.session_id ≢ other
    → IsQuiet env (λ m. lookup other m ≡ found)
    → lookup other w.sessions ≡ found
    → lookup other (on_event env e p w).2.sessions ≡ found
on_event-foreign env e p other found w ne quiet h =
    on_event-Keeps env quiet p (lookup-IsForeign p.session_id other found ne) e w h
