-- ===== src/Web/Station/Messages.antt =====
-- web/src/routes/stations/[sessionId]/+page.svelte, `generalError`.
use radio_jockey.Base.{Bool, true, false, Text, ◌≡◌, refl, ok, thrown, Outcome}
use radio_jockey.Proto.Messages.{ListQueueResponse}
use radio_jockey.Proto.Service.{Failure, connect_error, other_error, not_found}
use radio_jockey.Web.Errors.{friendly_error, generic_error}
use radio_jockey.Web.Machine.{System, Reach}
use radio_jockey.Web.Machine.Runs.{Reach-keeps}
use radio_jockey.Web.Station.{
  Station, Caller, mount, Task, get_session, list_queue, add_track, skip_track, remove_track,
  Answer, Event, leave, act, resume, enabled, on_queue, finish, on_mounted, on_no_session,
  handle_add_track, on_track_added, handle_refresh, handle_skip, on_skipped, handle_remove,
  on_removed, is_silent, station,
}

-- The page says that something went wrong.
abbrev pub IsAlarmed : Station → Type 0
IsAlarmed s = s.general_error ≡ generic_error

module _ (session_id : Text) where
  act-IsAlarmed :
      (e : Event) (s : Station)
      → enabled s e ≡ true
      → IsAlarmed s
      → IsAlarmed (act session_id e s).0
  unfolding act handle_add_track handle_refresh handle_skip handle_remove
  act-IsAlarmed leave s on h = h
  act-IsAlarmed _ s on h = h

  no_session-IsAlarmed :
      (err : Failure) (s : Station) → IsAlarmed s → IsAlarmed (on_no_session err s)
  unfolding friendly_error
  no_session-IsAlarmed (connect_error not_found raw) s h = h
  no_session-IsAlarmed (connect_error _ raw) s h = refl
  no_session-IsAlarmed (other_error message) s h = refl

  finish-IsAlarmed : (c : Caller) (s : Station) → IsAlarmed s → IsAlarmed (finish c s)
  unfolding finish
  finish-IsAlarmed mount s h = h
  finish-IsAlarmed _ s h = h

  on_queue-IsAlarmed :
      (silent : Bool) (o : Outcome Failure ListQueueResponse) (s : Station)
      → IsAlarmed s
      → IsAlarmed (on_queue silent o s)
  unfolding on_queue friendly_error
  on_queue-IsAlarmed silent (ok res) s h = h
  on_queue-IsAlarmed true (thrown err) s h = h
  on_queue-IsAlarmed false (thrown err) s h = refl

  resume-IsAlarmed :
      (t : Task) (a : Answer t) (s : Station) → IsAlarmed s → IsAlarmed (resume session_id t a s).0
  unfolding resume on_mounted on_track_added on_skipped on_removed finish friendly_error
  resume-IsAlarmed (get_session r) (ok res) s h = h
  resume-IsAlarmed (get_session r) (thrown err) s h = no_session-IsAlarmed err s h
  resume-IsAlarmed (list_queue c r) o s h =
      finish-IsAlarmed c (on_queue (is_silent c) o s) (on_queue-IsAlarmed (is_silent c) o s h)
  resume-IsAlarmed (add_track r) (ok res) s h = h
  resume-IsAlarmed (add_track r) (thrown err) s h = h
  resume-IsAlarmed (skip_track r) (ok res) s h = h
  resume-IsAlarmed (skip_track r) (thrown err) s h = refl
  resume-IsAlarmed (remove_track i r) (ok res) s h = h
  resume-IsAlarmed (remove_track i r) (thrown err) s h = refl

  -- x
  pub alarm_stays :
      {s u : System (station session_id)}
      → Reach (station session_id) s u
      → IsAlarmed s.state
      → IsAlarmed u.state
  alarm_stays r = Reach-keeps (station session_id) IsAlarmed act-IsAlarmed resume-IsAlarmed r
