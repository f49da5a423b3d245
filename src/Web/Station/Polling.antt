-- ===== src/Web/Station/Polling.antt =====
-- web/src/routes/stations/[sessionId]/+page.svelte: the timer of `pollHandle`.
use radio_jockey.Base.{Bool, true, false, List, [], Text, ◌≡◌, refl, arith, ok, thrown}
use radio_jockey.Proto.Messages.{Track}
use radio_jockey.Proto.Service.{Failure, connect_error, other_error, not_found}
use radio_jockey.Web.Machine.{System, Reach, here, step, happen, settle}
use radio_jockey.Web.Machine.Runs.{Reach-keeps}
use radio_jockey.Web.Station.{
  Station, Caller, mount, Task, get_session, list_queue, add_track, skip_track, remove_track,
  Answer, Event, poll, leave, act, resume, enabled, on_queue, finish, on_mounted, on_no_session,
  handle_add_track, on_track_added, handle_refresh, handle_skip, on_skipped, handle_remove,
  on_removed, is_silent, station, opened,
}

-- The page has been left, and its timer runs.
pub record IsLeaking (s : Station) : Type 0 where
  pub left : s.gone ≡ true
  pub ticking : s.polling ≡ true

module _ (session_id : Text) where
  act-IsLeaking :
      (e : Event) (s : Station)
      → enabled s e ≡ true
      → IsLeaking s
      → IsLeaking (act session_id e s).0
  unfolding act handle_add_track handle_refresh handle_skip handle_remove
  act-IsLeaking leave s on h = absurd (ground (arith, h.left))
  act-IsLeaking _ s on h = record { left = h.left; ticking = h.ticking }

  no_session-IsLeaking :
      (err : Failure) (s : Station) → IsLeaking s → IsLeaking (on_no_session err s)
  no_session-IsLeaking (connect_error not_found raw) s h = record {
    left = h.left;
    ticking = h.ticking;
  }
  no_session-IsLeaking (connect_error _ raw) s h = record { left = h.left; ticking = h.ticking }
  no_session-IsLeaking (other_error message) s h = record { left = h.left; ticking = h.ticking }

  finish-IsLeaking : (c : Caller) (s : Station) → IsLeaking s → IsLeaking (finish c s)
  unfolding finish
  finish-IsLeaking mount s h = record { left = h.left; ticking = refl }
  finish-IsLeaking _ s h = record { left = h.left; ticking = h.ticking }

  on_queue-IsLeaking :
      (silent : Bool) (o : Answer (list_queue mount (record { session_id = session_id })))
      (s : Station)
      → IsLeaking s
      → IsLeaking (on_queue silent o s)
  unfolding on_queue
  on_queue-IsLeaking silent (ok res) s h = record { left = h.left; ticking = h.ticking }
  on_queue-IsLeaking true (thrown err) s h = h
  on_queue-IsLeaking false (thrown err) s h = record { left = h.left; ticking = h.ticking }

  resume-IsLeaking :
      (t : Task) (a : Answer t) (s : Station) → IsLeaking s → IsLeaking (resume session_id t a s).0
  unfolding resume on_mounted on_track_added on_skipped on_removed finish
  resume-IsLeaking (get_session r) (ok res) s h = record { left = h.left; ticking = h.ticking }
  resume-IsLeaking (get_session r) (thrown err) s h = no_session-IsLeaking err s h
  resume-IsLeaking (list_queue c r) o s h =
      finish-IsLeaking c (on_queue (is_silent c) o s) (on_queue-IsLeaking (is_silent c) o s h)
  resume-IsLeaking (add_track r) (ok res) s h = record { left = h.left; ticking = h.ticking }
  resume-IsLeaking (add_track r) (thrown err) s h = record { left = h.left; ticking = h.ticking }
  resume-IsLeaking (skip_track r) (ok res) s h = h
  resume-IsLeaking (skip_track r) (thrown err) s h = record { left = h.left; ticking = h.ticking }
  resume-IsLeaking (remove_track i r) (ok res) s h = h
  resume-IsLeaking (remove_track i r) (thrown err) s h = record {
    left = h.left;
    ticking = h.ticking;
  }

  -- For any stream URL and tracks, a station page can come to be left with its timer running, and
  -- in whatever way it goes on from there, it is left and its timer runs.
  pub leaked_timer :
      (url : Text) (tracks : List Track)
      → (u : System (station session_id)) × Reach (station session_id) (opened session_id) u
        × ((v : System (station session_id))
            → Reach (station session_id) u v
            → IsLeaking v.state × (enabled v.state poll ≡ true))
  unfolding resume on_mounted finish on_queue act
  leaked_timer url tracks =
      let mounted = step here (
        settle [] [] (get_session (record { session_id = session_id }))
          (ok (record { stream_url = url })) refl) in
      let left = step mounted (happen leave refl) in
      let listed = step left (
        settle [] [] (list_queue mount (record { session_id = session_id }))
          (ok (record { tracks = tracks })) refl) in
      (
        _,
        listed,
        λ v r.
            let leaking =
              Reach-keeps (station session_id) IsLeaking act-IsLeaking resume-IsLeaking r
                (record { left = refl; ticking = refl }) in
            (leaking, leaking.ticking),
      )
