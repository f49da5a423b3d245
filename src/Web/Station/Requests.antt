-- ===== src/Web/Station/Requests.antt =====
-- web/src/routes/stations/[sessionId]/+page.svelte: what the page asks the server for.
use radio_jockey.Base.{◌≤◌, true, Text, pos, ◌≡◌, refl, arith, ok, thrown, All}
use radio_jockey.Web.Machine.{System, Reach}
use radio_jockey.Web.Machine.Runs.{Reach-All}
use radio_jockey.Web.Station.{
  Station, Task, get_session, list_queue, add_track, skip_track, remove_track, Answer, Event,
  type_url, submit, press_refresh, press_skip, track_added, poll, leave, press_remove, act, resume,
  enabled, on_mounted, handle_add_track, on_track_added, handle_refresh, handle_skip, on_skipped,
  handle_remove, on_removed, station, opened,
}

-- A call names the session of the page, and a removal an index behind the playing track, which is
-- that of the button.
abbrev pub IsAddressed : (session_id : Text) → Task → Type 0
IsAddressed id (get_session r) = r.session_id ≡ id
IsAddressed id (list_queue caller r) = r.session_id ≡ id
IsAddressed id (add_track r) = r.session_id ≡ id
IsAddressed id (skip_track r) = r.session_id ≡ id
IsAddressed id (remove_track index r) = (r.session_id ≡ id) × (r.index ≡ pos index) × (1 ≤ index)

module _ (session_id : Text) where
  act-IsAddressed :
      (e : Event) (s : Station)
      → enabled s e ≡ true
      → All (IsAddressed session_id) (act session_id e s).1
  unfolding act handle_add_track handle_refresh handle_skip handle_remove
  act-IsAddressed (type_url v) s on = tt
  act-IsAddressed submit s on = (refl, tt)
  act-IsAddressed press_refresh s on = (refl, tt)
  act-IsAddressed press_skip s on = (refl, tt)
  act-IsAddressed track_added s on = (refl, tt)
  act-IsAddressed poll s on = (refl, tt)
  act-IsAddressed leave s on = tt
  act-IsAddressed (press_remove i) s on = ((refl, refl, ground arith), tt)

  resume-IsAddressed :
      (t : Task) (a : Answer t) (s : Station)
      → All (IsAddressed session_id) (resume session_id t a s).1
  unfolding resume on_mounted on_track_added on_skipped on_removed
  resume-IsAddressed (get_session r) (ok res) s = (refl, tt)
  resume-IsAddressed (get_session r) (thrown err) s = tt
  resume-IsAddressed (list_queue caller r) o s = tt
  resume-IsAddressed (add_track r) (ok res) s = (refl, tt)
  resume-IsAddressed (add_track r) (thrown err) s = tt
  resume-IsAddressed (skip_track r) (ok res) s = (refl, tt)
  resume-IsAddressed (skip_track r) (thrown err) s = tt
  resume-IsAddressed (remove_track i r) (ok res) s = (refl, tt)
  resume-IsAddressed (remove_track i r) (thrown err) s = tt

  -- However a station page that was opened has come to be where it is, each of its pending calls
  -- names the session of the page, and a removal names the index of its button, which is at least
  -- 1, so never the playing track.
  pub Reach-IsAddressed :
      {u : System (station session_id)}
      → Reach (station session_id) (opened session_id) u
      → All (IsAddressed session_id) u.pending
  Reach-IsAddressed r =
      Reach-All (station session_id) (IsAddressed session_id) act-IsAddressed resume-IsAddressed r
        (refl, tt)
