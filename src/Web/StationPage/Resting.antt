-- ===== src/Web/StationPage/Resting.antt =====
-- web/src/routes/stations/[sessionId]/+page.svelte: how the waits of the page as a whole end.
use radio_jockey.Base.{
  ℕ, ◌+◌, ◌<◌, Bool, List, [], ◌∷◌, map, Text, ◌≡◌, refl, ap, arith, ok, thrown,
}
use radio_jockey.Web.Machine.{System, Reach, total}
use radio_jockey.Web.Machine.Settling.{ComesToRest, Reach-ComesToRest}
use radio_jockey.Web.Station as Station
use radio_jockey.Web.Station.Waiting as StationWaiting
use radio_jockey.Web.YouTubeSearch.{search, add}
use radio_jockey.Web.YouTubeSearch as YouTubeSearch
use radio_jockey.Web.YouTubeSearch.Waiting as PanelWaiting
use radio_jockey.Web.StationPage.{
  Page, Task, of_station, of_panel, Answer, is_added, on_added, resume, page, opened,
}
use radio_jockey.Web.StationPage.Parts.{station_tasks, panel_tasks, Reach-parts}

-- An add of the panel may be followed by a fetch of the queue.
pub weight : Task → ℕ
weight (of_station t) = StationWaiting.weight t
weight (of_panel (search query turn)) = 1
weight (of_panel (add request video_id)) = 2

pub record IsIdle (p : Page) : Type 0 where
  pub station : StationWaiting.IsIdle p.station
  pub panel : PanelWaiting.IsIdle p.panel

weight_station :
    (ts : List Station.Task) → total weight (map of_station ts) ≡ total StationWaiting.weight ts
unfolding weight
weight_station [] = refl
weight_station (t ∷ ts) = ap (λ n. StationWaiting.weight t + n) (weight_station ts)

module _ (media_session : Bool) (session_id : Text) where
  falls :
      (t : Task) (a : Answer t) (p : Page)
      → total weight (resume media_session session_id t a p).1 < weight t
  unfolding resume weight on_added is_added Station.act YouTubeSearch.resume StationWaiting.weight
  falls (of_station t) a p = omega (
    arith,
    weight_station (Station.resume session_id t a p.station).1,
    StationWaiting.falls session_id t a p.station,
  )
  falls (of_panel (search query turn)) a p = omega arith
  falls (of_panel (add request video_id)) (ok response) p = omega arith
  falls (of_panel (add request video_id)) (thrown err) p = omega arith

  -- However the page of a station, with its audio player and the search panel in it, has come to
  -- be where it is after it was opened: without a new event no more calls can settle than the
  -- pending calls weigh, whatever they are answered by and in whatever order, where a fetch of the
  -- queue and a search weigh one and any other call two; once none is pending, no button of the
  -- page or the panel is marked as loading, and the page has loaded its queue, or says that the
  -- station does not exist, or shows an error; and if every call can be answered, that is reached.
  pub page-ComesToRest :
      (u : System (page media_session session_id))
      → Reach (page media_session session_id) (opened media_session session_id) u
      → ComesToRest (page media_session session_id) weight IsIdle u
  page-ComesToRest u r =
      Reach-ComesToRest (page media_session session_id) weight IsIdle falls
        (opened media_session session_id) u
        (λ v q e.
          let (station, panel) = Reach-parts media_session session_id q in
          record {
            station = StationWaiting.at_rest session_id station (ap station_tasks e);
            panel = PanelWaiting.at_rest session_id panel (ap panel_tasks e);
          })
        r
