-- ===== src/Web/StationPage/Parts.antt =====
-- web/src/routes/stations/[sessionId]/+page.svelte: what each part of the page sees of a run.
use radio_jockey.Base.{
  Bool, true, false, List, [], ◌∷◌, ◌++◌, map, Text, ◌≡◌, refl, sym, ap, ◌∙◌, arith,
}
use mathlib.Core.Path.{subst}
use radio_jockey.Web.Machine.{System, Step, happen, settle, Reach, here, step}
use radio_jockey.Web.Station as Station
use radio_jockey.Web.Station.{
  type_url, submit, press_refresh, press_skip, track_added, poll, leave, press_remove,
}
use radio_jockey.Web.YouTubeSearch as YouTubeSearch
use radio_jockey.Web.StationPage.{
  Page, Task, of_station, of_panel, at_station, at_panel, at_player, is_added, on_added, act,
  resume, enabled, page, opened,
}

abbrev pub station_tasks : List Task → List Station.Task
station_tasks [] = []
station_tasks (of_station t ∷ ts) = t ∷ station_tasks ts
station_tasks (of_panel t ∷ ts) = station_tasks ts

abbrev pub panel_tasks : List Task → List YouTubeSearch.Task
panel_tasks [] = []
panel_tasks (of_station t ∷ ts) = panel_tasks ts
panel_tasks (of_panel t ∷ ts) = t ∷ panel_tasks ts

pub station_append :
    (xs ys : List Task) → station_tasks (xs ++ ys) ≡ station_tasks xs ++ station_tasks ys
station_append [] ys = refl
station_append (of_station t ∷ xs) ys = ap (λ ts. t ∷ ts) (station_append xs ys)
station_append (of_panel t ∷ xs) ys = station_append xs ys

panel_append : (xs ys : List Task) → panel_tasks (xs ++ ys) ≡ panel_tasks xs ++ panel_tasks ys
panel_append [] ys = refl
panel_append (of_station t ∷ xs) ys = panel_append xs ys
panel_append (of_panel t ∷ xs) ys = ap (λ ts. t ∷ ts) (panel_append xs ys)

station_own :
    (ts : List Station.Task) (ys : List Task)
    → station_tasks (map of_station ts ++ ys) ≡ ts ++ station_tasks ys
station_own [] ys = refl
station_own (t ∷ ts) ys = ap (λ us. t ∷ us) (station_own ts ys)

station_other :
    (ts : List YouTubeSearch.Task) (ys : List Task)
    → station_tasks (map of_panel ts ++ ys) ≡ station_tasks ys
station_other [] ys = refl
station_other (t ∷ ts) ys = station_other ts ys

panel_own :
    (ts : List YouTubeSearch.Task) (ys : List Task)
    → panel_tasks (map of_panel ts ++ ys) ≡ ts ++ panel_tasks ys
panel_own [] ys = refl
panel_own (t ∷ ts) ys = ap (λ us. t ∷ us) (panel_own ts ys)

panel_other :
    (ts : List Station.Task) (ys : List Task)
    → panel_tasks (map of_station ts ++ ys) ≡ panel_tasks ys
panel_other [] ys = refl
panel_other (t ∷ ts) ys = panel_other ts ys

station_both :
    (fs : List Station.Task) (ts : List YouTubeSearch.Task) (ys : List Task)
    → station_tasks ((map of_station fs ++ map of_panel ts) ++ ys) ≡ fs ++ station_tasks ys
station_both [] ts ys = station_other ts ys
station_both (f ∷ fs) ts ys = ap (λ us. f ∷ us) (station_both fs ts ys)

panel_both :
    (fs : List Station.Task) (ts : List YouTubeSearch.Task) (ys : List Task)
    → panel_tasks ((map of_station fs ++ map of_panel ts) ++ ys) ≡ ts ++ panel_tasks ys
panel_both [] ts ys = panel_own ts ys
panel_both (f ∷ fs) ts ys = panel_both fs ts ys

module _ (media_session : Bool) (session_id : Text) where
  abbrev pub Whole : Type 0
  Whole = System (page media_session session_id)

  abbrev pub station_part : Whole → System (Station.station session_id)
  station_part u = record { state = u.state.station; pending = station_tasks u.pending }

  abbrev pub panel_part : Whole → System (YouTubeSearch.panel session_id)
  panel_part u = record { state = u.state.panel; pending = panel_tasks u.pending }

  abbrev StationReaches : Station.Station → List Station.Task → Type 0
  StationReaches s ts =
      Reach (Station.station session_id) (Station.opened session_id)
        (record { state = s; pending = ts })

  abbrev PanelReaches : YouTubeSearch.Panel → List YouTubeSearch.Task → Type 0
  PanelReaches q ts =
      Reach (YouTubeSearch.panel session_id) (record { state = YouTubeSearch.fresh; pending = [] })
        (record { state = q; pending = ts })

  station_enabled :
      (e : Station.Event) (p : Page)
      → enabled media_session session_id p (at_station e) ≡ true
      → Station.enabled p.station e ≡ true
  unfolding enabled
  station_enabled track_added p on = refl
  station_enabled (type_url value) p on = on
  station_enabled submit p on = on
  station_enabled press_refresh p on = on
  station_enabled press_skip p on = on
  station_enabled poll p on = on
  station_enabled leave p on = on
  station_enabled (press_remove index) p on = on

  panel_enabled :
      (e : YouTubeSearch.Event) (p : Page)
      → enabled media_session session_id p (at_panel e) ≡ true
      → YouTubeSearch.enabled p.panel e ≡ true
  unfolding enabled
  panel_enabled e p on = ground arith

  -- A call of `onAdded`, to the station.
  told :
      (b : Bool) (s : Station.Station) (ts : List Station.Task)
      → StationReaches s ts
      → StationReaches (on_added session_id b s).0 ((on_added session_id b s).1 ++ ts)
  unfolding on_added
  told true s ts r = step r (happen track_added refl)
  told false s ts r = r

  -- The station sees its own steps, and the tracks that the panel has added.
  station_step :
      {u v : Whole}
      → Step (page media_session session_id) u v
      → StationReaches u.state.station (station_tasks u.pending)
      → StationReaches v.state.station (station_tasks v.pending)
  unfolding act resume enabled
  station_step {u} (happen (at_station e) on) r =
      let (s, begun) = Station.act session_id e u.state.station in
      subst (StationReaches s) (sym (station_own begun u.pending))
        (step r (happen e (station_enabled e u.state on)))
  station_step {u} (happen (at_panel e) on) r =
      subst (StationReaches u.state.station)
        (sym (station_other (YouTubeSearch.act session_id e u.state.panel).1 u.pending)) r
  station_step {u} (happen (at_player e) on) r = r
  station_step {u} (settle before after (of_station t) a e) r =
      let (s, begun) = Station.resume session_id t a u.state.station in
      subst (StationReaches s)
        (sym (
          station_own begun (before ++ after)
          ∙ ap (λ ts. begun ++ ts) (station_append before after)))
        (step r (
          settle (station_tasks before) (station_tasks after) t a
            (ap station_tasks e ∙ station_append before (of_station t ∷ after))))
  station_step {u} (settle before after (of_panel t) a e) r =
      let (s, fetches) = on_added session_id (is_added t a) u.state.station in
      let same : station_tasks u.pending ≡ station_tasks (before ++ after) =
        ap station_tasks e
        ∙ station_append before (of_panel t ∷ after)
        ∙ sym (station_append before after) in
      subst (StationReaches s)
        (sym (station_both fetches (YouTubeSearch.resume t a u.state.panel).1 (before ++ after)))
        (told (is_added t a) u.state.station (station_tasks (before ++ after))
          (subst (StationReaches u.state.station) same r))

  panel_step :
      {u v : Whole}
      → Step (page media_session session_id) u v
      → PanelReaches u.state.panel (panel_tasks u.pending)
      → PanelReaches v.state.panel (panel_tasks v.pending)
  unfolding act resume enabled
  panel_step {u} (happen (at_station e) on) r =
      subst (PanelReaches u.state.panel)
        (sym (panel_other (Station.act session_id e u.state.station).1 u.pending)) r
  panel_step {u} (happen (at_panel e) on) r =
      let (q, begun) = YouTubeSearch.act session_id e u.state.panel in
      subst (PanelReaches q) (sym (panel_own begun u.pending))
        (step r (happen e (panel_enabled e u.state on)))
  panel_step {u} (happen (at_player e) on) r = r
  panel_step {u} (settle before after (of_station t) a e) r =
      let same : panel_tasks u.pending ≡ panel_tasks (before ++ after) =
        ap panel_tasks e
        ∙ panel_append before (of_station t ∷ after)
        ∙ sym (panel_append before after) in
      subst (PanelReaches u.state.panel)
        (same
          ∙ sym (panel_other (Station.resume session_id t a u.state.station).1 (before ++ after)))
        r
  panel_step {u} (settle before after (of_panel t) a e) r =
      let (q, begun) = YouTubeSearch.resume t a u.state.panel in
      subst (PanelReaches q)
        (sym (
          panel_both (on_added session_id (is_added t a) u.state.station).1 begun (before ++ after)
          ∙ ap (λ ts. begun ++ ts) (panel_append before after)))
        (step r (
          settle (panel_tasks before) (panel_tasks after) t a
            (ap panel_tasks e ∙ panel_append before (of_panel t ∷ after))))

  -- Whatever happens on the page of a station as a whole, of its variables and pending calls those
  -- of the station are ones that the station comes to by itself, where a track that the panel has
  -- added is an event of its own, and those of the search panel are ones that the panel comes to
  -- by itself.
  pub Reach-parts :
      {u : Whole}
      → Reach (page media_session session_id) (opened media_session session_id) u
      → Reach (Station.station session_id) (Station.opened session_id) (station_part u)
        × Reach
            (YouTubeSearch.panel session_id)
            (record { state = YouTubeSearch.fresh; pending = [] })
            (panel_part u)
  Reach-parts here = (here, here)
  Reach-parts (step r s) =
      let (station, panel) = Reach-parts r in (station_step s station, panel_step s panel)
