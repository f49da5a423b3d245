-- ===== src/Web/StationPage/Tuned.antt =====
-- web/src/routes/stations/[sessionId]/+page.svelte: the stream that the page plays.
use radio_jockey.Base.{
  ◌+◌, ◌≤◌, Bool, true, false, is_nonempty, Option, none, some, ◌∷◌, ◌++◌, Text, ◌≡◌, refl, sym, ap,
  ◌∙◌, arith, inl, inr,
}
use mathlib.Core.Path.{subst}
use radio_jockey.Web.Machine.{System, Step, happen, settle, Reach, here, step, bit, total}
use radio_jockey.Web.Machine.Runs.{total-middle}
use radio_jockey.Web.Player as Player
use radio_jockey.Web.Player.{Audio, show, press_play, press_stop, slide}
use radio_jockey.Web.Player.Wiring.{IsWired, Agrees, on_event-IsWired}
use radio_jockey.Web.Station as Station
use radio_jockey.Web.Station.{
  type_url, submit, press_refresh, press_skip, track_added, poll, leave, press_remove,
}
use radio_jockey.Web.Station.Urls.{sessions, resume_url, Reach-HasOneUrl}
use radio_jockey.Web.StationPage.{
  Page, of_station, of_panel, at_station, at_panel, at_player, unmounted, is_added, on_added, act,
  resume, enabled, page, opened,
}
use radio_jockey.Web.StationPage.Parts.{station_tasks, station_append, Reach-parts}

-- Before there is a URL, and when the page has been left, there is no audio element; in between the
-- player is as its buttons say.
pub record IsTuned (url : Text) (gone : Bool) (p : Player.Player) : Type 0 where
  pub silent : is_nonempty url ≡ false → p.audio_el ≡ none
  pub left : gone ≡ true → p.audio_el ≡ none
  pub wired : gone ≡ false → IsWired url p

abbrev pub Tuned : Page → Type 0
Tuned p = IsTuned p.station.stream_url p.station.gone p.player

-- Without an element the URL does not matter.
without_element :
    (url other : Text) (el : Option Audio) (p : Player.Player)
    → el ≡ none
    → Agrees url el p.playing p.gain
    → Agrees other el p.playing p.gain
without_element url other none p e h = h
without_element url other (some el) p e h = absurd (ground (arith, e))

retuned :
    (url other : Text) (gone : Bool) (p : Player.Player)
    → is_nonempty url ≡ false
    → IsTuned url gone p
    → IsTuned other gone p
retuned url other gone p empty h =
    let quiet = h.silent empty in
    record {
      silent = λ e. quiet;
      left = h.left;
      wired = λ e. record {
        one_graph = (h.wired e).one_graph;
        agrees = without_element url other p.audio_el p quiet (h.wired e).agrees;
      };
    }

module _ (media_session : Bool) (session_id : Text) where
  -- Where the element stands in the markup, whatever the event.
  shown_Tuned :
      (e : Player.Event) (url : Text) (gone : Bool) (p : Player.Player)
      → is_nonempty url ≡ true
      → gone ≡ false
      → IsTuned url gone p
      → IsTuned url gone (Player.on_event media_session url e p)
  shown_Tuned e url gone p streams present h = record {
    silent = λ empty. absurd (ground (arith, streams, empty));
    left = λ away. absurd (ground (arith, present, away));
    wired = λ _. on_event-IsWired media_session url e p (h.wired present);
  }

  -- Without an element the event changes nothing.
  pressed_Tuned :
      (e : Player.Event) (url : Text) (gone : Bool) (p : Player.Player)
      → (p.audio_el ≡ none → Player.on_event media_session url e p ≡ p)
      → IsTuned url gone p
      → IsTuned url gone (Player.on_event media_session url e p)
  pressed_Tuned e url gone p idle h = record {
    silent = λ empty. ap (λ q. q.audio_el) (idle (h.silent empty)) ∙ h.silent empty;
    left = λ away. ap (λ q. q.audio_el) (idle (h.left away)) ∙ h.left away;
    wired = λ present. on_event-IsWired media_session url e p (h.wired present);
  }

  player_Tuned :
      (e : Player.Event) (p : Page)
      → enabled media_session session_id p (at_player e) ≡ true
      → Tuned p
      → Tuned (act media_session session_id (at_player e) p).0
  unfolding act enabled Player.on_event Player.play Player.stop
  player_Tuned show p on h =
      shown_Tuned show p.station.stream_url p.station.gone p.player (ground arith) (ground arith) h
  player_Tuned press_play p on h =
      pressed_Tuned press_play p.station.stream_url p.station.gone p.player
        (λ e.
          subst (λ el. Player.play_on media_session p.station.stream_url el p.player ≡ p.player)
            (sym e) refl)
        h
  player_Tuned press_stop p on h =
      pressed_Tuned press_stop p.station.stream_url p.station.gone p.player
        (λ e.
          subst (λ el. Player.stop_on media_session p.station.stream_url el p.player ≡ p.player)
            (sym e) refl)
        h
  player_Tuned (slide v) p on h =
      shown_Tuned (slide v) p.station.stream_url p.station.gone p.player (ground arith)
        (ground arith) h

  station_Tuned :
      (e : Station.Event) (p : Page)
      → Tuned p
      → Tuned (act media_session session_id (at_station e) p).0
  unfolding act unmounted Station.act Station.handle_add_track Station.handle_refresh
      Station.handle_skip Station.handle_remove
  station_Tuned leave p h = record {
    silent = λ e. refl;
    left = λ e. refl;
    wired = λ present. absurd (ground arith);
  }
  station_Tuned (type_url value) p h = h
  station_Tuned (press_remove index) p h = h
  station_Tuned submit p h = h
  station_Tuned press_refresh p h = h
  station_Tuned press_skip p h = h
  station_Tuned track_added p h = h
  station_Tuned poll p h = h

  told_Tuned :
      (b : Bool) (s : Station.Station) (q : Player.Player)
      → IsTuned s.stream_url s.gone q
      → IsTuned (on_added session_id b s).0.stream_url (on_added session_id b s).0.gone q
  unfolding on_added Station.act
  told_Tuned true s q h = h
  told_Tuned false s q h = h

  Step-Tuned :
      {u v : System (page media_session session_id)}
      → Step (page media_session session_id) u v
      → bit (is_nonempty u.state.station.stream_url) + total sessions (station_tasks u.pending) ≤ 1
      → Tuned u.state
      → Tuned v.state
  unfolding act resume enabled
  Step-Tuned {u} (happen (at_station e) on) one h = station_Tuned e u.state h
  Step-Tuned {u} (happen (at_panel e) on) one h = h
  Step-Tuned {u} (happen (at_player e) on) one h = player_Tuned e u.state on h
  Step-Tuned {u} (settle before after (of_panel t) a e) one h =
      told_Tuned (is_added t a) u.state.station u.state.player h
  Step-Tuned {u} (settle before after (of_station t) a e) one h =
      let s = u.state.station in
      let (url, gone, _) = resume_url session_id t a s in
      let parts : total sessions (station_tasks u.pending)
          ≡ sessions t + total sessions (station_tasks before ++ station_tasks after) =
        ap (total sessions) (ap station_tasks e ∙ station_append before (of_station t ∷ after))
        ∙ total-middle sessions t (station_tasks before) (station_tasks after) in
      subst (λ g. IsTuned (Station.resume session_id t a s).0.stream_url g u.state.player)
        (sym gone)
        (elim url [
          | inl first ↦
              retuned s.stream_url (Station.resume session_id t a s).0.stream_url s.gone
                u.state.player (ground (arith, first, one, parts)) h
          | inr same ↦ subst (λ w. IsTuned w s.gone u.state.player) (sym same) h
        ])

  Reach-Tuned :
      {u : System (page media_session session_id)}
      → Reach (page media_session session_id) (opened media_session session_id) u
      → Tuned u.state
  Reach-Tuned here = record {
    silent = λ e. refl;
    left = λ e. refl;
    wired = λ e. record { one_graph = refl; agrees = (refl, refl) };
  }
  Reach-Tuned (step r s) =
      Step-Tuned s (Reach-HasOneUrl session_id (Reach-parts media_session session_id r).0)
        (Reach-Tuned r)

  -- However the page of a station has come to be where it is after it was opened, by its buttons,
  -- the keys of the media session, the search panel and the answers to its calls: as long as it
  -- has not been left, `createMediaElementSource` has been called once if there is a gain node and
  -- never if there is none; without an audio element it is not playing and has no gain node; with
  -- one, either it says that it plays, and the element was told to play the stream that the page
  -- now has the URL of, with a gain node, or it says that it does not, and the element is paused
  -- without a source.
  pub Reach-IsWired :
      {u : System (page media_session session_id)}
      → Reach (page media_session session_id) (opened media_session session_id) u
      → u.state.station.gone ≡ false
      → IsWired u.state.station.stream_url u.state.player
  Reach-IsWired r = (Reach-Tuned r).wired
