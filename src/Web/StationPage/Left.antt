-- ===== src/Web/StationPage/Left.antt =====
-- web/src/routes/stations/[sessionId]/+page.svelte: the media session when the page has been left.
use radio_jockey.Base.{Bool, true, false, none, Text, ◌≡◌, refl, sym, ap, ◌∙◌, arith}
use mathlib.Core.Path.{subst}
use radio_jockey.Web.Machine.{System, Reach, after_act}
use radio_jockey.Web.Machine.Runs.{Reach-keeps}
use radio_jockey.Web.Player as Player
use radio_jockey.Web.Player.{PlaybackState, show, press_play, press_stop, slide}
use radio_jockey.Web.Station as Station
use radio_jockey.Web.Station.{
  type_url, submit, press_refresh, press_skip, track_added, poll, leave, press_remove,
}
use radio_jockey.Web.Station.Urls.{resume_url}
use radio_jockey.Web.StationPage.{
  Page, Task, Answer, of_station, of_panel, Event, at_station, at_panel, at_player, unmounted,
  is_added, on_added, act, resume, enabled, page,
}

-- A page that has been left, and what it has told the media session.
pub record IsLeft (playing : Bool) (told : PlaybackState) (p : Page) : Type 0 where
  pub gone : p.station.gone ≡ true
  pub silent : p.player.audio_el ≡ none
  pub button : p.player.playing ≡ playing
  pub state : p.player.playback_state ≡ told

module _ (media_session : Bool) (session_id : Text) (playing : Bool) (told : PlaybackState) where
  abbrev Left : Page → Type 0
  Left = IsLeft playing told

  same_player :
      (q : Player.Player) (p : Page) → q ≡ p.player → Left p → Left (record p { player = q })
  same_player q p e h = record {
    gone = h.gone;
    silent = ap (λ r. r.audio_el) e ∙ h.silent;
    button = ap (λ r. r.playing) e ∙ h.button;
    state = ap (λ r. r.playback_state) e ∙ h.state;
  }

  acts :
      (e : Event) (p : Page)
      → enabled media_session session_id p e ≡ true
      → Left p
      → Left (act media_session session_id e p).0
  unfolding act enabled unmounted Station.act Player.on_event Player.play Player.stop
  acts (at_station poll) p on h = record {
    gone = h.gone;
    silent = h.silent;
    button = h.button;
    state = h.state;
  }
  acts (at_station track_added) p on h = absurd (ground arith)
  acts (at_station leave) p on h = absurd (ground (arith, h.gone))
  acts (at_station submit) p on h = absurd (ground (arith, h.gone))
  acts (at_station press_refresh) p on h = absurd (ground (arith, h.gone))
  acts (at_station press_skip) p on h = absurd (ground (arith, h.gone))
  acts (at_station (type_url value)) p on h = absurd (ground (arith, h.gone))
  acts (at_station (press_remove index)) p on h = absurd (ground (arith, h.gone))
  acts (at_panel e) p on h = absurd (ground (arith, h.gone))
  acts (at_player show) p on h = absurd (ground (arith, h.gone))
  acts (at_player press_play) p on h =
      same_player (Player.play media_session p.station.stream_url p.player) p
        (subst (λ el. Player.play_on media_session p.station.stream_url el p.player ≡ p.player)
          (sym h.silent) refl)
        h
  acts (at_player press_stop) p on h =
      same_player (Player.stop media_session p.station.stream_url p.player) p
        (subst (λ el. Player.stop_on media_session p.station.stream_url el p.player ≡ p.player)
          (sym h.silent) refl)
        h
  acts (at_player (slide v)) p on h = absurd (ground (arith, h.gone))

  told_gone : (b : Bool) (s : Station.Station) → (on_added session_id b s).0.gone ≡ s.gone
  unfolding on_added Station.act
  told_gone true s = refl
  told_gone false s = refl

  resumes :
      (t : Task) (a : Answer t) (p : Page) → Left p → Left (resume media_session session_id t a p).0
  unfolding resume
  resumes (of_station t) a p h = record {
    gone = (resume_url session_id t a p.station).1 ∙ h.gone;
    silent = h.silent;
    button = h.button;
    state = h.state;
  }
  resumes (of_panel t) a p h = record {
    gone = told_gone (is_added t a) p.station ∙ h.gone;
    silent = h.silent;
    button = h.button;
    state = h.state;
  }

-- The page at which one navigates away.
abbrev pub left :
    (media_session : Bool) (session_id : Text)
    → System (page media_session session_id)
    → System (page media_session session_id)
left media_session session_id u =
    after_act (page media_session session_id)
      (act media_session session_id (at_station leave) u.state) u.pending

-- When the page of a station has been left, whatever happens after that, it has no audio element,
-- its keys of the media session do nothing, and it does not take back what it has told the media
-- session: if it was playing when it was left, the state of the media session stays `playing`.
pub left_playing :
    (media_session : Bool) (session_id : Text) (u : System (page media_session session_id))
    {v : System (page media_session session_id)}
    → Reach (page media_session session_id) (left media_session session_id u) v
    → IsLeft u.state.player.playing u.state.player.playback_state v.state
unfolding act unmounted Station.act
left_playing media_session session_id u r =
    Reach-keeps (page media_session session_id)
      (IsLeft u.state.player.playing u.state.player.playback_state)
      (acts media_session session_id u.state.player.playing u.state.player.playback_state)
      (resumes media_session session_id u.state.player.playing u.state.player.playback_state) r
      (record { gone = refl; silent = refl; button = refl; state = refl })
