-- ===== src/Web/StationPage.antt =====
-- web/src/routes/stations/[sessionId]/+page.svelte: the page as a whole, with its audio player and
-- the search panel in it. `media_session` says that the browser has `navigator.mediaSession`, whose
-- action handlers go on calling `play` and `stop` when the page has been left.
pub mod Parts
pub mod Resting
pub mod Tuned
pub mod Left
pub mod Fetches
use radio_jockey.Base.{
  Bool, true, false, ◌&&◌, ◌||◌, not, none, List, [], ◌∷◌, ◌++◌, map, Text, is_nonempty, ok, thrown,
}
use radio_jockey.Web.Machine.{Machine, System}
use radio_jockey.Web.Player as Player
use radio_jockey.Web.Player.{show, press_play, press_stop, slide}
use radio_jockey.Web.Station as Station
use radio_jockey.Web.Station.{track_added, leave, is_open}
use radio_jockey.Web.YouTubeSearch as YouTubeSearch
use radio_jockey.Web.YouTubeSearch.{search, add}

pub record Page : Type 0 where
  pub station : Station.Station
  pub panel : YouTubeSearch.Panel
  pub player : Player.Player

pub data Task : Type 0 where
  of_station : Station.Task → Task
  of_panel : YouTubeSearch.Task → Task

abbrev pub Answer : Task → Type 0
Answer (of_station t) = Station.Answer t
Answer (of_panel t) = YouTubeSearch.Answer t

pub data Event : Type 0 where
  at_station : Station.Event → Event
  at_panel : YouTubeSearch.Event → Event
  at_player : Player.Event → Event

-- `bind:this` of the audio element when the page is left.
unfoldable pub unmounted : Station.Event → Player.Player → Player.Player
unmounted leave p = record p { audio_el = none }
unmounted _ p = p

-- `handleAdd` calls `onAdded` when the server has added the track.
unfoldable pub is_added : (t : YouTubeSearch.Task) → YouTubeSearch.Answer t → Bool
is_added (search query turn) fetched = false
is_added (add request video_id) (ok response) = true
is_added (add request video_id) (thrown err) = false

-- The element and its controls stand in the markup.
abbrev pub has_player : Page → Bool
has_player p = is_open p.station && is_nonempty p.station.stream_url

-- `onAdded={() => fetchQueue({ silent: true })}`.
unfoldable pub on_added :
    (session_id : Text) → Bool → Station.Station → Station.Station × List Station.Task
on_added session_id true s = Station.act session_id track_added s
on_added session_id false s = (s, [])

module _ (media_session : Bool) (session_id : Text) where
  unfoldable pub act : Event → Page → Page × List Task
  act (at_station e) p =
      let (s, begun) = Station.act session_id e p.station in
      (record p { station = s; player = unmounted e p.player }, map of_station begun)
  act (at_panel e) p =
      let (q, begun) = YouTubeSearch.act session_id e p.panel in
      (record p { panel = q }, map of_panel begun)
  act (at_player e) p =
      (record p { player = Player.on_event media_session p.station.stream_url e p.player }, [])

  unfoldable pub resume : (t : Task) → Answer t → Page → Page × List Task
  resume (of_station t) a p =
      let (s, begun) = Station.resume session_id t a p.station in
      (record p { station = s }, map of_station begun)
  resume (of_panel t) a p =
      let (q, begun) = YouTubeSearch.resume t a p.panel in
      let (s, fetches) = on_added session_id (is_added t a) p.station in
      (record p { station = s; panel = q }, map of_station fetches ++ map of_panel begun)

  -- The buttons of the player, or the keys of the media session.
  unfoldable pub enabled : Page → Event → Bool
  enabled p (at_station track_added) = false
  enabled p (at_station e) = Station.enabled p.station e
  enabled p (at_panel e) = is_open p.station && YouTubeSearch.enabled p.panel e
  enabled p (at_player show) = has_player p
  enabled p (at_player press_play) = media_session || (has_player p && not p.player.playing)
  enabled p (at_player press_stop) = media_session || (has_player p && p.player.playing)
  enabled p (at_player (slide v)) = has_player p

  abbrev pub page : Machine
  page = record {
    State = Page;
    Event = Event;
    Task = Task;
    Answer = Answer;
    enabled = enabled;
    act = act;
    resume = resume;
  }

  abbrev pub opened : System page
  opened = record {
    state = record { station = Station.fresh; panel = YouTubeSearch.fresh; player = Player.silent };
    pending = map of_station (Station.opened session_id).pending;
  }
