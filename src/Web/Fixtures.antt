-- ===== src/Web/Fixtures.antt =====
-- web/src: runs of the pages for the examples.
use radio_jockey.Base.{ok, true, false, none, some, [], Text, text, refl, arith}
use radio_jockey.Proto.Service.{Failure, other_error}
use radio_jockey.Base.{ℕ, ◌+◌, ◌∷◌, Option}
use radio_jockey.Base.{List, text_eq}
use radio_jockey.Search.Cache.{Cache, SearchResult}
use radio_jockey.Search.Trimming.{trim, trim_start, trim_end, is_space}
use radio_jockey.Search.Handler.{Env}
use radio_jockey.Search.Replies.{entry_at}
use radio_jockey.Search.Responses.{Upstream}
use radio_jockey.Web.Served.{Visit}
use radio_jockey.Web.Machine.{System, Reach, here, step, happen, settle, after_act, after_resume}
use radio_jockey.Web.YouTubeSearch
use radio_jockey.Web.YouTubeSearch.Paging.{IsPaged}
use radio_jockey.Web.Create.{Form, form, submit, type_name, handle_submit}
use radio_jockey.Web.Create
use radio_jockey.Web.Station
use radio_jockey.Web.Admin
use radio_jockey.Web.Sets.{has_key}
use radio_jockey.Web.Player.{show, press_play}
use radio_jockey.Web.StationPage
use radio_jockey.Web.StationPage.{of_station, of_panel, at_player, at_panel}
use radio_jockey.Web.Archive.Links.{RoutesArchives}

abbrev pub offline : Failure
offline = other_error (text "offline")

abbrev pub room : Text
room = text "room"

-- The search panel, when one has asked for `jazz`.
abbrev pub search_start : System (YouTubeSearch.panel room)
search_start = record { state = YouTubeSearch.fresh; pending = [] }

abbrev pub asked : System (YouTubeSearch.panel room)
asked =
    after_act (YouTubeSearch.panel room)
      (YouTubeSearch.handle_submit (text "jazz") YouTubeSearch.fresh) []

pub asked_run : Reach (YouTubeSearch.panel room) search_start asked
asked_run = step here (happen (YouTubeSearch.submit (text "jazz")) refl)

-- The search panel at the first page of two.
abbrev pub first_page : YouTubeSearch.Panel
first_page = record YouTubeSearch.fresh {
  current_query = text "jazz";
  next_page_token = some (text "P2");
}

pub first_page-IsPaged : IsPaged first_page
first_page-IsPaged = record { within = omega arith; first = refl }

-- A station page whose member presses skip before the page has loaded.
abbrev pub skipped : System (Station.station room)
skipped =
    after_act (Station.station room) (Station.handle_skip room Station.fresh)
      (Station.opened room).pending

pub skipped_run : Reach (Station.station room) (Station.opened room) skipped
unfolding Station.act
skipped_run = step here (happen Station.press_skip refl)

-- The administrator asks for a nonce.
abbrev pub nonce_asked : System Admin.admin
nonce_asked = after_act Admin.admin (Admin.handle_request_nonce (Admin.fresh none)) []

pub nonce_asked_run : Reach Admin.admin (Admin.opened none) nonce_asked
unfolding Admin.act
nonce_asked_run = step here (happen Admin.press_request_nonce refl)

-- The form, with the session id of a guild as its name.
abbrev pub bot_form : Form
bot_form = record { name = text "my-server-42"; archive = false; error = []; submitting = false }

-- The endpoint behind the first page of two, which has no results, and then without YouTube.
abbrev pub env : Env
env = record {
  lower = λ s. s;
  inherited = λ name. none;
  parse_json = λ s. none;
  api_key = some (text "key");
}

abbrev pub two_pages : Option Upstream
two_pages = some (record {
  status = 200;
  body_text = none;
  body_json =
      some (record { items = none; next_page_token = some (text "P2"); prev_page_token = none });
})

abbrev pub first_visit : Visit
first_visit = record { started = 4; ended = 5; youtube = λ p. two_pages }

abbrev pub unreachable : ℕ → Visit
unreachable now = record { started = now; ended = now + 1; youtube = λ p. none }

abbrev pub listed_cache : Cache
listed_cache = (text "jazz::", entry_at 5 [] (some (text "P2")) none) ∷ []

-- The form that is filled in and submitted.
abbrev pub form_start : System (form (λ s. s))
form_start = record { state = Create.fresh; pending = [] }

abbrev pub submitted : System (form (λ s. s))
submitted = after_act (form (λ s. s)) (handle_submit (λ s. s) bot_form) []

pub submitted_run : Reach (form (λ s. s)) form_start submitted
submitted_run =
    step (step here (happen (type_name (text "my-server-42")) refl)) (happen submit refl)

-- What stands for `archiveId` in a path name: what follows `/archive/`, which has nine units.
unfoldable pub archive_params : Text → Option Text
archive_params (_ ∷ _ ∷ _ ∷ _ ∷ _ ∷ _ ∷ _ ∷ _ ∷ _ ∷ s) = some s
archive_params s = none

pub archive_params-RoutesArchives : RoutesArchives archive_params
unfolding archive_params text
archive_params-RoutesArchives s h k = refl

-- A station page that has been given its stream, with the audio element in it.
abbrev pub loaded : System (StationPage.page true room)
loaded =
    after_resume (StationPage.page true room)
      (StationPage.resume true room
        (of_station (Station.get_session (record { session_id = room })))
        (ok (record { stream_url = text "http://radio/room" }))
        (StationPage.opened true room).state)
      [] []

abbrev pub with_element : System (StationPage.page true room)
with_element =
    after_act (StationPage.page true room) (StationPage.act true room (at_player show) loaded.state)
      loaded.pending

abbrev pub on_air : System (StationPage.page true room)
on_air =
    after_act (StationPage.page true room)
      (StationPage.act true room (at_player press_play) with_element.state) with_element.pending

pub on_air_run : Reach (StationPage.page true room) (StationPage.opened true room) on_air
unfolding StationPage.act StationPage.resume StationPage.enabled Station.resume Station.on_mounted
    text
on_air_run =
    step
      (step
        (step here (
          settle [] [] (of_station (Station.get_session (record { session_id = room })))
            (ok (record { stream_url = text "http://radio/room" })) refl))
        (happen (at_player show) refl))
      (happen (at_player press_play) refl)

-- The page of an administrator with a token, from its opening to the stop of a station.
abbrev pub listed_first : System Admin.admin
listed_first =
    after_resume Admin.admin
      (Admin.resume (Admin.load_both Admin.at_mount)
        (Admin.sessions_first
          (ok (record { sessions = (record { session_id = room; stream_url = [] }) ∷ [] })))
        (Admin.opened (some (text "t"))).state)
      [] []

abbrev pub listed_both : System Admin.admin
listed_both =
    after_resume Admin.admin
      (Admin.resume (Admin.load_archives Admin.at_mount) (ok (record { archives = [] }))
        listed_first.state)
      [] []

abbrev pub stop_pressed : System Admin.admin
stop_pressed =
    after_act Admin.admin (Admin.act (Admin.press_stop room) listed_both.state) listed_both.pending

pub stop_pressed_run : Reach Admin.admin (Admin.opened (some (text "t"))) stop_pressed
unfolding Admin.act Admin.resume Admin.on_first Admin.on_sessions Admin.on_archives Admin.on_loaded
    text text_eq has_key
stop_pressed_run =
    step
      (step
        (step here (
          settle [] [] (Admin.load_both Admin.at_mount)
            (Admin.sessions_first
              (ok (record { sessions = (record { session_id = room; stream_url = [] }) ∷ [] })))
            refl))
        (settle [] [] (Admin.load_archives Admin.at_mount) (ok (record { archives = [] })) refl))
      (happen (Admin.press_stop room) refl)

-- The page of a station, still loading, on which one has searched and added what was found.
abbrev pub video : SearchResult
video = record { video_id = text "v"; title = []; channel_title = []; thumbnail_url = [] }

abbrev pub loading : List StationPage.Task
loading = (StationPage.opened true room).pending

abbrev pub searching : System (StationPage.page true room)
searching =
    after_act (StationPage.page true room)
      (StationPage.act true room (at_panel (YouTubeSearch.submit (text "jazz")))
        (StationPage.opened true room).state)
      loading

abbrev pub video_found : System (StationPage.page true room)
video_found =
    after_resume (StationPage.page true room)
      (StationPage.resume true room (of_panel (YouTubeSearch.search (text "jazz") none))
        (YouTubeSearch.found (video ∷ []) none) searching.state)
      [] loading

abbrev pub video_asked : System (StationPage.page true room)
video_asked =
    after_act (StationPage.page true room)
      (StationPage.act true room (at_panel (YouTubeSearch.press_add (text "v"))) video_found.state)
      video_found.pending

abbrev pub add_video : StationPage.Task
add_video = of_panel (
    YouTubeSearch.add (record { session_id = room; track_url = YouTubeSearch.watch_url (text "v") })
      (text "v"))

abbrev pub video_added : System (StationPage.page true room)
video_added =
    after_resume (StationPage.page true room)
      (StationPage.resume true room add_video (ok (record { track = none })) video_asked.state) []
      loading

pub video_added_run : Reach (StationPage.page true room) (StationPage.opened true room) video_added
unfolding StationPage.act StationPage.resume StationPage.enabled YouTubeSearch.handle_submit
    YouTubeSearch.handle_search YouTubeSearch.run_search YouTubeSearch.resume
    YouTubeSearch.handle_add trim trim_start trim_end is_space text text_eq StationPage.on_added
    StationPage.is_added has_key
video_added_run =
    step
      (step
        (step (step here (happen (at_panel (YouTubeSearch.submit (text "jazz"))) refl)) (
          settle [] loading (of_panel (YouTubeSearch.search (text "jazz") none))
            (YouTubeSearch.found (video ∷ []) none) refl))
        (happen (at_panel (YouTubeSearch.press_add (text "v"))) refl))
      (settle [] loading add_video (ok (record { track = none })) refl)
