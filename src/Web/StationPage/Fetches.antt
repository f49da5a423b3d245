-- ===== src/Web/StationPage/Fetches.antt =====
-- web/src/routes/stations/[sessionId]/+page.svelte: the silent fetches of the queue, which the timer
-- and the search panel ask for.
use radio_jockey.Base.{ℕ, ◌+◌, Bool, Text, ok, thrown}
use radio_jockey.Web.Machine.{System, Step, happen, settle, Reach, here, step}
use radio_jockey.Web.Station as Station
use radio_jockey.Web.Station.{poll, list_queue, background}
use radio_jockey.Web.YouTubeSearch as YouTubeSearch
use radio_jockey.Web.YouTubeSearch.{search, add}
use radio_jockey.Web.StationPage.{Task, of_station, of_panel, Answer, Event, at_station, page}

-- A silent fetch that is not part of a handler.
abbrev pub is_background : Task → ℕ
is_background (of_station (list_queue background request)) = 1
is_background _ = 0

-- What wants one: the timer, and each track that the server has added for the search panel.
abbrev pub event_asks : Event → ℕ
event_asks (at_station poll) = 1
event_asks _ = 0

abbrev pub answer_asks : (t : Task) → Answer t → ℕ
answer_asks (of_station t) a = 0
answer_asks (of_panel (search query turn)) a = 0
answer_asks (of_panel (add request video_id)) (ok response) = 1
answer_asks (of_panel (add request video_id)) (thrown err) = 0

module _ (media_session : Bool) (session_id : Text) where
  abbrev pub asked_by :
      {u v : System (page media_session session_id)} → Step (page media_session session_id) u v → ℕ
  asked_by (happen e on) = event_asks e
  asked_by (settle before after t a e) = answer_asks t a

  abbrev pub answered_by :
      {u v : System (page media_session session_id)} → Step (page media_session session_id) u v → ℕ
  answered_by (happen e on) = 0
  answered_by (settle before after t a e) = is_background t

  abbrev pub asked :
      {u v : System (page media_session session_id)} → Reach (page media_session session_id) u v → ℕ
  asked here = 0
  asked (step r s) = asked r + asked_by s

  abbrev pub answered :
      {u v : System (page media_session session_id)} → Reach (page media_session session_id) u v → ℕ
  answered here = 0
  answered (step r s) = answered r + answered_by s
