-- ===== src/Web/Station.antt =====
-- web/src/routes/stations/[sessionId]/+page.svelte: the page of a station, less its audio player.
-- What `console.error` prints is left out.
pub mod Loading
pub mod Waiting
pub mod Polling
pub mod Messages
pub mod Requests
pub mod Urls
use radio_jockey.Base.{
  ℕ, Bool, true, false, not, ◌&&◌, List, [], ◌∷◌, Text, ltb, length, pos, Outcome, ok, thrown,
}
use radio_jockey.Proto.Messages.{
  Track, GetSessionRequest, GetSessionResponse, ListQueueRequest, ListQueueResponse,
  AddTrackRequest, AddTrackResponse, SkipTrackRequest, SkipTrackResponse, RemoveTrackRequest,
  RemoveTrackResponse,
}
use radio_jockey.Proto.Service.{Failure, connect_error, other_error, not_found}
use radio_jockey.Web.Errors.{friendly_error, add_track_error_message}
use radio_jockey.Web.Machine.{Machine, System}
use radio_jockey.Web.Sets.{has_key, add_key, delete_key, nat_key}

-- `polling` says that the timer of `pollHandle` runs, and `gone` that the page has been left.
pub record Station : Type 0 where
  pub not_found : Bool
  pub stream_url : Text
  pub tracks : List Track
  pub track_url : Text
  pub add_error : Text
  pub adding : Bool
  pub general_error : Text
  pub refreshing : Bool
  pub skipping : Bool
  pub removing_indices : List ℕ
  pub queue_loaded : Bool
  pub polling : Bool
  pub gone : Bool

-- Who waits for `fetchQueue`: `onMount`, the timer or the search panel, or a handler.
pub data Caller : Type 0 where
  mount background adding refreshing skipping : Caller
  removing : (index : ℕ) → Caller

pub data Task : Type 0 where
  get_session : GetSessionRequest → Task
  list_queue : Caller → ListQueueRequest → Task
  add_track : AddTrackRequest → Task
  skip_track : SkipTrackRequest → Task
  remove_track : (index : ℕ) → RemoveTrackRequest → Task

abbrev pub Answer : Task → Type 0
Answer (get_session request) = Outcome Failure GetSessionResponse
Answer (list_queue caller request) = Outcome Failure ListQueueResponse
Answer (add_track request) = Outcome Failure AddTrackResponse
Answer (skip_track request) = Outcome Failure SkipTrackResponse
Answer (remove_track index request) = Outcome Failure RemoveTrackResponse

-- `track_added` is the search panel's `onAdded`, `poll` the timer's call, `leave` is `onDestroy`.
pub data Event : Type 0 where
  type_url : Text → Event
  submit press_refresh press_skip track_added poll leave : Event
  press_remove : (index : ℕ) → Event

abbrev pub is_silent : Caller → Bool
is_silent mount = false
is_silent refreshing = false
is_silent _ = true

-- `fetchQueue` after its call.
unfoldable pub on_queue : Bool → Outcome Failure ListQueueResponse → Station → Station
on_queue silent (ok res) s = record s { tracks = res.tracks }
on_queue true (thrown err) s = s
on_queue false (thrown err) s = record s { general_error = (friendly_error err).0 }

-- What the caller of `fetchQueue` does last.
unfoldable pub finish : Caller → Station → Station
finish mount s = record s { queue_loaded = true; polling = true }
finish background s = s
finish adding s = record s { adding = false }
finish refreshing s = record s { refreshing = false }
finish skipping s = record s { skipping = false }
finish (removing index) s = record s { removing_indices = delete_key index s.removing_indices }

abbrev pub fail : Failure → Station → Station
fail err s = record s { general_error = (friendly_error err).0 }

-- `onMount` after `getSession` has thrown.
abbrev pub on_no_session : Failure → Station → Station
on_no_session (connect_error not_found raw) s = record s { not_found = true }
on_no_session (connect_error code raw) s = fail (connect_error code raw) s
on_no_session (other_error message) s = fail (other_error message) s

module _ (session_id : Text) where
  abbrev pub fetch_queue : Caller → Task
  fetch_queue caller = list_queue caller (record { session_id = session_id })

  unfoldable pub on_mounted : Outcome Failure GetSessionResponse → Station → Station × List Task
  on_mounted (ok res) s = (record s { stream_url = res.stream_url }, fetch_queue mount ∷ [])
  on_mounted (thrown err) s = (on_no_session err s, [])

  unfoldable pub handle_add_track : Station → Station × List Task
  handle_add_track s = (
    record s { add_error = []; adding = true },
    add_track (record { session_id = session_id; track_url = s.track_url }) ∷ [],
  )

  unfoldable pub on_track_added : Outcome Failure AddTrackResponse → Station → Station × List Task
  unfolding finish
  on_track_added (ok res) s = (record s { track_url = [] }, fetch_queue adding ∷ [])
  on_track_added (thrown err) s =
      (finish adding (record s { add_error = (add_track_error_message err).0 }), [])

  unfoldable pub handle_refresh : Station → Station × List Task
  handle_refresh s = (record s { refreshing = true }, fetch_queue refreshing ∷ [])

  unfoldable pub handle_skip : Station → Station × List Task
  handle_skip s =
      (record s { skipping = true }, skip_track (record { session_id = session_id }) ∷ [])

  unfoldable pub on_skipped : Outcome Failure SkipTrackResponse → Station → Station × List Task
  unfolding finish
  on_skipped (ok res) s = (s, fetch_queue skipping ∷ [])
  on_skipped (thrown err) s = (finish skipping (fail err s), [])

  unfoldable pub handle_remove : ℕ → Station → Station × List Task
  handle_remove index s = (
    record s { removing_indices = add_key index s.removing_indices },
    remove_track index (record { session_id = session_id; index = pos index }) ∷ [],
  )

  unfoldable pub on_removed :
      ℕ → Outcome Failure RemoveTrackResponse → Station → Station × List Task
  unfolding finish
  on_removed index (ok res) s = (s, fetch_queue (removing index) ∷ [])
  on_removed index (thrown err) s = (finish (removing index) (fail err s), [])

  unfoldable pub act : Event → Station → Station × List Task
  act (type_url value) s = (record s { track_url = value }, [])
  act submit s = handle_add_track s
  act press_refresh s = handle_refresh s
  act press_skip s = handle_skip s
  act (press_remove index) s = handle_remove index s
  act track_added s = (s, fetch_queue background ∷ [])
  act poll s = (s, fetch_queue background ∷ [])
  act leave s = (record s { polling = false; gone = true }, [])

  unfoldable pub resume : (t : Task) → Answer t → Station → Station × List Task
  resume (get_session request) outcome s = on_mounted outcome s
  resume (list_queue caller request) outcome s =
      (finish caller (on_queue (is_silent caller) outcome s), [])
  resume (add_track request) outcome s = on_track_added outcome s
  resume (skip_track request) outcome s = on_skipped outcome s
  resume (remove_track index request) outcome s = on_removed index outcome s

-- The form and the buttons stand in the markup.
abbrev pub is_open : Station → Bool
is_open s = not s.gone && not s.not_found

-- The markup's conditions, and `disabled={loading}` in LoadingButton.svelte. The search panel may
-- still call back when the page has gone.
abbrev pub enabled : Station → Event → Bool
enabled s (type_url value) = is_open s && not s.adding
enabled s submit = is_open s && not s.adding
enabled s press_refresh = is_open s && not s.refreshing
enabled s press_skip = is_open s && not s.skipping
enabled s (press_remove index) =
    is_open s
    && s.queue_loaded
    && ltb 0 index
    && ltb index (length s.tracks)
    && not (has_key index s.removing_indices)
enabled s track_added = true
enabled s poll = s.polling
enabled s leave = not s.gone

abbrev pub station : (session_id : Text) → Machine
station session_id = record {
  State = Station;
  Event = Event;
  Task = Task;
  Answer = Answer;
  enabled = enabled;
  act = act session_id;
  resume = resume session_id;
}

abbrev pub fresh : Station
fresh = record {
  not_found = false;
  stream_url = [];
  tracks = [];
  track_url = [];
  add_error = [];
  adding = false;
  general_error = [];
  refreshing = false;
  skipping = false;
  removing_indices = [];
  queue_loaded = false;
  polling = false;
  gone = false;
}

-- The page is in the document, and `onMount` waits for `getSession`.
abbrev pub opened : (session_id : Text) → System (station session_id)
opened session_id = record {
  state = fresh;
  pending = get_session (record { session_id = session_id }) ∷ [];
}
