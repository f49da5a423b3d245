-- ===== src/Web/YouTubeSearch.antt =====
-- web/src/lib/components/YouTubeSearch.svelte, with the form of YouTubeSearchBar.svelte and the
-- buttons of YouTubeSearchResults.svelte: the search panel of a station page.
pub mod Waiting
pub mod Paging
pub mod Turning
pub mod Races
use radio_jockey.Base.{
  ℕ, zero, suc, ◌+◌, Bool, true, false, not, ◌&&◌, ◌||◌, Option, none, some, List, [], ◌∷◌, ◌++◌,
  Text, text, text_eq, ltb, leb, ◌==◌, if◌then◌else◌, is_nonempty, take, get_elem?, Outcome, ok,
  thrown,
}
use radio_jockey.Proto.Messages.{AddTrackRequest, AddTrackResponse}
use radio_jockey.Proto.Service.{Failure}
use radio_jockey.Search.Cache.{SearchResult}
use radio_jockey.Search.Responses.{nonempty_text}
use radio_jockey.Search.Trimming.{trim}
use radio_jockey.Web.Errors.{friendly_error, add_track_error_message}
use radio_jockey.Web.Machine.{Machine}
use radio_jockey.Web.Sets.{has_key, add_key, delete_key, text_key}

pub data Direction : Type 0 where
  next prev : Direction

-- The second argument of `runSearch`.
pub record Turn : Type 0 where
  pub token : Option Text
  pub direction : Direction

-- `notified` counts the calls of `onAdded`.
pub record Panel : Type 0 where
  pub current_query : Text
  pub results : List SearchResult
  pub next_page_token : Option Text
  pub page_tokens : List (Option Text)
  pub page_index : ℕ
  pub searching : Bool
  pub page_loading_direction : Option Direction
  pub search_error : Text
  pub adding_ids : List Text
  pub add_error : Text
  pub notified : ℕ

-- `fetch` and `res.json()` may throw; a status that is not ok; the results and the next page token.
pub data Fetched : Type 0 where
  failed : Failure → Fetched
  refused : (status : ℕ) → Fetched
  found : List SearchResult → Option Text → Fetched

-- What a handler waits for: the endpoint's answer to a query and a page, or that of the server.
pub data Task : Type 0 where
  search : (query : Text) → Option Turn → Task
  add : AddTrackRequest → (video_id : Text) → Task

abbrev pub Answer : Task → Type 0
Answer (search query turn) = Fetched
Answer (add request video_id) = Outcome Failure AddTrackResponse

pub data Event : Type 0 where
  submit : Text → Event
  press_next press_prev : Event
  press_add : (video_id : Text) → Event

abbrev pub reset_pagination : Panel → Panel
reset_pagination p = record p {
  results = [];
  next_page_token = none;
  page_tokens = none ∷ [];
  page_index = 0;
}

-- The page turns keep the page where a fresh search resets it.
abbrev pub unless_turn : Option Turn → (Panel → Panel) → Panel → Panel
unless_turn none f p = f p
unless_turn (some turn) f p = p

abbrev pub mark_loading : Option Turn → Panel → Panel
mark_loading none p = record p { searching = true }
mark_loading (some turn) p = record p { page_loading_direction = some turn.direction }

abbrev pub mark_loaded : Option Turn → Panel → Panel
mark_loaded none p = record p { searching = false }
mark_loaded (some turn) p = record p { page_loading_direction = none }

-- `runSearch` up to its `fetch`.
unfoldable pub run_search : Text → Option Turn → Panel → Panel × List Task
run_search query turn p =
    (record (mark_loading turn p) { search_error = [] }, search query turn ∷ [])

unfoldable pub refusal_message : ℕ → Text
refusal_message status =
    if status == 503
    then text "YouTube search is not configured."
    else if status == 429
    then text
        "Daily YouTube search limit reached. Try again tomorrow, or paste a YouTube URL below instead."
    else text "Search failed. Please try again."

abbrev pub on_fetched : Option Turn → Fetched → Panel → Panel
on_fetched turn (failed err) p =
    unless_turn turn reset_pagination (record p { search_error = (friendly_error err).0 })
on_fetched turn (refused status) p =
    unless_turn turn reset_pagination (record p { search_error = refusal_message status })
on_fetched turn (found results next_page_token) p = record p {
  results = results;
  next_page_token = next_page_token;
}

unfoldable pub handle_search : Text → Panel → Panel × List Task
unfolding run_search
handle_search query p =
    run_search query none (reset_pagination (record p { current_query = query }))

-- The form's handler, in YouTubeSearchBar.svelte.
unfoldable pub handle_submit : Text → Panel → Panel × List Task
unfolding handle_search
handle_submit query p = if is_nonempty (trim query) then handle_search (trim query) p else (p, [])

abbrev pub turn_to_next : Option Text → Panel → Panel × List Task
turn_to_next none p = (p, [])
turn_to_next (some token) p =
    run_search p.current_query (some (record { token = some token; direction = next })) (record p {
      page_tokens = take (suc p.page_index) p.page_tokens ++ some token ∷ [];
      page_index = suc p.page_index;
    })

unfoldable pub handle_next : Panel → Panel × List Task
unfolding run_search
handle_next p = turn_to_next (nonempty_text p.next_page_token) p

-- `pageTokens[i]`.
abbrev pub token_at : List (Option Text) → ℕ → Option Text
token_at [] i = none
token_at (t ∷ ts) zero = t
token_at (t ∷ ts) (suc i) = token_at ts i

abbrev pub turn_to_prev : ℕ → Panel → Panel × List Task
turn_to_prev zero p = (p, [])
turn_to_prev (suc i) p =
    run_search p.current_query
      (some (record { token = token_at p.page_tokens i; direction = prev }))
      (record p { page_index = i })

unfoldable pub handle_prev : Panel → Panel × List Task
unfolding run_search
handle_prev p = turn_to_prev p.page_index p

unfoldable pub watch_url : Text → Text
watch_url video_id = text "https://www.youtube.com/watch?v=" ++ video_id

module _ (session_id : Text) where
  unfoldable pub handle_add : Text → Panel → Panel × List Task
  handle_add video_id p = (
    record p { add_error = []; adding_ids = add_key video_id p.adding_ids },
    add (record { session_id = session_id; track_url = watch_url video_id }) video_id ∷ [],
  )

  abbrev pub act : Event → Panel → Panel × List Task
  act (submit query) p = handle_submit query p
  act press_next p = handle_next p
  act press_prev p = handle_prev p
  act (press_add video_id) p = handle_add video_id p

abbrev pub on_added : Outcome Failure AddTrackResponse → Panel → Panel
on_added (ok response) p = record p { notified = suc p.notified }
on_added (thrown err) p = record p { add_error = (add_track_error_message err).0 }

unfoldable pub resume : (t : Task) → Answer t → Panel → Panel × List Task
resume (search query turn) fetched p = (mark_loaded turn (on_fetched turn fetched p), [])
resume (add request video_id) outcome p =
    let p' = on_added outcome p in
    (record p' { adding_ids = delete_key video_id p'.adding_ids }, [])

-- The results stand in the markup, with the buttons.
abbrev pub is_shown : Panel → Bool
is_shown p = is_nonempty p.current_query && not (is_nonempty p.search_error) && not p.searching

abbrev pub is_none : Option Direction → Bool
is_none none = true
is_none (some d) = false

abbrev pub has_next : Panel → Bool
has_next p = elim (nonempty_text p.next_page_token) [ none ↦ false | some token ↦ true ]

abbrev pub lists_video : Text → List SearchResult → Bool
lists_video video_id [] = false
lists_video video_id (r ∷ rs) = text_eq r.video_id video_id || lists_video video_id rs

-- `disabled={searching}` on the form, and `disabled={loading || disabled}` on the buttons.
abbrev pub enabled : Panel → Event → Bool
enabled p (submit query) = not p.searching
enabled p press_next = is_shown p && has_next p && is_none p.page_loading_direction
enabled p press_prev = is_shown p && ltb 0 p.page_index && is_none p.page_loading_direction
enabled p (press_add video_id) =
    is_shown p && lists_video video_id p.results && not (has_key video_id p.adding_ids)

abbrev pub panel : (session_id : Text) → Machine
panel session_id = record {
  State = Panel;
  Event = Event;
  Task = Task;
  Answer = Answer;
  enabled = enabled;
  act = act session_id;
  resume = resume;
}

abbrev pub fresh : Panel
fresh = record {
  current_query = [];
  results = [];
  next_page_token = none;
  page_tokens = none ∷ [];
  page_index = 0;
  searching = false;
  page_loading_direction = none;
  search_error = [];
  adding_ids = [];
  add_error = [];
  notified = 0;
}
