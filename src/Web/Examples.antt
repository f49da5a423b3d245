-- ===== src/Web/Examples.antt =====
-- web/src: the theorems at concrete inputs.
use radio_jockey.Base.{
  ℕ, ◌≤◌, true, Option, none, some, List, [], Text, text, ◌≡◌, refl, arith, All, thrown, length,
  lookup, text_eq, insert,
}
use radio_jockey.Bot.Slug.{slug_of, dash_runs, trim_dashes_start, trim_dashes_end, session_id_of}
use radio_jockey.Proto.Service.{connect_error, unauthenticated}
use radio_jockey.Search.Cache.{SearchResult, cache_key, set_cache}
use radio_jockey.Search.Trimming.{trim, trim_start, trim_end, is_space}
use radio_jockey.Base.{pos, negsuc, decimal_ℤ, decimal, decimal_from}
use radio_jockey.Web.Admin
use radio_jockey.Web.Archive.{visit, archive_href, asking}
use radio_jockey.Web.Archive.Links.{visit-archive_href}
use radio_jockey.Web.Admin.Authorization.{IsAuthorized, Reach-IsAuthorized}
use radio_jockey.Web.Admin.Races.{WaitsWith, stale_logout}
use radio_jockey.Web.Admin.Resting
use radio_jockey.Web.Admin.Storage.{reopened_token}
use radio_jockey.Web.Create.{handle_submit}
use radio_jockey.Web.Create.Slugs.{AsksFor, submit_bot_id}
use radio_jockey.Web.Fixtures.{
  room, search_start, asked, asked_run, first_page, first_page-IsPaged, skipped, skipped_run,
  stop_pressed, stop_pressed_run, bot_form, submitted, submitted_run, env, first_visit, unreachable,
  listed_cache, on_air, on_air_run, archive_params, archive_params-RoutesArchives,
}
use radio_jockey.Web.Machine.{System, Reach, here, step, happen}
use radio_jockey.Web.Machine.Settling.{ComesToRest}
use radio_jockey.Web.Station.Requests.{IsAddressed, Reach-IsAddressed}
use radio_jockey.Web.Create.Submitting.{one_creation}
use radio_jockey.Web.Player.Wiring.{IsWired}
use radio_jockey.Search.Handler.{
  get, resume, begin, look_up, request, finish, store, on_accepted, results_of,
}
use radio_jockey.Web.Served.Returning.{Returns, there_and_back, next-prev-Returns}
use radio_jockey.Web.Station
use radio_jockey.Web.Station.Polling.{IsLeaking, leaked_timer}
use radio_jockey.Web.StationPage
use radio_jockey.Web.StationPage.{at_player}
use radio_jockey.Web.Player
use radio_jockey.Web.Player.{press_stop, state_playing}
use radio_jockey.Web.StationPage.Left.{IsLeft, left, left_playing}
use radio_jockey.Web.StationPage.Fetches as Fetches
use radio_jockey.Web.StationPage.Resting as StationPageResting
use radio_jockey.Web.StationPage.Tuned.{Reach-IsWired}
use radio_jockey.Web.Timestamps.{format_timestamp_inj}
use radio_jockey.Web.YouTubeSearch
use radio_jockey.Web.YouTubeSearch.Paging.{IsPaged, Reach-IsPaged}
use radio_jockey.Web.YouTubeSearch.Races.{WaitsFor, Shows, next_page, stale_page}
use radio_jockey.Web.YouTubeSearch.Turning.{IsHidden, answered, failed_turn}
use radio_jockey.Web.YouTubeSearch.{found, refused}

format_timestamp_inj_example : ◌≡◌ {A = ℕ} 1709208000 1709208000
format_timestamp_inj_example =
    format_timestamp_inj 1709208000 1709208000 (omega arith) (omega arith) refl

Reach-IsPaged_example : IsPaged asked.state
Reach-IsPaged_example = Reach-IsPaged room asked_run

failed_turn_example :
    IsHidden first_page
      (answered first_page (text "P2") (refused 429) (YouTubeSearch.handle_next first_page))
unfolding text
failed_turn_example = failed_turn first_page (text "P2") 429 refl

stale_page_example :
    (u : System (YouTubeSearch.panel room)) × Reach (YouTubeSearch.panel room) search_start u
    × WaitsFor (trim (text "jazz")) (trim (text "soul")) (text "P2") u.state u.pending
    × Shows (trim (text "soul")) [] u.state
    × ((rs : List SearchResult) (after : Option Text)
        → Shows
            (trim (text "soul"))
            rs
            (YouTubeSearch.resume
              (YouTubeSearch.search (trim (text "jazz")) (some (next_page (text "P2"))))
              (found rs after)
              u.state).0)
unfolding text trim trim_start trim_end
stale_page_example =
    stale_page room (text "jazz") (text "soul") (text "P2") [] [] none refl refl refl

leaked_timer_example :
    (u : System (Station.station room)) × Reach (Station.station room) (Station.opened room) u
    × ((v : System (Station.station room))
        → Reach (Station.station room) u v
        → IsLeaking v.state × (Station.enabled v.state Station.poll ≡ true))
leaked_timer_example = leaked_timer room (text "http://radio/room") []

submit_bot_id_example :
    AsksFor
      (λ s. s)
      (session_id_of (λ s. s) (some (text "my server")) (some (text "42")))
      bot_form
      (handle_submit (λ s. s) bot_form)
unfolding text slug_of dash_runs trim_dashes_start trim_dashes_end session_id_of
submit_bot_id_example =
    submit_bot_id (λ s. s) (some (text "my server")) (text "42") bot_form (λ s h. refl) refl
      (refl, (refl, tt)) refl refl

admin-ComesToRest_example : ComesToRest Admin.admin Resting.weight Resting.IsIdle stop_pressed
admin-ComesToRest_example =
    Resting.admin-ComesToRest (some (text "t")) stop_pressed stop_pressed_run

Reach-IsAddressed_example : All (IsAddressed room) skipped.pending
Reach-IsAddressed_example = Reach-IsAddressed room skipped_run

one_creation_example : length submitted.pending ≤ 1
one_creation_example = one_creation (λ s. s) submitted_run

reopened_token_example :
    (Admin.opened stop_pressed.state.stored).state.auth_token ≡ stop_pressed.state.auth_token
reopened_token_example = reopened_token stop_pressed_run

Reach-IsAuthorized_example : All IsAuthorized stop_pressed.pending
Reach-IsAuthorized_example = Reach-IsAuthorized stop_pressed_run

stale_logout_example :
    (u : System Admin.admin) × Reach Admin.admin (Admin.opened (some (text "old"))) u
    × WaitsWith room (text "old") (text "new") u
    × (let t = Admin.delete_session (record { session_id = room }) (Admin.bearer (text "old")) in
        ((Admin.resume t (thrown (connect_error unauthenticated [])) u.state).0.auth_token ≡ [])
        × ((Admin.resume t (thrown (connect_error unauthenticated [])) u.state).0.stored ≡ none))
unfolding text
stale_logout_example =
    stale_logout (text "old") (text "new") [] (record { session_id = room; stream_url = [] }) refl

next-prev-Returns_example :
    Returns first_page (there_and_back env first_page (unreachable 6) (unreachable 7) listed_cache)
unfolding get resume begin look_up request cache_key text trim trim_start trim_end is_space finish
    store on_accepted results_of set_cache lookup text_eq insert
next-prev-Returns_example =
    next-prev-Returns env first_page (text "jazz") (text "P2") first_visit (unreachable 6)
      (unreachable 7) [] listed_cache none first_page-IsPaged refl refl refl (λ e. ground arith)
      (omega arith) (omega arith)

visit-archive_href_example : visit archive_params (text "/archive/-12") ≡ some (asking (negsuc 11))
unfolding archive_href decimal_ℤ decimal decimal_from text
visit-archive_href_example =
    visit-archive_href archive_params archive_params-RoutesArchives
      (record { id = negsuc 11; session_id = text "room"; created_at = pos 0 })

page-ComesToRest_example :
    ComesToRest
      (StationPage.page true room)
      StationPageResting.weight
      StationPageResting.IsIdle
      on_air
page-ComesToRest_example = StationPageResting.page-ComesToRest true room on_air on_air_run

Reach-IsWired_example : IsWired on_air.state.station.stream_url on_air.state.player
unfolding StationPage.act StationPage.resume Station.resume Station.on_mounted
Reach-IsWired_example = Reach-IsWired true room on_air_run refl

left_playing_example :
    IsLeft true state_playing
      (StationPage.act true room (at_player press_stop) (left true room on_air).state).0
unfolding StationPage.act StationPage.resume StationPage.enabled Station.resume Station.on_mounted
    text Player.on_event
left_playing_example =
    left_playing true room on_air (step here (happen (at_player press_stop) refl))
